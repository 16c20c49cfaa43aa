-- ===== src/Payments/Stripe.antt =====
-- `StripePaymentProcessor` of src/payments.py. An operation returns the processor, the database and
-- the result; every exception of the library, or of `int`, ends in a failed result.
use swift_route.Prelude.{String, Bool, false, Option, none, some, ◌||◌, str_eq, if◌then◌else◌}
use swift_route.Prelude.Int.{ℤ}
use swift_route.Float.{Float, nought, float_max}
use swift_route.Config.{Settings}
use swift_route.Persistence.{Db, get_balances, set_balances}
use swift_route.Payments.{
  PaymentResult, authorized, failed, StripePaymentProcessor, StripeApi, fee_of, failed_result,
  refunded_result, captured_result, earned_of,
}

-- `if payment_method_id:` takes the empty text for none.
abbrev pub method_or_none : String → Option String
method_or_none payment_method_id =
    if str_eq payment_method_id "" then none else some payment_method_id

-- Whether int(amount * 100) and the library's call return.
abbrev pub stripe_call : (ℤ → Bool) → Option ℤ → Bool
stripe_call call none = false
stripe_call call (some cents) = call cents

module _ {W : Type 0} ⦃f : Float W⦄ where
  -- int(amount_usd * 100)
  unfoldable pub to_cents : W → Option ℤ
  to_cents amount_usd = f.truncate (f.mul amount_usd (f.decimal 100 0))

  unfoldable pub new_stripe : Settings W → Db W → StripePaymentProcessor W
  unfolding get_balances
  new_stripe settings db =
      let (creator_balance, node_payout_usd) = get_balances db in
      record {
        secret_key = settings.stripe_secret_key;
        creator_balance = creator_balance;
        node_payout_usd = node_payout_usd;
      }

  unfoldable pub stripe_save : String → StripePaymentProcessor W → Db W → Db W
  unfolding set_balances
  stripe_save now p db = set_balances p.creator_balance p.node_payout_usd now db

  abbrev pub intent_result : W → String × String → PaymentResult W
  intent_result amount_usd (id, status) = record {
    payment_id = id;
    status =
        if str_eq status "requires_capture" || str_eq status "succeeded"
        then authorized
        else failed;
    amount_usd = amount_usd;
    fee_usd = nought;
    net_usd = nought;
  }

  abbrev pub created_result : W → Option (String × String) → PaymentResult W
  created_result amount_usd none = failed_result "" amount_usd
  created_result amount_usd (some intent) = intent_result amount_usd intent

  unfoldable pub stripe_authorize : StripeApi → W → String → String → PaymentResult W
  unfolding to_cents
  stripe_authorize api amount_usd description payment_method_id = elim (to_cents amount_usd) [
    | none ↦ failed_result "" amount_usd
    | some cents ↦
        created_result amount_usd
          (api.create_intent cents description (method_or_none payment_method_id))
  ]

  unfoldable pub stripe_capture :
      StripeApi
      → Settings W
      → String
      → String
      → W
      → StripePaymentProcessor W
      → Db W
      → StripePaymentProcessor W × Db W × PaymentResult W
  unfolding to_cents captured_result earned_of fee_of stripe_save
  stripe_capture api settings now payment_id amount_usd p db =
      let paid_out = f.sub amount_usd (fee_of settings amount_usd) in
      let p' = record p {
        creator_balance = f.add p.creator_balance (earned_of settings amount_usd);
        node_payout_usd = f.add p.node_payout_usd paid_out;
      } in
      if stripe_call (api.capture_intent payment_id) (to_cents amount_usd)
      then (p', stripe_save now p' db, captured_result settings payment_id amount_usd)
      else (p, db, failed_result payment_id amount_usd)

  unfoldable pub stripe_refund :
      StripeApi
      → Settings W
      → String
      → String
      → W
      → StripePaymentProcessor W
      → Db W
      → StripePaymentProcessor W × Db W × PaymentResult W
  unfolding to_cents earned_of fee_of stripe_save
  stripe_refund api settings now payment_id amount_usd p db =
      let paid_out = f.sub amount_usd (fee_of settings amount_usd) in
      let p' = record p {
        creator_balance =
            float_max nought (f.sub p.creator_balance (earned_of settings amount_usd));
        node_payout_usd = float_max nought (f.sub p.node_payout_usd paid_out);
      } in
      if stripe_call (api.create_refund payment_id) (to_cents amount_usd)
      then (p', stripe_save now p' db, refunded_result payment_id amount_usd)
      else (p, db, failed_result payment_id amount_usd)

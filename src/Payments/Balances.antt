-- ===== src/Payments/Balances.antt =====
-- The balances of a processor (src/payments.py), in memory and in the database.
use swift_route.Prelude.{
  String, Bool, true, false, ◌≡◌, Option, none, some, List, [], ◌∷◌, arith, All,
}
use swift_route.Float.{Float, IsIeee, IsNum, IsFinite, ◌≼◌, nought, one}
use swift_route.Float.Order.{round_nonneg, float_max-nonneg}
use swift_route.Config.{Settings}
use swift_route.Persistence.{Db, get_balances}
use swift_route.Payments.{StripeApi, fee_of, net_of, earned_of}
use swift_route.Payments.Processor
use swift_route.Payments.Processor.{PaymentProcessor, mock, stripe, held_balance, held_payout}

abbrev pub is_some {ℓ} : {A : Type ℓ} → Option A → Bool
is_some none = false
is_some (some a) = true

module _ {W : Type 0} ⦃f : Float W⦄ where
  -- The fee rate lies between 0 and 1, and the mint fee is not negative.
  pub record FeesInRange (settings : Settings W) : Type 0 where
    pub rate_nonneg : nought ≼ settings.transaction_fee_rate
    pub rate_le : settings.transaction_fee_rate ≼ one
    pub mint_nonneg : nought ≼ settings.signature_mint_fee_usd

  -- A finite amount of whole cents that is not negative.
  pub record IsCharge (amount_usd : W) : Type 0 where
    pub nonneg : nought ≼ amount_usd
    pub finite : IsFinite amount_usd
    pub whole_cents : f.round amount_usd 2 ≡ amount_usd

  -- The two balances are not negative, and the row in the database holds them.
  pub record IsSettled (p : PaymentProcessor W) (db : Db W) : Type 0 where
    pub balance_nonneg : nought ≼ held_balance p
    pub payout_nonneg : nought ≼ held_payout p
    pub has_row : is_some db.balances ≡ true
    pub saved : get_balances db ≡ (held_balance p, held_payout p)

pub data PaymentOp (W : Type 0) : Type 0 where
  -- the fresh id, the amount, the description and the payment method
  authorize : String → W → String → String → PaymentOp W
  -- the time, the payment's id and the amount
  capture : String → String → W → PaymentOp W
  refund : String → String → W → PaymentOp W

module _ {W : Type 0} ⦃f : Float W⦄ where
  unfoldable pub step_payment :
      StripeApi → Settings W → PaymentOp W → PaymentProcessor W → Db W → PaymentProcessor W × Db W
  step_payment api settings (PaymentOp.authorize pid amount text method) p db =
      ((Processor.authorize api settings pid amount text method p).0, db)
  step_payment api settings (PaymentOp.capture now id amount) p db =
      let (p', db', _) = Processor.capture api settings now id amount p db in (p', db')
  step_payment api settings (PaymentOp.refund now id amount) p db =
      let (p', db', _) = Processor.refund api settings now id amount p db in (p', db')

  unfoldable pub run_payments :
      StripeApi
      → Settings W
      → List (PaymentOp W)
      → PaymentProcessor W
      → Db W
      → PaymentProcessor W × Db W
  run_payments api settings [] p db = (p, db)
  run_payments api settings (op ∷ ops) p db =
      let (p', db') = step_payment api settings op p db in run_payments api settings ops p' db'

  -- The captures are of amounts in whole cents.
  abbrev pub OpInRange : PaymentOp W → Type 0
  OpInRange (PaymentOp.capture now id amount) = IsCharge amount
  OpInRange _ = Unit

module _ {W : Type 0} ⦃f : Float W⦄ (laws : IsIeee W) (settings : Settings W)
    (fees : FeesInRange settings) where
  open laws use {
    num_of_le, le_trans, sub_nonneg, sub_finite, mul_finite, finite_between, add_nonneg, mul_nonneg,
    mul_le, round_mono, decimal_finite,
  }

  module _ (amount_usd : W) (charge : IsCharge amount_usd) where
    abbrev product : W
    product = f.mul amount_usd settings.transaction_fee_rate

    product-IsNum : IsNum product
    product-IsNum = mul_finite amount_usd settings.transaction_fee_rate charge.finite (
        finite_between settings.transaction_fee_rate one fees.rate_nonneg fees.rate_le
          (decimal_finite 1 0 (omega arith)))

    pub fee_of-nonneg : nought ≼ fee_of settings amount_usd
    unfolding fee_of
    fee_of-nonneg = round_nonneg laws product (
        mul_nonneg amount_usd settings.transaction_fee_rate charge.nonneg fees.rate_nonneg
          product-IsNum)

    pub fee_of-le : fee_of settings amount_usd ≼ amount_usd
    unfolding fee_of
    fee_of-le = rw charge.whole_cents at (
        round_mono product amount_usd 2 (
          mul_le amount_usd settings.transaction_fee_rate charge.nonneg fees.rate_nonneg
            fees.rate_le product-IsNum))

    pub paid_out-nonneg : nought ≼ f.sub amount_usd (fee_of settings amount_usd)
    paid_out-nonneg = sub_nonneg amount_usd (fee_of settings amount_usd) fee_of-le (
        sub_finite amount_usd (fee_of settings amount_usd) charge.finite (
          finite_between (fee_of settings amount_usd) amount_usd fee_of-nonneg fee_of-le
            charge.finite))

    pub net_of-nonneg : nought ≼ net_of settings amount_usd
    unfolding net_of
    net_of-nonneg =
        round_nonneg laws (f.sub amount_usd (fee_of settings amount_usd)) paid_out-nonneg

    pub earned_of-nonneg : nought ≼ earned_of settings amount_usd
    unfolding earned_of
    earned_of-nonneg =
        add_nonneg (fee_of settings amount_usd) settings.signature_mint_fee_usd fee_of-nonneg
          fees.mint_nonneg

    capture-IsSettled :
        (api : StripeApi) (now id : String) (p : PaymentProcessor W) (db : Db W)
        → IsSettled p db
        → let (p', db', _) = Processor.capture api settings now id amount_usd p db in
          IsSettled p' db'
    unfolding Processor.capture get_balances
    capture-IsSettled api now id (mock p) db h = ground (
      arith,
      add_nonneg p.creator_balance (earned_of settings amount_usd) h.balance_nonneg
          earned_of-nonneg,
      add_nonneg p.node_payout_usd (net_of settings amount_usd) h.payout_nonneg net_of-nonneg,
    )
    capture-IsSettled api now id (stripe p) db h = ground (
      arith,
      add_nonneg p.creator_balance (earned_of settings amount_usd) h.balance_nonneg
          earned_of-nonneg,
      add_nonneg p.node_payout_usd (f.sub amount_usd (fee_of settings amount_usd)) h.payout_nonneg
          paid_out-nonneg,
    )

  refund-IsSettled :
      (api : StripeApi) (now id : String) (amount_usd : W) (p : PaymentProcessor W) (db : Db W)
      → IsSettled p db
      → let (p', db', _) = Processor.refund api settings now id amount_usd p db in IsSettled p' db'
  unfolding Processor.refund get_balances
  refund-IsSettled api now id amount_usd (mock p) db h = ground (
    arith,
    float_max-nonneg laws (f.sub p.creator_balance (earned_of settings amount_usd)),
    float_max-nonneg laws (f.sub p.node_payout_usd (f.sub amount_usd (fee_of settings amount_usd))),
  )
  refund-IsSettled api now id amount_usd (stripe p) db h = ground (
    arith,
    float_max-nonneg laws (f.sub p.creator_balance (earned_of settings amount_usd)),
    float_max-nonneg laws (f.sub p.node_payout_usd (f.sub amount_usd (fee_of settings amount_usd))),
  )

  authorize-IsSettled :
      (api : StripeApi) (pid : String) (amount_usd : W) (text method : String)
      (p : PaymentProcessor W) (db : Db W)
      → IsSettled p db
      → IsSettled (Processor.authorize api settings pid amount_usd text method p).0 db
  unfolding Processor.authorize get_balances
  authorize-IsSettled api pid amount_usd text method (mock p) db h = ground arith
  authorize-IsSettled api pid amount_usd text method (stripe p) db h = ground arith

  step-IsSettled :
      (api : StripeApi) (op : PaymentOp W) (p : PaymentProcessor W) (db : Db W)
      → OpInRange op
      → IsSettled p db
      → let (p', db') = step_payment api settings op p db in IsSettled p' db'
  unfolding step_payment
  step-IsSettled api (PaymentOp.authorize pid amount text method) p db ok h =
      authorize-IsSettled api pid amount text method p db h
  step-IsSettled api (PaymentOp.capture now id amount) p db ok h =
      capture-IsSettled amount ok api now id p db h
  step-IsSettled api (PaymentOp.refund now id amount) p db ok h =
      refund-IsSettled api now id amount p db h

  -- With fees in range, any run of authorizations, captures of whole cents and refunds, whatever the
  -- processor and whatever Stripe answers, keeps both balances from being negative and the row of the
  -- database equal to them.
  pub run_payments-IsSettled :
      (api : StripeApi) (ops : List (PaymentOp W)) (p : PaymentProcessor W) (db : Db W)
      → All OpInRange ops
      → IsSettled p db
      → let (p', db') = run_payments api settings ops p db in IsSettled p' db'
  unfolding run_payments
  run_payments-IsSettled api [] p db ok h = h
  run_payments-IsSettled api (op ∷ ops) p db (ok, oks) h =
      let (p', db') = step_payment api settings op p db in
      run_payments-IsSettled api ops p' db' oks (step-IsSettled api op p db ok h)

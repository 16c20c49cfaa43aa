-- ===== src/Payments/Processor.antt =====
-- The protocol `PaymentProcessor` of src/payments.py, with one constructor for each class, and
-- `get_processor`.
use swift_route.Prelude.{String, Bool, not, ◌&&◌, str_eq, if◌then◌else◌}
use swift_route.Float.{Float}
use swift_route.Config.{Settings}
use swift_route.Persistence.{Db}
use swift_route.Payments.{PaymentResult, MockPaymentProcessor, StripePaymentProcessor, StripeApi}
use swift_route.Payments.Mock.{new_mock, mock_save, mock_authorize, mock_capture, mock_refund}
use swift_route.Payments.Stripe.{
  new_stripe, stripe_save, stripe_authorize, stripe_capture, stripe_refund,
}

pub data PaymentProcessor (W : Type 0) : Type 0 where
  mock : MockPaymentProcessor W → PaymentProcessor W
  stripe : StripePaymentProcessor W → PaymentProcessor W

module _ {W : Type 0} where
  -- `_creator_balance` and `_node_payout_usd`
  abbrev pub held_balance : PaymentProcessor W → W
  held_balance (mock p) = p.creator_balance
  held_balance (stripe p) = p.creator_balance

  abbrev pub held_payout : PaymentProcessor W → W
  held_payout (mock p) = p.node_payout_usd
  held_payout (stripe p) = p.node_payout_usd

module _ {W : Type 0} ⦃f : Float W⦄ where
  -- The property `creator_balance`.
  unfoldable pub creator_balance : PaymentProcessor W → W
  creator_balance p = f.round (held_balance p) 2

  -- settings.payment_mode == "stripe" and settings.stripe_secret_key
  abbrev pub is_stripe : Settings W → Bool
  is_stripe settings =
      str_eq settings.payment_mode "stripe" && not (str_eq settings.stripe_secret_key "")

  unfoldable pub get_processor : Settings W → Db W → PaymentProcessor W
  unfolding new_mock new_stripe
  get_processor settings db =
      if is_stripe settings then stripe (new_stripe settings db) else mock (new_mock db)

  unfoldable pub save_balances : String → PaymentProcessor W → Db W → Db W
  unfolding mock_save stripe_save
  save_balances now (mock p) db = mock_save now p db
  save_balances now (stripe p) db = stripe_save now p db

  abbrev pub as_mock :
      MockPaymentProcessor W × PaymentResult W → PaymentProcessor W × PaymentResult W
  as_mock (p, r) = (mock p, r)

  unfoldable pub authorize :
      StripeApi
      → Settings W
      → String
      → W
      → String
      → String
      → PaymentProcessor W
      → PaymentProcessor W × PaymentResult W
  unfolding mock_authorize stripe_authorize
  authorize api settings pid amount_usd description payment_method_id (mock p) =
      as_mock (mock_authorize settings pid amount_usd p)
  authorize api settings pid amount_usd description payment_method_id (stripe p) =
      (stripe p, stripe_authorize api amount_usd description payment_method_id)

  abbrev pub wrap_mock :
      MockPaymentProcessor W × Db W × PaymentResult W → PaymentProcessor W × Db W × PaymentResult W
  wrap_mock (p, db, r) = (mock p, db, r)

  abbrev pub wrap_stripe :
      StripePaymentProcessor W × Db W × PaymentResult W
      → PaymentProcessor W × Db W × PaymentResult W
  wrap_stripe (p, db, r) = (stripe p, db, r)

  unfoldable pub capture :
      StripeApi
      → Settings W
      → String
      → String
      → W
      → PaymentProcessor W
      → Db W
      → PaymentProcessor W × Db W × PaymentResult W
  unfolding mock_capture stripe_capture
  capture api settings now payment_id amount_usd (mock p) db =
      wrap_mock (mock_capture settings now payment_id amount_usd p db)
  capture api settings now payment_id amount_usd (stripe p) db =
      wrap_stripe (stripe_capture api settings now payment_id amount_usd p db)

  unfoldable pub refund :
      StripeApi
      → Settings W
      → String
      → String
      → W
      → PaymentProcessor W
      → Db W
      → PaymentProcessor W × Db W × PaymentResult W
  unfolding mock_refund stripe_refund
  refund api settings now payment_id amount_usd (mock p) db =
      wrap_mock (mock_refund settings now payment_id amount_usd p db)
  refund api settings now payment_id amount_usd (stripe p) db =
      wrap_stripe (stripe_refund api settings now payment_id amount_usd p db)

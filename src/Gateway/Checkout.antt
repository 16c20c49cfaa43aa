-- ===== src/Gateway/Checkout.antt =====
-- src/gateway.py: `create_checkout_session`, the payment page of Stripe.

use Prim.Native.String.{slice}
use swift_route.Prelude.{String, Option, none, some}
use swift_route.Prelude.Int.{ℤ}
use swift_route.Float.{Float}
use swift_route.Config.{Settings}
use swift_route.Payments.Stripe.{to_cents}
use swift_route.Gateway.{Answer, answer, refused, stripe_failed, ScriptTools, check_script}
use swift_route.Gateway.StripeCalls.{Called, returned, raised, non_empty, with_stripe}

pub record CheckoutSessionRequest (W : Type 0) : Type 0 where
  pub amount_usd : W
  pub customer_email : Option String
  pub success_url : String
  pub cancel_url : String
  pub script_b64 : String

-- What checkout.Session.create is given besides the constants.
pub record CheckoutParams : Type 0 where
  pub unit_amount : ℤ
  pub success_url : String
  pub cancel_url : String
  pub script_ref : String
  pub customer_email : Option String

pub record Session : Type 0 where
  pub url : String
  pub id : String
  pub status : String

pub record CheckoutApi : Type 0 where
  pub create_session : String → CheckoutParams → Called Session

pub record CheckoutAnswer (W : Type 0) : Type 0 where
  pub checkout_url : String
  pub session_id : String
  pub amount_usd : W
  pub status : String

module _ {W : Type 0} ⦃f : Float W⦄ where
  -- Sixteen hex digits of the hash stand for the script.
  abbrev pub checkout_params : (String → String) → CheckoutSessionRequest W → ℤ → CheckoutParams
  checkout_params sha256 req cents = record {
    unit_amount = cents;
    success_url = req.success_url;
    cancel_url = req.cancel_url;
    script_ref = slice (sha256 req.script_b64) 0 16;
    customer_email = non_empty req.customer_email;
  }

  abbrev pub checkout_answer : CheckoutSessionRequest W → Called Session → Answer (CheckoutAnswer W)
  checkout_answer req (raised message) = refused stripe_failed
  checkout_answer req (returned session) = answer (record {
    checkout_url = session.url;
    session_id = session.id;
    amount_usd = req.amount_usd;
    status = session.status;
  })

  abbrev pub request_session :
      Settings W
      → (String → String)
      → CheckoutApi
      → CheckoutSessionRequest W
      → Answer (CheckoutAnswer W)
  request_session settings sha256 lib req = elim (to_cents req.amount_usd) [
    | none ↦ refused stripe_failed
    | some cents ↦
        checkout_answer req
          (lib.create_session settings.stripe_secret_key (checkout_params sha256 req cents))
  ]

  unfoldable pub create_checkout_session :
      {Bytes : Type 0}
      → Settings W
      → Option CheckoutApi
      → ScriptTools Bytes
      → (String → String)
      → CheckoutSessionRequest W
      → Answer (CheckoutAnswer W)
  unfolding to_cents check_script
  create_checkout_session settings api tools sha256 req = with_stripe settings api λ lib.
      elim (check_script tools req.script_b64) [
        | some e ↦ refused e
        | none ↦ request_session settings sha256 lib req
      ]

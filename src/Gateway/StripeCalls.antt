-- ===== src/Gateway/StripeCalls.antt =====
-- src/gateway.py: the endpoints that call Stripe, `setup_stripe_webhook` and
-- `create_payment_intent`. A call gets the secret key that the program sets before it.

use swift_route.Prelude.{
  String, Bool, not, Option, none, some, List, [], ◌∷◌, str_eq, if◌then◌else◌,
}
use swift_route.Prelude.Int.{ℤ}
use swift_route.Float.{Float, nought, one}
use swift_route.Config.{Settings}
use swift_route.Json.{Json, JsonObject, text, number, flag, null}
use swift_route.Payments.Stripe.{to_cents}
use swift_route.Payments.Processor.{is_stripe}
use swift_route.Gateway.{
  Answer, answer, refused, stripe_not_configured, stripe_missing, stripe_failed, server_error,
  amount_not_positive,
}
use swift_route.Gateway.StripeEvents.{get_or}

-- What a call of the Stripe library gives: a result, or an exception with its message.
pub data Called {ℓ} (A : Type ℓ) : Type ℓ where
  returned : A → Called A
  raised : String → Called A

-- An entry that may be absent is an Option; "connect" is there, and true, if the flag is set.
pub record EndpointParams : Type 0 where
  pub enabled_events : List String
  pub url : String
  pub description : Option String
  pub connect : Bool

pub record Endpoint : Type 0 where
  pub id : String
  pub secret : String
  pub url : String
  pub status : String
  pub enabled_events : List String

pub record EndpointApi : Type 0 where
  pub create_endpoint : String → EndpointParams → Called Endpoint

pub record StripeWebhookSetup : Type 0 where
  pub url : String
  pub description : Option String
  pub connect : Bool

abbrev pub enabled_events : List String
enabled_events =
    "charge.succeeded" ∷ "charge.failed" ∷ "charge.refunded" ∷ "charge.dispute.created"
    ∷ "payment_intent.succeeded" ∷ "payment_intent.payment_failed" ∷ "payout.created"
    ∷ "payout.paid" ∷ "payout.failed" ∷ "transfer.created" ∷ "transfer.reversed" ∷ []

-- `if o:` takes the empty text for none.
abbrev pub non_empty : Option String → Option String
non_empty none = none
non_empty (some t) = if str_eq t "" then none else some t

abbrev pub endpoint_params : StripeWebhookSetup → EndpointParams
endpoint_params req = record {
  enabled_events = enabled_events;
  url = req.url;
  description = non_empty req.description;
  connect = req.connect;
}

abbrev pub called_answer {ℓ} : {A : Type ℓ} → Called A → Answer A
called_answer (returned a) = answer a
called_answer (raised message) = refused stripe_failed

-- The guards of an endpoint that calls Stripe; `none` is a library that is not installed.
abbrev pub with_stripe {ℓ κ} :
    {W : Type 0} ⦃f : Float W⦄ {A : Type ℓ} {B : Type κ}
    → Settings W
    → Option A
    → (A → Answer B)
    → Answer B
with_stripe settings api k =
    if not (is_stripe settings)
    then refused stripe_not_configured
    else elim api [ none ↦ refused stripe_missing | some lib ↦ k lib ]

unfoldable pub setup_stripe_webhook :
    {W : Type 0} ⦃f : Float W⦄
    → Settings W
    → Option EndpointApi
    → StripeWebhookSetup
    → Answer Endpoint
setup_stripe_webhook settings api req =
    with_stripe settings api
      λ lib. called_answer (lib.create_endpoint settings.stripe_secret_key (endpoint_params req))

-- What PaymentIntent.create is given besides the constants, and what is read of an intent.
pub record Intent : Type 0 where
  pub id : String
  pub client_secret : String
  pub status : String

pub record IntentApi : Type 0 where
  pub create_intent : String → ℤ → String → Called Intent

pub record IntentAnswer (W : Type 0) : Type 0 where
  pub payment_intent_id : String
  pub client_secret : String
  pub status : String
  pub amount_usd : Json W

module _ {W : Type 0} ⦃f : Float W⦄ where
  -- A JSON value as a number; a text and null raise a TypeError where they are compared.
  abbrev pub as_number : Json W → Option W
  as_number (number n) = some n
  as_number (flag b) = some (if b then one else nought)
  as_number (text t) = none
  as_number null = none

  abbrev pub intent_answer : Json W → Called Intent → Answer (IntentAnswer W)
  intent_answer amount (raised message) = refused stripe_failed
  intent_answer amount (returned intent) = answer (record {
    payment_intent_id = intent.id;
    client_secret = intent.client_secret;
    status = intent.status;
    amount_usd = amount;
  })

  abbrev pub request_intent : Settings W → IntentApi → Json W → W → Answer (IntentAnswer W)
  request_intent settings lib value amount =
      if f.le amount nought then refused amount_not_positive else elim (to_cents amount) [
        | none ↦ refused stripe_failed
        | some cents ↦
            intent_answer value
              (lib.create_intent settings.stripe_secret_key cents "SAP compute ticket")
      ]

  unfoldable pub create_payment_intent :
      Settings W → Option IntentApi → JsonObject W → Answer (IntentAnswer W)
  unfolding to_cents
  create_payment_intent settings api request = with_stripe settings api λ lib.
      let value = get_or (number nought) "amount_usd" request in
      elim (as_number value) [
        | none ↦ refused server_error
        | some amount ↦ request_intent settings lib value amount
      ]

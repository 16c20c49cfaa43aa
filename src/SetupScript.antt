-- ===== src/SetupScript.antt =====
-- scripts/setup_stripe_webhook.py: the script that creates a Stripe webhook endpoint. The arguments are
-- those that argparse has parsed.
pub mod Agreement
use swift_route.Prelude.{ℕ, String, Bool, Option, none, some, List, [], ◌∷◌}
use swift_route.Host.{◌++◌}
use swift_route.Gateway.StripeCalls.{
  EndpointParams, Endpoint, EndpointApi, Called, returned, raised,
}

pub record SetupArgs : Type 0 where
  pub url : String
  pub secret_key : String
  pub connect : Bool
  pub description : String

-- The default of --description.
abbrev pub default_description : String
default_description = "SAP webhook endpoint"

abbrev pub setup_events : List String
setup_events =
    "charge.succeeded" ∷ "charge.failed" ∷ "charge.refunded" ∷ "charge.dispute.created"
    ∷ "payment_intent.succeeded" ∷ "payment_intent.payment_failed" ∷ "payout.created"
    ∷ "payout.paid" ∷ "payout.failed" ∷ "transfer.created" ∷ "transfer.reversed" ∷ []

abbrev pub setup_params : SetupArgs → EndpointParams
setup_params args = record {
  enabled_events = setup_events;
  url = args.url;
  description = some args.description;
  connect = args.connect;
}

-- The exit code, and the lines on the two outputs.
pub record SetupRun : Type 0 where
  pub exit_code : ℕ
  pub out : List String
  pub err : List String

abbrev pub report : Endpoint → List String
report endpoint =
    "Webhook endpoint created successfully!"
    ∷ ("  ID:       " ++ endpoint.id)
    ∷ ("  URL:      " ++ endpoint.url)
    ∷ ("  Status:   " ++ endpoint.status)
    ∷ ("  Secret:   " ++ endpoint.secret)
    ∷ ""
    ∷ "Add this to your .env file:"
    ∷ ("  SAP_STRIPE_WEBHOOK_SECRET=" ++ endpoint.secret)
    ∷ []

abbrev pub failed_run : String → SetupRun
failed_run message = record { exit_code = 1; out = []; err = message ∷ [] }

abbrev pub run_of : Called Endpoint → SetupRun
run_of (returned endpoint) = record { exit_code = 0; out = report endpoint; err = [] }
run_of (raised message) = failed_run ("Stripe API error: " ++ message)

-- main; `none` is a Stripe library that is not installed.
unfoldable pub setup_main : Option EndpointApi → SetupArgs → SetupRun
setup_main api args = elim api [
  | none ↦ failed_run "Error: stripe package not installed. Run: python -m pip install stripe"
  | some lib ↦ run_of (lib.create_endpoint args.secret_key (setup_params args))
]

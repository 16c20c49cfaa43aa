-- ===== src/SetupScript/Agreement.antt =====
-- The script scripts/setup_stripe_webhook.py beside the endpoint `setup_stripe_webhook` of
-- src/gateway.py.
use swift_route.Prelude.{String, true, false, ◌≡◌, refl, some, [], ◌⊎◌, inl, inr, str_eq}
use swift_route.Host.{◌++◌}
use swift_route.Float.{Float}
use swift_route.Config.{Settings}
use swift_route.Payments.Processor.{is_stripe}
use swift_route.Gateway.{Answer, answer, refused, stripe_failed}
use swift_route.Gateway.StripeCalls.{
  Endpoint, EndpointApi, Called, returned, raised, StripeWebhookSetup, called_answer,
  endpoint_params, setup_stripe_webhook,
}
use swift_route.SetupScript.{
  SetupArgs, setup_params, setup_main, SetupRun, report, failed_run, run_of,
}

-- What the endpoint answers where the script's run is the given one.
abbrev pub Agree : Answer Endpoint → SetupRun → Type 0
Agree a r =
    ((e : Endpoint) × (a ≡ answer e) × (r ≡ record { exit_code = 0; out = report e; err = [] }))
    ⊎ ((message : String) × (a ≡ refused stripe_failed)
        × (r ≡ failed_run ("Stripe API error: " ++ message)))

called-Agree : (c : Called Endpoint) → Agree (called_answer c) (run_of c)
called-Agree (returned e) = inl (e, refl, refl)
called-Agree (raised m) = inr (m, refl, refl)

module _ {W : Type 0} ⦃f : Float W⦄ where
  -- Where Stripe is configured and installed, the endpoint and the script, given the same key, URL and
  -- flag and the same description, which is not empty, hand Stripe the same parameters; so
  -- they succeed together, with the same endpoint, or fail together.
  pub setup_main-Agree :
      (settings : Settings W) (lib : EndpointApi) (args : SetupArgs)
      → is_stripe settings ≡ true
      → args.secret_key ≡ settings.stripe_secret_key
      → str_eq args.description "" ≡ false
      → let req : StripeWebhookSetup = record {
        url = args.url;
        description = some args.description;
        connect = args.connect;
      } in
        (endpoint_params req ≡ setup_params args)
        × Agree (setup_stripe_webhook settings (some lib) req) (setup_main (some lib) args)
  unfolding setup_stripe_webhook setup_main
  setup_main-Agree settings lib args on key described =
      rw (described, on, key)
        (refl, called-Agree (lib.create_endpoint settings.stripe_secret_key (setup_params args)))

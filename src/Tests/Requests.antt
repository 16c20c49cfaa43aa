-- ===== src/Tests/Requests.antt =====
-- Requests at the rate limiter, at the payouts and at the Stripe endpoints.
use swift_route.Prelude.{true, ◌≡◌, refl, some, none, List, [], ◌∷◌, arith, not}
use swift_route.Prelude.Dict.{lookup, insert}
use swift_route.Prelude.Int.{ℤ, pos, ◌-ℤ◌}
use swift_route.Fixed.{fixed_float, Fixed-IsIeee}
use swift_route.Config.{Settings}
use swift_route.Persistence.{Db, get_balances}
use swift_route.Payments.Processor.{PaymentProcessor, mock}
use swift_route.Payments.Balances.{IsSettled}
use swift_route.ScriptValidator.{is_in}
use swift_route.Gateway.RateLimit.{RateLimit, Store, limit_request, passed, limited, prune, refresh}
use swift_route.Gateway.RateLimit.Bounds.{IsBounded, limit_request-IsBounded}
use swift_route.Gateway.RateLimit.Window.{
  Request, run_limiter, run_reference, run_limiter-eq-reference,
}
use swift_route.Gateway.Payouts.{ConnectPayoutRequest, connect_payout}
use swift_route.Gateway.Payouts.Settled.{connect_payout-IsSettled}
use swift_route.Gateway.StripeEvents.{WebhookApi, stripe_webhook}
use swift_route.Gateway.StripeEvents.Handled.{is_ignored, stripe_webhook-ignored}
use swift_route.Gateway.StripeCalls.{
  EndpointApi, returned, enabled_events, endpoint_params, setup_stripe_webhook, StripeWebhookSetup,
}
use swift_route.SetupScript.{SetupArgs, setup_params, setup_main, default_description}
use swift_route.SetupScript.Agreement.{Agree, setup_main-Agree}
use swift_route.Tests.Data.{settings, db}

-- Two requests in a minute, and two clients at most.
abbrev limit : RateLimit ℤ
limit = record { max_requests = 2; window_seconds = pos 60_000_000; max_entries = 2 }

-- The third request of the first client comes too early, the fourth in time.
abbrev requests : List (Request ℤ)
requests =
    (pos 100_000_000, some "10.0.0.1")
    ∷ (pos 101_000_000, some "10.0.0.1")
    ∷ (pos 102_000_000, none)
    ∷ (pos 103_000_000, some "10.0.0.1")
    ∷ (pos 161_000_000, some "10.0.0.1")
    ∷ []

run_limiter-eq-reference_example : run_limiter limit requests [] ≡ run_reference limit requests []
unfolding limit_request refresh prune lookup insert ◌-ℤ◌
run_limiter-eq-reference_example =
    run_limiter-eq-reference Fixed-IsIeee limit requests (pos 0) refl
      (refl, refl, (refl, refl, (refl, refl, (refl, refl, (refl, refl, tt)))))
      (omega arith, (omega arith, (omega arith, (omega arith, (omega arith, tt)))))

-- The limiter's own answers.
limits_third_request :
    run_limiter limit requests [] ≡ passed ∷ passed ∷ passed ∷ limited ∷ passed ∷ []
unfolding run_limiter limit_request refresh prune lookup insert ◌-ℤ◌
limits_third_request = refl

abbrev store : Store ℤ
store = ("10.0.0.1", pos 100_000_000 ∷ pos 101_000_000 ∷ []) ∷ ("10.0.0.2", []) ∷ []

-- A third client.
limit_request-IsBounded_example :
    IsBounded limit (limit_request limit (pos 102_000_000) (some "10.0.0.3") store).0
limit_request-IsBounded_example =
    limit_request-IsBounded limit (pos 102_000_000) (some "10.0.0.3") store
      (record { within = (omega arith, (omega arith, tt)); few = omega arith })

-- 25.00 USD are held, and 5.00 USD are asked for.
abbrev rich : PaymentProcessor ℤ
rich = mock (record { ledger = []; creator_balance = pos 25_000_000; node_payout_usd = pos 0 })

abbrev rich_db : Db ℤ
rich_db = record db {
  balances =
      some (record { creator_balance = pos 25_000_000; node_payout_usd = pos 0; updated_at = "" });
}

abbrev payout_request : ConnectPayoutRequest ℤ
payout_request = record { stripe_account_id = "acct_1"; amount_usd = some (pos 5_000_000) }

connect_payout-IsSettled_example :
    let (p', db', _) =
      connect_payout settings none "2026-01-02T10:00:00" "po-1" payout_request rich rich_db in
    IsSettled p' db'
unfolding get_balances ◌-ℤ◌
connect_payout-IsSettled_example =
    connect_payout-IsSettled Fixed-IsIeee settings none "2026-01-02T10:00:00" "po-1" payout_request
      rich rich_db refl refl refl
      (record { balance_nonneg = refl; payout_nonneg = refl; has_row = refl; saved = refl })

abbrev stripe_settings : Settings ℤ
stripe_settings = record settings {
  payment_mode = "stripe";
  stripe_secret_key = "sk_test";
  stripe_webhook_secret = "whsec";
}

-- Every payload is a checkout that was paid.
abbrev webhooks : WebhookApi ℤ
webhooks = record {
  construct_event = λ payload sig secret. some ("checkout.session.completed", []);
}

stripe_webhook-ignored_example :
    is_ignored (stripe_webhook stripe_settings (some webhooks) "{}" "sig")
    ≡ not (is_in "checkout.session.completed" enabled_events)
stripe_webhook-ignored_example =
    stripe_webhook-ignored stripe_settings webhooks "{}" "sig" "checkout.session.completed" [] refl
      refl refl

abbrev endpoints : EndpointApi
endpoints = record {
  create_endpoint = λ key params. returned (record {
    id = "we_1";
    secret = "whsec_1";
    url = params.url;
    status = "enabled";
    enabled_events = params.enabled_events;
  });
}

abbrev setup_args : SetupArgs
setup_args = record {
  url = "https://sap.example.com/webhook/stripe";
  secret_key = "sk_test";
  connect = true;
  description = default_description;
}

abbrev setup_request : StripeWebhookSetup
setup_request = record {
  url = setup_args.url;
  description = some default_description;
  connect = true;
}

setup_main-Agree_example :
    (endpoint_params setup_request ≡ setup_params setup_args)
    × Agree
        (setup_stripe_webhook stripe_settings (some endpoints) setup_request)
        (setup_main (some endpoints) setup_args)
setup_main-Agree_example = setup_main-Agree stripe_settings endpoints setup_args refl refl refl

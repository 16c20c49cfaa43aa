-- ===== src/Gateway/StripeEvents/Handled.antt =====
-- Which events `stripe_webhook` (src/gateway.py) acts on.
use swift_route.Prelude.{
  String, Bool, false, not, ◌≡◌, refl, Option, none, some, [], ◌∷◌, All, map, arith, str_eq, eq_iff,
}
use swift_route.Prelude.Dict.{Dict, lookup}
use swift_route.Float.{Float}
use swift_route.Config.{Settings}
use swift_route.Json.{JsonObject, text}
use swift_route.ScriptValidator.{is_in}
use swift_route.Gateway.{Answer, answer}
use swift_route.Gateway.StripeCalls.{enabled_events}
use swift_route.Gateway.StripeEvents.{
  WebhookApi, Handled, amount_of, handlers, ignored_event, with_amount, dispatch_stripe,
  stripe_webhook, handled_answer, handle_charge_succeeded, handle_charge_failed,
  handle_charge_refunded, handle_dispute_created, handle_payout_event, handle_transfer_created,
  handle_transfer_reversed,
}

-- The answer to an event that no handler takes.
abbrev pub is_ignored : {W : Type 0} → Answer (JsonObject W) → Bool
is_ignored (answer ((k, text s) ∷ rest)) = str_eq s "ignored"
is_ignored _ = false

module _ {W : Type 0} ⦃f : Float W⦄ where
  -- A handler that never answers "ignored".
  abbrev Acts : (JsonObject W → Handled W) → Type 0
  Acts handler = (obj : JsonObject W) → is_ignored (handled_answer (handler obj)) ≡ false

  with_amount-Acts :
      (amount : Option W) (k : W → JsonObject W)
      → ((a : W) → is_ignored (answer (k a)) ≡ false)
      → is_ignored (handled_answer (with_amount amount k)) ≡ false
  with_amount-Acts none k h = refl
  with_amount-Acts (some a) k h = h a

  charge_succeeded-Acts : Acts handle_charge_succeeded
  unfolding handle_charge_succeeded
  charge_succeeded-Acts obj = with_amount-Acts (amount_of "amount" obj) _ (λ a. refl)

  charge_failed-Acts : Acts handle_charge_failed
  unfolding handle_charge_failed
  charge_failed-Acts obj = refl

  charge_refunded-Acts : Acts handle_charge_refunded
  unfolding handle_charge_refunded
  charge_refunded-Acts obj = with_amount-Acts (amount_of "amount_refunded" obj) _ (λ a. refl)

  dispute_created-Acts : Acts handle_dispute_created
  unfolding handle_dispute_created
  dispute_created-Acts obj = with_amount-Acts (amount_of "amount" obj) _ (λ a. refl)

  payout_created-Acts : Acts (handle_payout_event "payout.created")
  unfolding handle_payout_event
  payout_created-Acts obj = with_amount-Acts (amount_of "amount" obj) _ (λ a. refl)

  payout_paid-Acts : Acts (handle_payout_event "payout.paid")
  unfolding handle_payout_event
  payout_paid-Acts obj = with_amount-Acts (amount_of "amount" obj) _ (λ a. refl)

  payout_failed-Acts : Acts (handle_payout_event "payout.failed")
  unfolding handle_payout_event
  payout_failed-Acts obj = with_amount-Acts (amount_of "amount" obj) _ (λ a. refl)

  transfer_created-Acts : Acts handle_transfer_created
  unfolding handle_transfer_created
  transfer_created-Acts obj = with_amount-Acts (amount_of "amount" obj) _ (λ a. refl)

  transfer_reversed-Acts : Acts handle_transfer_reversed
  unfolding handle_transfer_reversed
  transfer_reversed-Acts obj = with_amount-Acts (amount_of "amount_reversed" obj) _ (λ a. refl)

  handlers-Act : All (λ e. Acts e.1) (handlers {W = W})
  handlers-Act = (
    charge_succeeded-Acts,
    (
      charge_failed-Acts,
      (
        charge_refunded-Acts,
        (
          dispute_created-Acts,
          (
            charge_succeeded-Acts,
            (
              charge_failed-Acts,
              (
                payout_created-Acts,
                (
                  payout_paid-Acts,
                  (payout_failed-Acts, (transfer_created-Acts, (transfer_reversed-Acts, tt))),
                ),
              ),
            ),
          ),
        ),
      ),
    ),
  )

  -- The answer that a dict of handlers gives.
  abbrev answer_from :
      String → JsonObject W → Dict (JsonObject W → Handled W) → Answer (JsonObject W)
  answer_from event_type obj hs = elim (lookup event_type hs) [
    | some handler ↦ handled_answer (handler obj)
    | none ↦ answer (ignored_event event_type)
  ]

  answer_from-ignored :
      (event_type : String) (obj : JsonObject W) (hs : Dict (JsonObject W → Handled W))
      → All (λ e. Acts e.1) hs
      → is_ignored (answer_from event_type obj hs) ≡ not (is_in event_type (map (λ e. e.0) hs))
  unfolding lookup is_in
  answer_from-ignored event_type obj [] h = refl
  answer_from-ignored event_type obj ((k, handler) ∷ hs) (h, rest) =
      ground (arith, h obj, answer_from-ignored event_type obj hs rest)

  -- Once the webhook is configured and the event is verified, the answer is "ignored" exactly if the
  -- event's type is not among those that the gateway asks Stripe for; every type that it asks for has
  -- a handler.
  pub stripe_webhook-ignored :
      (settings : Settings W) (lib : WebhookApi W) (payload sig_header event_type : String)
      (obj : JsonObject W)
      → settings.payment_mode ≡ "stripe"
      → str_eq settings.stripe_webhook_secret "" ≡ false
      → lib.construct_event payload sig_header settings.stripe_webhook_secret
        ≡ some (event_type, obj)
      → is_ignored (stripe_webhook settings (some lib) payload sig_header)
        ≡ not (is_in event_type enabled_events)
  unfolding stripe_webhook dispatch_stripe
  stripe_webhook-ignored settings lib payload sig_header event_type obj mode secret verified =
      ground (
        arith,
        eq_iff settings.payment_mode "stripe",
        answer_from-ignored event_type obj handlers handlers-Act,
      )

-- ===== src/Gateway/StripeEvents.antt =====
-- src/gateway.py, `stripe_webhook` and its handlers. Of an event the handlers read entries that are
-- texts or numbers. The verification of an event is the Stripe library's.
pub mod Handled
use swift_route.Prelude.{
  String, Bool, true, false, not, ◌&&◌, ◌||◌, Option, none, some, List, [], ◌∷◌, str_eq,
  if◌then◌else◌,
}
use swift_route.Prelude.Dict.{Dict, lookup}
use swift_route.Prelude.Text.{replace_char}
use swift_route.Float.{Float, nought, one}
use swift_route.Config.{Settings}
use swift_route.Json.{Json, JsonObject, text, number, flag, null}
use swift_route.Gateway.{
  Answer, answer, refused, stripe_not_configured, stripe_missing, webhook_unverified, server_error,
}

-- obj.get(key, default), and obj.get(key)
abbrev pub get_or : {W : Type 0} → Json W → String → JsonObject W → Json W
get_or default key obj = elim (lookup key obj) [ none ↦ default | some v ↦ v ]

abbrev pub get_entry : {W : Type 0} → String → JsonObject W → Json W
get_entry key obj = get_or null key obj

-- An event: its type and its object.
abbrev pub StripeEvent : Type 0 → Type 0
StripeEvent W = String × JsonObject W

-- Webhook.construct_event of a payload, a signature and the secret, which may raise.
pub record WebhookApi (W : Type 0) : Type 0 where
  pub construct_event : String → String → String → Option (StripeEvent W)

-- The dict of a handler, or `none` for a TypeError.
abbrev pub Handled : Type 0 → Type 0
Handled W = Option (JsonObject W)

module _ {W : Type 0} ⦃f : Float W⦄ where
  -- v / 100.0, where a flag counts as a number and a text and None raise.
  unfoldable pub hundredth : Json W → Option W
  hundredth (number n) = some (f.div n (f.decimal 100 0))
  hundredth (flag b) = some (f.div (if b then one else nought) (f.decimal 100 0))
  hundredth (text t) = none
  hundredth null = none

  abbrev pub with_amount : Option W → (W → JsonObject W) → Handled W
  with_amount none k = none
  with_amount (some amount) k = some (k amount)

  -- obj.get(key, 0) / 100.0
  abbrev pub amount_of : String → JsonObject W → Option W
  amount_of key obj = hundredth (get_or (number nought) key obj)

  unfoldable pub handle_charge_succeeded : JsonObject W → Handled W
  unfolding hundredth
  handle_charge_succeeded obj = with_amount (amount_of "amount" obj) λ amount.
      ("status", text "charge_succeeded")
      ∷ ("charge_id", get_entry "id" obj)
      ∷ ("amount_usd", number amount)
      ∷ []

  unfoldable pub handle_charge_failed : JsonObject W → Handled W
  handle_charge_failed obj = some (
      ("status", text "charge_failed")
      ∷ ("charge_id", get_entry "id" obj)
      ∷ ("reason", get_or (text "unknown") "failure_message" obj)
      ∷ [])

  unfoldable pub handle_charge_refunded : JsonObject W → Handled W
  unfolding hundredth
  handle_charge_refunded obj = with_amount (amount_of "amount_refunded" obj) λ amount.
      ("status", text "charge_refunded")
      ∷ ("charge_id", get_entry "id" obj)
      ∷ ("amount_refunded_usd", number amount)
      ∷ []

  unfoldable pub handle_dispute_created : JsonObject W → Handled W
  unfolding hundredth
  handle_dispute_created obj = with_amount (amount_of "amount" obj) λ amount.
      ("status", text "dispute_created")
      ∷ ("dispute_id", get_entry "id" obj)
      ∷ ("charge_id", get_entry "charge" obj)
      ∷ ("reason", get_or (text "unknown") "reason" obj)
      ∷ ("amount_usd", number amount)
      ∷ []

  unfoldable pub handle_payout_event : String → JsonObject W → Handled W
  unfolding hundredth replace_char
  handle_payout_event event_type obj = with_amount (amount_of "amount" obj) λ amount.
      ("status", text (replace_char "." "_" event_type))
      ∷ ("payout_id", get_entry "id" obj)
      ∷ ("amount_usd", number amount)
      ∷ ("payout_status", get_or (text "unknown") "status" obj)
      ∷ []

  unfoldable pub handle_transfer_created : JsonObject W → Handled W
  unfolding hundredth
  handle_transfer_created obj = with_amount (amount_of "amount" obj) λ amount.
      ("status", text "transfer_created")
      ∷ ("transfer_id", get_entry "id" obj)
      ∷ ("amount_usd", number amount)
      ∷ ("destination", get_entry "destination" obj)
      ∷ []

  unfoldable pub handle_transfer_reversed : JsonObject W → Handled W
  unfolding hundredth
  handle_transfer_reversed obj = with_amount (amount_of "amount_reversed" obj) λ amount.
      ("status", text "transfer_reversed")
      ∷ ("transfer_id", get_entry "id" obj)
      ∷ ("amount_reversed_usd", number amount)
      ∷ []

  -- The dict of the handlers.
  abbrev pub handlers : Dict (JsonObject W → Handled W)
  handlers =
      ("charge.succeeded", handle_charge_succeeded)
      ∷ ("charge.failed", handle_charge_failed)
      ∷ ("charge.refunded", handle_charge_refunded)
      ∷ ("charge.dispute.created", handle_dispute_created)
      ∷ ("payment_intent.succeeded", handle_charge_succeeded)
      ∷ ("payment_intent.payment_failed", handle_charge_failed)
      ∷ ("payout.created", handle_payout_event "payout.created")
      ∷ ("payout.paid", handle_payout_event "payout.paid")
      ∷ ("payout.failed", handle_payout_event "payout.failed")
      ∷ ("transfer.created", handle_transfer_created)
      ∷ ("transfer.reversed", handle_transfer_reversed)
      ∷ []

  abbrev pub ignored_event : String → JsonObject W
  ignored_event event_type = ("status", text "ignored") ∷ ("event_type", text event_type) ∷ []

  abbrev pub handled_answer : Handled W → Answer (JsonObject W)
  handled_answer none = refused server_error
  handled_answer (some o) = answer o

  unfoldable pub dispatch_stripe : StripeEvent W → Answer (JsonObject W)
  dispatch_stripe (event_type, obj) = elim (lookup event_type handlers) [
    | some handler ↦ handled_answer (handler obj)
    | none ↦ answer (ignored_event event_type)
  ]

  -- `none` for the API is a Stripe library that is not installed.
  unfoldable pub stripe_webhook :
      Settings W → Option (WebhookApi W) → String → String → Answer (JsonObject W)
  stripe_webhook settings api payload sig_header =
      if not (str_eq settings.payment_mode "stripe") || str_eq settings.stripe_webhook_secret ""
      then refused stripe_not_configured
      else elim api [
        | none ↦ refused stripe_missing
        | some lib ↦ elim (lib.construct_event payload sig_header settings.stripe_webhook_secret) [
          | none ↦ refused webhook_unverified
          | some event ↦ dispatch_stripe event
        ]
      ]

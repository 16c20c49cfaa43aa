-- ===== src/Tests/Money.antt =====
-- Prices, payouts and payments on concrete amounts.
use swift_route.Prelude.{true, ◌≡◌, refl, List, [], ◌∷◌, ℕ, String}
use swift_route.Prelude.Dict.{lookup, insert}
use swift_route.Prelude.Int.{ℤ, pos, ◌+ℤ◌, ◌-ℤ◌}
use swift_route.Float.{◌≼◌, ◌≺◌, nought, float_max}
use swift_route.Fixed.{fixed_float, Fixed-IsIeee}
use swift_route.Pricing.{StateVector, calculate_pricing}
use swift_route.Pricing.Profit.{HasFees, profitable_cheaper, profitable_antitone}
use swift_route.Sge.{GridEvent, peak_demand, new_sge, process_event, payout_of, notify}
use swift_route.Sge.Payout.{frozen_bounds, frozen_pays_five}
use swift_route.Persistence.{get_balances}
use swift_route.Payments.{MockPaymentProcessor, refunded, earned_of, net_of, fee_of}
use swift_route.Payments.Mock.{mock_authorize, mock_capture, mock_refund}
use swift_route.Payments.Balances.{
  FeesInRange, IsCharge, IsSettled, PaymentOp, run_payments, run_payments-IsSettled,
}
use swift_route.Payments.Credits.{mock_capture-credits}
use swift_route.Payments.Refunds.{refund_without_capture}
use swift_route.Gateway.{total_charge_of}
use swift_route.Tests.Data.{settings, stripe_api, db, processor}

-- 0.40 USD, 120.0 g and a tax credit of 0.18 USD; and 0.25 USD.
abbrev remote : StateVector ℤ
remote = record {
  compute_cost_usd = pos 400_000;
  carbon_g = pos 120_000_000;
  tax_value_usd = pos 180_000;
}

abbrev cheap : StateVector ℤ
cheap = record remote { compute_cost_usd = pos 250_000 }

settings-HasFees : HasFees settings
settings-HasFees = record { rate_nonneg = refl; local_nonneg = refl }

profitable_cheaper_example : remote.compute_cost_usd ≺ settings.local_compute_cost_usd
unfolding calculate_pricing ◌+ℤ◌ ◌-ℤ◌
profitable_cheaper_example = profitable_cheaper Fixed-IsIeee settings remote settings-HasFees refl

profitable_antitone_example : (calculate_pricing settings cheap).is_profitable ≡ true
unfolding calculate_pricing ◌+ℤ◌ ◌-ℤ◌
profitable_antitone_example = profitable_antitone Fixed-IsIeee settings remote cheap refl refl refl

-- The example of the readme: a saving of 3.10 USD, less the fee of 0.14 USD.
calculate_pricing-remote :
    (calculate_pricing settings remote).delta_net.compute_cost_usd ≡ pos 2_960_000
unfolding calculate_pricing ◌+ℤ◌ ◌-ℤ◌
calculate_pricing-remote = refl

-- The yield of that example, and what a capture of its charge credits to the creator.
creator_yield-remote : (calculate_pricing settings remote).creator_yield_usd ≡ pos 190_000
unfolding calculate_pricing ◌+ℤ◌ ◌-ℤ◌
creator_yield-remote = refl

earned_of-remote :
    earned_of settings (total_charge_of remote (calculate_pricing settings remote)) ≡ pos 70_000
unfolding calculate_pricing total_charge_of earned_of ◌+ℤ◌ ◌-ℤ◌
earned_of-remote = refl

abbrev peak : GridEvent ℤ
peak = record {
  event_type = peak_demand;
  zone_id = "tx-solar-01";
  price_usd_per_mwh = pos 6_500_000_000;
  timestamp = "2026-01-02T10:00:00Z";
}

frozen_bounds_example :
    (settings.sge_peak_threshold_usd_per_mwh ≼ peak.price_usd_per_mwh)
    × (◌≡◌ {A = String} "j-1" "j-1")
    × (◌≡◌ {A = ℕ} 15 settings.sge_pause_minutes)
    × (pos 5_000_000 ≼ fixed_float.decimal 5 0)
unfolding process_event payout_of notify
frozen_bounds_example =
    frozen_bounds Fixed-IsIeee settings peak "j-1" "j-1" 15 (pos 5_000_000) (new_sge settings) refl
      refl refl

frozen_pays_five_example :
    (pos 5_000_000 ≼ fixed_float.decimal 5 0) × (fixed_float.decimal 5 0 ≼ pos 5_000_000)
unfolding process_event payout_of notify
frozen_pays_five_example =
    frozen_pays_five Fixed-IsIeee settings peak "j-1" "j-1" 15 (pos 5_000_000) (new_sge settings)
      refl refl refl refl

settings-FeesInRange : FeesInRange settings
settings-FeesInRange = record { rate_nonneg = refl; rate_le = refl; mint_nonneg = refl }

abbrev payment_ops : List (PaymentOp ℤ)
payment_ops =
    PaymentOp.authorize "pay-1" (pos 440_000) "a job" ""
    ∷ PaymentOp.capture "now" "pay-1" (pos 440_000)
    ∷ PaymentOp.refund "now" "pay-1" (pos 440_000)
    ∷ PaymentOp.refund "now" "pay-1" (pos 440_000)
    ∷ []

charge : IsCharge (pos 440_000)
unfolding ◌-ℤ◌
charge = record { nonneg = refl; finite = refl; whole_cents = refl }

processor-IsSettled : IsSettled processor db
unfolding get_balances
processor-IsSettled = record {
  balance_nonneg = refl;
  payout_nonneg = refl;
  has_row = refl;
  saved = refl;
}

run_payments-IsSettled_example :
    let (p', db') = run_payments stripe_api settings payment_ops processor db in IsSettled p' db'
run_payments-IsSettled_example =
    run_payments-IsSettled Fixed-IsIeee settings settings-FeesInRange stripe_api payment_ops
      processor db (tt, (charge, (tt, (tt, tt)))) processor-IsSettled

abbrev mock_processor : MockPaymentProcessor ℤ
mock_processor = record { ledger = []; creator_balance = pos 1_000_000; node_payout_usd = pos 0 }

-- The charge of the readme's example, authorized.
abbrev charged_processor : MockPaymentProcessor ℤ
charged_processor = (mock_authorize settings "pay-1" (pos 590_000) mock_processor).0

mock_capture-credits_example :
    let (p', _, _) = mock_capture settings "now" "pay-1" (pos 590_000) charged_processor db in
    p'.creator_balance +ℤ p'.node_payout_usd
    ≡ (pos 1_000_000 +ℤ pos 0) +ℤ (pos 590_000 +ℤ pos 50_000)
unfolding mock_authorize net_of fee_of lookup insert ◌-ℤ◌
mock_capture-credits_example =
    mock_capture-credits settings "now" "pay-1" (pos 590_000) charged_processor db
      (mock_authorize settings "pay-1" (pos 590_000) mock_processor).1 refl refl

refund_without_capture_example :
    let (p₁, _) = mock_authorize settings "pay-1" (pos 440_000) mock_processor in
    let (p₂, db₂, r₂) = mock_refund settings "now" "pay-1" (pos 440_000) p₁ db in
    let (p₃, _, r₃) = mock_refund settings "now" "pay-1" (pos 440_000) p₂ db₂ in
    let earned = earned_of settings (pos 440_000) in
    (p₁.creator_balance ≡ mock_processor.creator_balance)
    × (r₂.status ≡ refunded)
    × (p₂.creator_balance ≡ float_max nought (mock_processor.creator_balance -ℤ earned))
    × (r₃.status ≡ refunded)
    × (p₃.creator_balance ≡ float_max nought (p₂.creator_balance -ℤ earned))
refund_without_capture_example =
    refund_without_capture settings "now" "pay-1" (pos 440_000) mock_processor db

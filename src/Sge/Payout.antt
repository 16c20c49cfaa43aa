-- ===== src/Sge/Payout.antt =====
-- What a frozen job earns (src/sge.py, `_handle_peak`).
use swift_route.Prelude.{ℕ, String, false, ◌≡◌, ap, some, arith}
use swift_route.Float.{Float, IsIeee, IsNum, ◌≼◌, float_min}
use swift_route.Float.Order.{float_min-le, le-float_min, le_of_not_lt}
use swift_route.Config.{Settings}
use swift_route.Sge.{GridEvent, SyntheticGridElasticity, frozen, process_event, payout_of}

module _ {W : Type 0} ⦃f : Float W⦄ (laws : IsIeee W) where
  open laws use {
    num_of_le, num_of_lt, le_trans, le_total, lt-eq-not-le, one-mul, div_mono, div_exact,
    round_mono, round-decimal, decimal_nonneg,
  }

  abbrev five : W
  five = f.decimal 5 0

  five-IsNum : IsNum five
  five-IsNum = (num_of_le _ _ (decimal_nonneg 5 0)).1

  div-IsNum : (price : W) → IsNum price → IsNum (f.div price (f.decimal 1000 0))
  div-IsNum price n = div_mono price price 999 n

  payout_of-eq :
      (price : W) → payout_of price ≡ f.round (float_min (f.div price (f.decimal 1000 0)) five) 2
  unfolding payout_of
  payout_of-eq price =
      ap (λ x. f.round x 2) (one-mul (float_min (f.div price (f.decimal 1000 0)) five))

  payout_of-le : (price : W) → IsNum price → payout_of price ≼ five
  payout_of-le price n = rw payout_of-eq (
      rw (round-decimal 5 0 (omega arith)) at (
        round_mono (float_min (f.div price (f.decimal 1000 0)) five) five 2
          (float_min-le laws (f.div price (f.decimal 1000 0)) five (div-IsNum price n) five-IsNum)))

  five-le-quotient : (price : W) → f.decimal 5000 0 ≼ price → five ≼ f.div price (f.decimal 1000 0)
  five-le-quotient price h =
      rw (div_exact 5 999 (omega arith)) at (div_mono (f.decimal 5000 0) price 999 h)

  five-le-payout_of : (price : W) → f.decimal 5000 0 ≼ price → five ≼ payout_of price
  five-le-payout_of price h = rw payout_of-eq (
      rw (round-decimal 5 0 (omega arith)) at (
        round_mono five (float_min (f.div price (f.decimal 1000 0)) five) 2 (
          le-float_min laws five (f.div price (f.decimal 1000 0)) five (five-le-quotient price h)
            five-IsNum)))

  module _ (settings : Settings W) (event : GridEvent W) (job j : String) (minutes : ℕ) (payout : W)
      (s : SyntheticGridElasticity W) (number : IsNum event.price_usd_per_mwh)
      (threshold : IsNum settings.sge_peak_threshold_usd_per_mwh)
      (answer : (process_event settings event job s).action ≡ some (frozen j minutes payout)) where
    frozen-parts :
        (f.lt event.price_usd_per_mwh settings.sge_peak_threshold_usd_per_mwh ≡ false)
        × (j ≡ job)
        × (minutes ≡ settings.sge_pause_minutes)
        × (payout ≡ payout_of event.price_usd_per_mwh)
    unfolding process_event
    frozen-parts = ground arith

    reached : settings.sge_peak_threshold_usd_per_mwh ≼ event.price_usd_per_mwh
    reached =
        le_of_not_lt laws settings.sge_peak_threshold_usd_per_mwh event.price_usd_per_mwh threshold
          number frozen-parts.0

    -- At a price and a threshold that are numbers, an event that freezes its job has reached the
    -- threshold, names the job and the minutes of the settings, and pays at most 5.00 USD.
    pub frozen_bounds :
        (settings.sge_peak_threshold_usd_per_mwh ≼ event.price_usd_per_mwh)
        × (j ≡ job)
        × (minutes ≡ settings.sge_pause_minutes)
        × (payout ≼ f.decimal 5 0)
    frozen_bounds =
        let (_, same, length, paid) = frozen-parts in
        (reached, same, length, rw paid (payout_of-le event.price_usd_per_mwh number))

    -- At a price and a threshold that are numbers, and a threshold of 5000 USD/MWh or more, which is
    -- the default, every payout is 5.00 USD: it is at most and at least that.
    pub frozen_pays_five :
        f.decimal 5000 0 ≼ settings.sge_peak_threshold_usd_per_mwh
        → (payout ≼ f.decimal 5 0) × (f.decimal 5 0 ≼ payout)
    frozen_pays_five high = rw frozen-parts.3 (
      payout_of-le event.price_usd_per_mwh number,
      five-le-payout_of event.price_usd_per_mwh (
          le_trans (f.decimal 5000 0) settings.sge_peak_threshold_usd_per_mwh
            event.price_usd_per_mwh high reached),
    )

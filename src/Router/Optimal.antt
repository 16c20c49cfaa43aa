-- ===== src/Router/Optimal.antt =====
-- Which zone `find_optimal_zone` (src/router.py) picks.
use swift_route.Prelude.{◌≡◌, refl, ap, ◌⊎◌, inl, inr, List, [], ◌∷◌, ◌++◌, All, some, Bool-cases}
use swift_route.Float.{Float, IsIeee, IsNum, ◌≼◌, ◌≺◌}
use swift_route.Float.Order.{lt_of_lt_of_le, le_of_lt, le_of_not_lt}
use swift_route.Config.{Settings}
use swift_route.Router.{
  Zone, GridClient, HttpClient, routed, failed, no_zones, fetch_zones, zone_to_state, zone_score,
  best_zone, find_optimal_zone,
}

module _ {W : Type 0} ⦃f : Float W⦄ (workload_kwh : W) where
  -- The zone `best` stands in the list, every zone before it has a higher score, and no zone after it
  -- has a lower one.
  pub record IsFirstBest (best : Zone W) (zs : List (Zone W)) : Type 0 where
    pub before : List (Zone W)
    pub after : List (Zone W)
    pub split : zs ≡ before ++ (best ∷ after)
    pub higher : All (λ z. zone_score best workload_kwh ≺ zone_score z workload_kwh) before
    pub no_lower : All (λ z. zone_score best workload_kwh ≼ zone_score z workload_kwh) after

  -- No score is NaN.
  abbrev pub AllScored : List (Zone W) → Type 0
  AllScored = All λ z. IsNum (zone_score z workload_kwh)

  IsFirstBest-head :
      (z : Zone W) (zs : List (Zone W))
      → All (λ y. zone_score z workload_kwh ≼ zone_score y workload_kwh) zs
      → IsFirstBest z (z ∷ zs)
  IsFirstBest-head z zs h = record {
    before = [];
    after = zs;
    split = refl;
    higher = tt;
    no_lower = h;
  }

  IsFirstBest-cons :
      (r z : Zone W) (zs : List (Zone W))
      → zone_score r workload_kwh ≺ zone_score z workload_kwh
      → IsFirstBest r zs
      → IsFirstBest r (z ∷ zs)
  IsFirstBest-cons r z zs h b = record {
    before = z ∷ b.before;
    after = b.after;
    split = ap (λ l. z ∷ l) b.split;
    higher = (h, b.higher);
    no_lower = b.no_lower;
  }

module _ {W : Type 0} ⦃f : Float W⦄ (laws : IsIeee W) (workload_kwh : W) where
  abbrev score : Zone W → W
  score z = zone_score z workload_kwh

  -- The loop keeps its zone, or ends with the first best one of the rest.
  abbrev Outcome : Zone W → List (Zone W) → Zone W → Type 0
  Outcome b zs r =
      ((r ≡ b) × All (λ z. score b ≼ score z) zs)
      ⊎ ((score r ≺ score b) × IsFirstBest workload_kwh r zs)

  Outcome-replaced :
      (b z r : Zone W) (zs : List (Zone W))
      → score z ≺ score b
      → Outcome z zs r
      → Outcome b (z ∷ zs) r
  Outcome-replaced b z r zs h (inl (e, all)) =
      rw e (inr (h, IsFirstBest-head workload_kwh z zs all))
  Outcome-replaced b z r zs h (inr (lt, best)) = inr (
    lt_of_lt_of_le laws (score r) (score z) (score b) lt (le_of_lt laws (score z) (score b) h),
    IsFirstBest-cons workload_kwh r z zs lt best,
  )

  Outcome-kept :
      (b z r : Zone W) (zs : List (Zone W))
      → score b ≼ score z
      → Outcome b zs r
      → Outcome b (z ∷ zs) r
  Outcome-kept b z r zs h (inl (e, all)) = inl (e, (h, all))
  Outcome-kept b z r zs h (inr (lt, best)) = inr (
    lt,
    IsFirstBest-cons workload_kwh r z zs (lt_of_lt_of_le laws (score r) (score b) (score z) lt h)
        best,
  )

  best_zone-Outcome :
      (b : Zone W) (zs : List (Zone W))
      → IsNum (score b)
      → AllScored workload_kwh zs
      → Outcome b zs (best_zone workload_kwh b zs)
  unfolding best_zone
  best_zone-Outcome b [] nb ns = inl (refl, tt)
  best_zone-Outcome b (z ∷ zs) nb (nz, ns) = elim (Bool-cases (f.lt (score z) (score b))) [
    | inl e ↦ rw e (Outcome-replaced b z _ zs e (best_zone-Outcome z zs nz ns))
    | inr e ↦ rw e (
        Outcome-kept b z _ zs (le_of_not_lt laws (score b) (score z) nb nz e)
          (best_zone-Outcome b zs nb ns))
  ]

  best_zone-IsFirstBest :
      (b : Zone W) (zs : List (Zone W))
      → AllScored workload_kwh (b ∷ zs)
      → IsFirstBest workload_kwh (best_zone workload_kwh b zs) (b ∷ zs)
  best_zone-IsFirstBest b zs (nb, ns) = elim (best_zone-Outcome b zs nb ns) [
    | inl (e, all) ↦ rw e (IsFirstBest-head workload_kwh b zs all)
    | inr (lt, best) ↦ IsFirstBest-cons workload_kwh (best_zone workload_kwh b zs) b zs lt best
  ]

  -- Where the grid answers with zones whose scores are numbers, the router raises "no zones" on the
  -- empty list, and otherwise returns the first zone with the lowest score and its state.
  pub find_optimal_zone-IsFirstBest :
      (settings : Settings W) (http : HttpClient W) (grid : GridClient W) (zs : List (Zone W))
      → fetch_zones grid ≡ routed zs
      → AllScored workload_kwh zs
      → ((zs ≡ []) × (find_optimal_zone settings http workload_kwh (some grid) ≡ failed no_zones))
        ⊎ ((best : Zone W) × (find_optimal_zone settings http workload_kwh (some grid)
              ≡ routed (best, zone_to_state best workload_kwh))
            × IsFirstBest workload_kwh best zs)
  unfolding find_optimal_zone
  find_optimal_zone-IsFirstBest settings http grid [] e ns = inl (refl, rw (find_optimal_zone, e))
  find_optimal_zone-IsFirstBest settings http grid (z ∷ zs) e ns =
      inr (best_zone workload_kwh z zs, rw (find_optimal_zone, e), best_zone-IsFirstBest z zs ns)

-- ===== src/Gateway/RateLimit/Window/Recent.antt =====
-- The requests of one client in the window (src/gateway.py, `RateLimitMiddleware`).
use swift_route.Prelude.{
  ℕ, ◌+◌, false, ◌≡◌, refl, ap, ◌∙◌, List, [], ◌∷◌, ◌++◌, All, arith, length, Bool-cases, inl, inr,
  if◌then◌else◌,
}
use swift_route.Float.{Float, IsIeee, IsNum, ◌≼◌, ◌≺◌}
use swift_route.Float.Order.{lt_of_lt_of_le, lt_of_le_of_lt}
use swift_route.Gateway.RateLimit.{prune}

module _ {W : Type 0} ⦃f : Float W⦄ where
  -- The times rise, up to `last`.
  abbrev pub Rising : W → List W → Type 0
  Rising last [] = Unit
  Rising last (t ∷ ts) = (t ≼ last) × All (λ u. t ≼ u) ts × Rising last ts

  -- How many times are not before the cutoff.
  unfoldable pub count_recent : W → List W → ℕ
  count_recent cutoff [] = 0
  count_recent cutoff (t ∷ ts) = (if f.lt t cutoff then 0 else 1) + count_recent cutoff ts

  -- The times that the pruning drops.
  unfoldable pub dropped : W → List W → List W
  dropped cutoff [] = []
  dropped cutoff (t ∷ ts) = let rest = dropped cutoff ts in if f.lt t cutoff then t ∷ rest else []

  pub prune-split : (cutoff : W) (ts : List W) → ts ≡ dropped cutoff ts ++ prune cutoff ts
  unfolding prune dropped
  prune-split cutoff [] = refl
  prune-split cutoff (t ∷ ts) = ground (arith, prune-split cutoff ts)

  pub dropped-old : (cutoff : W) (ts : List W) → All (λ t. t ≺ cutoff) (dropped cutoff ts)
  unfolding dropped
  dropped-old cutoff [] = tt
  dropped-old cutoff (t ∷ ts) = ground (arith, dropped-old cutoff ts)

  pub count-old :
      (cutoff : W) (old ts : List W)
      → All (λ t. t ≺ cutoff) old
      → count_recent cutoff (old ++ ts) ≡ count_recent cutoff ts
  unfolding count_recent
  count-old cutoff [] ts h = refl
  count-old cutoff (t ∷ old) ts h = ground (arith, count-old cutoff old ts h.1)

  count-fresh :
      (cutoff : W) (ts : List W)
      → All (λ t. f.lt t cutoff ≡ false) ts
      → count_recent cutoff ts ≡ length ts
  unfolding count_recent
  count-fresh cutoff [] h = refl
  count-fresh cutoff (t ∷ ts) h = ground (arith, count-fresh cutoff ts h.1)

  pub Rising-prune :
      (last cutoff : W) (ts : List W) → Rising last ts → Rising last (prune cutoff ts)
  unfolding prune
  Rising-prune last cutoff [] h = h
  Rising-prune last cutoff (t ∷ ts) h = ground (arith, Rising-prune last cutoff ts h.2)

module _ {W : Type 0} ⦃f : Float W⦄ (laws : IsIeee W) where
  open laws use {num_of_le, le_trans}

  pub All-old : (c c' : W) (old : List W) → c ≼ c' → All (λ t. t ≺ c) old → All (λ t. t ≺ c') old
  All-old c c' [] le h = tt
  All-old c c' (t ∷ old) le (h, hs) = (lt_of_lt_of_le laws t c c' h le, All-old c c' old le hs)

  not_lt_of_le : (t u c : W) → t ≼ u → f.lt t c ≡ false → f.lt u c ≡ false
  not_lt_of_le t u c le h = ground (arith, lt_of_le_of_lt laws t u c le)

  All-fresh :
      (t c : W) (ts : List W)
      → f.lt t c ≡ false
      → All (λ u. t ≼ u) ts
      → All (λ u. f.lt u c ≡ false) ts
  All-fresh t c [] h le = tt
  All-fresh t c (u ∷ ts) h (le, les) = (not_lt_of_le t u c le h, All-fresh t c ts h les)

  prune-fresh :
      (last cutoff : W) (ts : List W)
      → Rising last ts
      → All (λ t. f.lt t cutoff ≡ false) (prune cutoff ts)
  unfolding prune
  prune-fresh last cutoff [] h = tt
  prune-fresh last cutoff (t ∷ ts) (le, les, rising) = elim (Bool-cases (f.lt t cutoff)) [
    | inl e ↦ rw e (prune-fresh last cutoff ts rising)
    | inr e ↦ rw e (e, All-fresh t cutoff ts e les)
  ]

  pub Rising-later : (last now : W) (ts : List W) → last ≼ now → Rising last ts → Rising now ts
  Rising-later last now [] le h = tt
  Rising-later last now (t ∷ ts) le (h, hs, rising) =
      (le_trans t last now h le, hs, Rising-later last now ts le rising)

  All-snoc-le :
      (t now last : W) (ts : List W)
      → t ≼ now
      → All (λ u. t ≼ u) ts
      → All (λ u. t ≼ u) (ts ++ (now ∷ []))
  All-snoc-le t now last [] h hs = (h, tt)
  All-snoc-le t now last (u ∷ ts) h (k, ks) = (k, All-snoc-le t now last ts h ks)

  pub Rising-snoc :
      (now : W) (ts : List W) → IsNum now → Rising now ts → Rising now (ts ++ (now ∷ []))
  Rising-snoc now [] n h = (n, tt, tt)
  Rising-snoc now (t ∷ ts) n (h, hs, rising) =
      (h, All-snoc-le t now now ts h hs, Rising-snoc now ts n rising)

  -- What the pruning keeps is as many as are recent among all times, the old ones included.
  pub count-kept :
      (last cutoff : W) (old ts : List W)
      → All (λ t. t ≺ cutoff) old
      → Rising last ts
      → count_recent cutoff (old ++ ts) ≡ length (prune cutoff ts)
  count-kept last cutoff old ts h rising =
      count-old cutoff old ts h
      ∙ ap (count_recent cutoff) (prune-split cutoff ts)
      ∙ count-old cutoff (dropped cutoff ts) (prune cutoff ts) (dropped-old cutoff ts)
      ∙ count-fresh cutoff (prune cutoff ts) (prune-fresh last cutoff ts rising)

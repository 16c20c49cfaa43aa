-- ===== src/Float/Order.antt =====
-- Consequences of the laws of `Float`: the strict order, and the bounds of `min` and `max`.
use swift_route.Prelude.{◌≡◌, false, arith}
use swift_route.Float.{Float, IsIeee, IsNum, ◌≼◌, ◌≺◌, nought, float_min, float_max}

module _ {W : Type 0} ⦃f : Float W⦄ (laws : IsIeee W) where
  open laws use {
    num_of_le, num_of_lt, le_trans, le_total, lt-eq-not-le, decimal_nonneg, round_mono,
    round-decimal,
  }

  pub lt_of_not_le : (x y : W) → IsNum x → IsNum y → (y ≼ x → ⊥) → x ≺ y
  lt_of_not_le x y nx ny h = grind (arith, lt-eq-not-le x y nx ny)

  pub not_le_of_lt : (x y : W) → x ≺ y → y ≼ x → ⊥
  not_le_of_lt x y h k = ground (arith, num_of_lt x y h, lt-eq-not-le x y)

  pub le_of_lt : (x y : W) → x ≺ y → x ≼ y
  le_of_lt x y h = ground (arith, num_of_lt x y h, lt-eq-not-le x y, le_total x y)

  pub lt_of_lt_of_le : (x y z : W) → x ≺ y → y ≼ z → x ≺ z
  lt_of_lt_of_le x y z h k =
      lt_of_not_le x z (num_of_lt x y h).0 (num_of_le y z k).1
        λ back. not_le_of_lt x y h (le_trans y z x k back)

  pub lt_of_le_of_lt : (x y z : W) → x ≼ y → y ≺ z → x ≺ z
  lt_of_le_of_lt x y z h k =
      lt_of_not_le x z (num_of_le x y h).0 (num_of_lt y z k).1
        λ back. not_le_of_lt y z k (le_trans z x y back h)

  pub nought-IsNum : IsNum {W = W} nought
  nought-IsNum = decimal_nonneg 0 0

  pub round_nonpos : (x : W) → x ≼ nought → f.round x 2 ≼ nought
  round_nonpos x h = rw (round-decimal 0 0 (omega arith)) at (round_mono x nought 2 h)

  pub round_nonneg : (x : W) → nought ≼ x → nought ≼ f.round x 2
  round_nonneg x h = rw (round-decimal 0 0 (omega arith)) at (round_mono nought x 2 h)

  -- `max(0.0, x)` is never negative, also where x is NaN.
  pub float_max-nonneg : (x : W) → nought ≼ float_max nought x
  float_max-nonneg x = ground (arith, le_of_lt nought x, nought-IsNum)

  pub float_min-le : (x y : W) → IsNum x → IsNum y → float_min x y ≼ y
  float_min-le x y nx ny = ground (arith, lt-eq-not-le y x ny nx, le_total x y nx ny)

  pub le_of_not_lt : (x y : W) → IsNum x → IsNum y → f.lt y x ≡ false → x ≼ y
  le_of_not_lt x y nx ny h = ground (arith, lt-eq-not-le y x ny nx, le_total x y nx ny)

  pub le-float_min : (z x y : W) → z ≼ x → z ≼ y → z ≼ float_min x y
  le-float_min z x y p q = ground arith

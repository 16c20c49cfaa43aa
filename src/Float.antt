-- ===== src/Float.antt =====
-- What the program does with a Python `float`: the operations, behind an interface, and the laws of
-- IEEE 754 arithmetic and of Python's `round` that the proofs use. NaN is the value that is not `<=`
-- itself; the order is total only away from it.
pub mod Order
use swift_route.Prelude.{
  ℕ, suc, ◌*◌, ◌^◌, ◌≤◌, ◌<◌, ◌≡◌, ◌⊎◌, Bool, true, not, Option, if◌then◌else◌,
}
use swift_route.Prelude.Int.{ℤ}

pub record Float (W : Type 0) : Type 0 where
  -- `decimal m k` is the literal m / 10^k: 0.05 is `decimal 5 2`.
  pub decimal : ℕ → ℕ → W
  pub neg : W → W
  pub abs : W → W
  pub add : W → W → W
  pub sub : W → W → W
  pub mul : W → W → W
  pub div : W → W → W
  -- round(x, n)
  pub round : W → ℕ → W
  -- x <= y and x < y
  pub le : W → W → Bool
  pub lt : W → W → Bool
  -- int(x), which raises at NaN and the infinities
  pub truncate : W → Option ℤ
  -- float(n)
  pub of_int : ℤ → W

module _ {W : Type 0} ⦃f : Float W⦄ where
  infix 4 ◌≼◌ ◌≺◌
  abbrev pub ◌≼◌ : W → W → Type 0
  x ≼ y = f.le x y ≡ true

  abbrev pub ◌≺◌ : W → W → Type 0
  x ≺ y = f.lt x y ≡ true

  -- The value is not NaN.
  abbrev pub IsNum : W → Type 0
  IsNum x = f.le x x ≡ true

  -- The value is no infinity either.
  abbrev pub IsFinite : W → Type 0
  IsFinite x = IsNum (f.sub x x)

  abbrev pub nought : W
  nought = f.decimal 0 0

  abbrev pub one : W
  one = f.decimal 1 0

  -- Python's `min(x, y)` and `max(x, y)` return the first argument unless the second is better.
  abbrev pub float_min : W → W → W
  float_min x y = if f.lt y x then y else x

  abbrev pub float_max : W → W → W
  float_max x y = if f.lt x y then y else x

pub record IsIeee (W : Type 0) ⦃f : Float W⦄ : Type 0 where
  pub num_of_le : (x y : W) → x ≼ y → IsNum x × IsNum y
  pub num_of_lt : (x y : W) → x ≺ y → IsNum x × IsNum y
  pub le_trans : (x y z : W) → x ≼ y → y ≼ z → x ≼ z
  pub le_total : (x y : W) → IsNum x → IsNum y → (x ≼ y) ⊎ (y ≼ x)
  pub lt-eq-not-le : (x y : W) → IsNum x → IsNum y → f.lt x y ≡ not (f.le y x)
  pub decimal_nonneg : (m k : ℕ) → nought ≼ f.decimal m k
  pub sub_num : (x y : W) → IsNum (f.sub x y) → IsNum x × IsNum y
  pub sub_mono :
      (a b c d : W) → a ≼ b → d ≼ c → IsNum (f.sub a c) → IsNum (f.sub b d) → f.sub a c ≼ f.sub b d
  pub sub_nonpos : (a b : W) → a ≼ b → IsNum (f.sub a b) → f.sub a b ≼ nought
  pub sub_nonneg : (a b : W) → b ≼ a → IsNum (f.sub a b) → nought ≼ f.sub a b
  pub sub_finite : (a b : W) → IsFinite a → IsFinite b → IsNum (f.sub a b)
  pub mul_finite : (a b : W) → IsFinite a → IsFinite b → IsNum (f.mul a b)
  pub finite_between : (x y : W) → nought ≼ x → x ≼ y → IsFinite y → IsFinite x
  pub decimal_finite : (m k : ℕ) → m < 2 ^ 53 → IsFinite (f.decimal m k)
  pub add_nonneg : (a b : W) → nought ≼ a → nought ≼ b → nought ≼ f.add a b
  pub mul_nonneg : (a b : W) → nought ≼ a → nought ≼ b → IsNum (f.mul a b) → nought ≼ f.mul a b
  pub mul_le : (a r : W) → nought ≼ a → nought ≼ r → r ≼ one → IsNum (f.mul a r) → f.mul a r ≼ a
  pub one-mul : (x : W) → f.mul one x ≡ x
  pub div_mono :
      (x y : W) (m : ℕ) → x ≼ y → f.div x (f.decimal (suc m) 0) ≼ f.div y (f.decimal (suc m) 0)
  -- Whole numbers below 2^53 are exact, and so is a quotient that is whole.
  pub div_exact :
      (a m : ℕ)
      → a * suc m < 2 ^ 53
      → f.div (f.decimal (a * suc m) 0) (f.decimal (suc m) 0) ≡ f.decimal a 0
  pub round_num : (x : W) (n : ℕ) → IsNum (f.round x n) → IsNum x
  pub round_mono : (x y : W) (n : ℕ) → x ≼ y → f.round x n ≼ f.round y n
  -- A literal with at most two decimals is not changed.
  pub round-decimal : (m k : ℕ) → k ≤ 2 → f.round (f.decimal m k) 2 ≡ f.decimal m k

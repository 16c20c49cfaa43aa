-- ===== src/Fixed.antt =====
-- An instance of the interface of `Float`: numbers with six decimals, as integers. It runs the tests
-- and the witnesses, and Payments/Credits counts in it.
use native.Mathlib.Nat.{
  div-one, le-div_iff_mul-le, div-mul-le_self, mul-div_cancel, mul-le-mul_right,
}
use swift_route.Prelude.{ℕ, zero, suc, ◌+◌, ◌-◌, ◌*◌, ◌/◌, ◌^◌, ◌≤◌, ◌≡◌, true, some, ap, arith}
use swift_route.Prelude.Int.{ℤ, pos, negsuc, sub_ℕ, ◌+ℤ◌, ◌-ℤ◌, ◌≤ℤ◌, leb_ℤ, ltb_ℤ}
use swift_route.Float.{Float, IsIeee}

-- The number that stands for 1.
abbrev pub unit : ℕ
unit = 1_000_000

abbrev pub negate : ℤ → ℤ
negate (pos n) = sub_ℕ 0 n
negate (negsuc n) = pos (suc n)

-- The sign is kept, and the function is applied to the magnitude.
abbrev pub on_magnitude : (ℕ → ℕ) → ℤ → ℤ
on_magnitude g (pos n) = pos (g n)
on_magnitude g (negsuc n) = sub_ℕ 0 (g (suc n))

abbrev pub fixed_mul : ℤ → ℤ → ℤ
fixed_mul a (pos b) = on_magnitude (λ x. x * b / unit) a
fixed_mul a (negsuc b) = negate (on_magnitude (λ x. x * suc b / unit) a)

abbrev pub fixed_div : ℤ → ℤ → ℤ
fixed_div a (pos b) = on_magnitude (λ x. x * unit / b) a
fixed_div a (negsuc b) = negate (on_magnitude (λ x. x * unit / suc b) a)

-- To the nearest multiple of `u`, a tie away from zero.
abbrev pub nearest : ℕ → ℕ → ℕ
nearest u x = (x + u / 2) / u * u

instance abbrev pub fixed_float : Float ℤ
fixed_float = record {
  decimal = λ m k. pos (m * unit / 10 ^ k);
  neg = negate;
  abs = λ x. elim x [ pos n ↦ pos n | negsuc n ↦ pos (suc n) ];
  add = ◌+ℤ◌;
  sub = ◌-ℤ◌;
  mul = fixed_mul;
  div = fixed_div;
  round = λ x n. on_magnitude (nearest (10 ^ (6 - n))) x;
  le = leb_ℤ;
  lt = ltb_ℤ;
  truncate = λ x. some (on_magnitude (λ m. m / unit) x);
  of_int = on_magnitude (λ m. m * unit);
}

div_mono : (k x y : ℕ) → x ≤ y → x / k ≤ y / k
div_mono zero x y h = omega arith
div_mono (suc k) x y h = grind (arith, le-div_iff_mul-le, div-mul-le_self x (suc k))

on_magnitude_mono :
    (g : ℕ → ℕ) (mono : (x y : ℕ) → x ≤ y → g x ≤ g y) (a b : ℤ)
    → a ≤ℤ b
    → on_magnitude g a ≤ℤ on_magnitude g b
on_magnitude_mono g mono (pos m) (pos n) h = ground (arith, mono m n)
on_magnitude_mono g mono (pos m) (negsuc n) h = omega arith
on_magnitude_mono g mono (negsuc m) (pos n) h = ground arith
on_magnitude_mono g mono (negsuc m) (negsuc n) h = ground (arith, mono (suc n) (suc m))

nearest_mono : (u x y : ℕ) → x ≤ y → nearest u x ≤ nearest u y
nearest_mono u x y h = mul-le-mul_right u (div_mono u (x + u / 2) (y + u / 2) (omega arith))

scale_mono : (r k x y : ℕ) → x ≤ y → x * r / k ≤ y * r / k
scale_mono r k x y h = div_mono k (x * r) (y * r) (mul-le-mul_right r h)

le-leb_ℤ : (x y : ℤ) → leb_ℤ x y ≡ true → x ≤ℤ y
le-leb_ℤ x y h = ground arith

leb_ℤ-le : (x y : ℤ) → x ≤ℤ y → leb_ℤ x y ≡ true
leb_ℤ-le x y h = ground arith

on_magnitude-le :
    (g : ℕ → ℕ) (mono : (x y : ℕ) → x ≤ y → g x ≤ g y) (a b : ℤ)
    → leb_ℤ a b ≡ true
    → leb_ℤ (on_magnitude g a) (on_magnitude g b) ≡ true
on_magnitude-le g mono a b h =
    leb_ℤ-le (on_magnitude g a) (on_magnitude g b) (on_magnitude_mono g mono a b (le-leb_ℤ a b h))

fixed_mul-nonneg :
    (a b : ℤ)
    → leb_ℤ (pos 0) a ≡ true
    → leb_ℤ (pos 0) b ≡ true
    → leb_ℤ (pos 0) (fixed_mul a b) ≡ true
fixed_mul-nonneg a b p q = ground arith

shrink : (x r : ℕ) → r ≤ unit → x * r / unit ≤ x
shrink x r h = grind arith

fixed_mul-le :
    (a r : ℤ)
    → leb_ℤ (pos 0) a ≡ true
    → leb_ℤ (pos 0) r ≡ true
    → leb_ℤ r (pos unit) ≡ true
    → leb_ℤ (fixed_mul a r) a ≡ true
fixed_mul-le (pos a) (pos r) p q h = ground (arith, shrink a r)
fixed_mul-le (pos a) (negsuc r) p q h = ground arith
fixed_mul-le (negsuc a) r p q h = ground arith

one-fixed_mul : (x : ℤ) → fixed_mul (pos unit) x ≡ x
one-fixed_mul (pos n) = ground arith
one-fixed_mul (negsuc n) = ground arith

nearest-two : (m k : ℕ) → k ≤ 2 → nearest 10_000 (m * unit / 10 ^ k) ≡ m * unit / 10 ^ k
nearest-two m zero h = omega arith
nearest-two m (suc zero) h = omega arith
nearest-two m (suc (suc zero)) h = omega arith
nearest-two m (suc (suc (suc k))) h = absurd (omega arith)

exact : (a m : ℕ) → a * suc m * unit / 1 * unit / (suc m * unit / 1) ≡ a * unit / 1
exact a m =
    let d = suc m * unit / 1 in
    let whole : a * suc m * unit / 1 * unit ≡ a * unit / 1 * d = simp div-one (omega arith) in
    rw whole (mul-div_cancel (a * unit / 1) (omega arith))

pub Fixed-IsIeee : IsIeee ℤ
unfolding ◌+ℤ◌ ◌-ℤ◌
Fixed-IsIeee = record {
  num_of_le = λ x y h. ground arith;
  num_of_lt = λ x y h. ground arith;
  le_trans = λ x y z p q. ground arith;
  le_total = λ x y p q. ground arith;
  lt-eq-not-le = λ x y p q. ground arith;
  decimal_nonneg = λ m k. ground arith;
  sub_num = λ x y h. ground arith;
  sub_mono = λ a b c d p q _ _. ground arith;
  sub_nonpos = λ a b h _. ground arith;
  sub_nonneg = λ a b h _. ground arith;
  sub_finite = λ a b p q. ground arith;
  mul_finite = λ a b p q. ground arith;
  finite_between = λ x y p q h. ground arith;
  decimal_finite = λ m k h. ground arith;
  add_nonneg = λ a b p q. ground arith;
  mul_nonneg = λ a b p q _. fixed_mul-nonneg a b p q;
  mul_le = λ a r p q h _. fixed_mul-le a r p q h;
  one-mul = one-fixed_mul;
  div_mono = λ x y m h.
      on_magnitude-le (λ v. v * unit / (suc m * unit / 1)) (scale_mono unit (suc m * unit / 1)) x y
        h;
  div_exact = λ a m h. ap pos (exact a m);
  round_num = λ x n h. ground arith;
  round_mono =
      λ x y n h. on_magnitude-le (nearest (10 ^ (6 - n))) (nearest_mono (10 ^ (6 - n))) x y h;
  round-decimal = λ m k h. ap pos (nearest-two m k h);
}

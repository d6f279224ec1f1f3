-- ===== src/Prelude/Float.antt =====
-- What the code does with Python floats: an interface of operations, and the order that they keep
-- away from NaN. The rounding of the operations is left open.
use Prim.Native.Nat.{ℕ, zero, suc, ◌*◌, ◌/◌}
use mathlib.Core.Path.{◌≡◌, refl}
use mathlib.Core.Bool.{Bool, true, false}
use native.Mathlib.Omega.{arith}
use revenue_degradation_reco.Prelude.Int.{ℤ, pos, negsuc, ◌-ℤ◌, ◌*ℤ◌, ltb_ℤ, leb_ℤ}

pub record Float {ℓ} (W : Type ℓ) : Type ℓ where
  -- the literal with this numerator over this denominator: 0.05 is `lit 5 100`
  pub lit : ℕ → ℕ → W
  pub add : W → W → W
  pub sub : W → W → W
  pub mul : W → W → W
  pub div : W → W → W
  pub abs : W → W
  -- `round(a, k)`
  pub round : W → ℕ → W
  -- `a <= b` and `a < b`
  pub le : W → W → Bool
  pub lt : W → W → Bool

-- NaN is the value that is not `<=` itself. The order is total only away from it.
abbrev pub IsNumber {ℓ} : {W : Type ℓ} ⦃f : Float W⦄ → W → Type 0
IsNumber ⦃f⦄ x = f.le x x ≡ true

pub record IsOrdered {ℓ} (W : Type ℓ) ⦃f : Float W⦄ : Type ℓ where
  pub zero_le_one : f.le (f.lit 0 1) (f.lit 1 1) ≡ true
  pub lit_number : (n d : ℕ) → IsNumber (f.lit n d)
  pub le_trans : (x y z : W) → f.le x y ≡ true → f.le y z ≡ true → f.le x z ≡ true
  pub le_of_lt : (x y : W) → f.lt x y ≡ true → f.le x y ≡ true
  pub le_of_not_lt : (x y : W) → IsNumber x → IsNumber y → f.lt x y ≡ false → f.le y x ≡ true

-- Ten-thousandths, which meet the laws.
abbrev div_ℤ : ℤ → ℤ → ℤ
div_ℤ (pos n) (pos d) = pos (n / d)
div_ℤ (negsuc n) (pos zero) = pos 0
div_ℤ (negsuc n) (pos (suc d)) = negsuc (n / suc d)
div_ℤ a (negsuc n) = pos 0

abbrev magnitude : ℤ → ℤ
magnitude (pos n) = pos n
magnitude (negsuc n) = pos (suc n)

instance abbrev pub fixed_float : Float ℤ
fixed_float = record {
  lit = λ n d. pos (n * 10_000 / d);
  add = λ a b. a -ℤ (pos 0 -ℤ b);
  sub = ◌-ℤ◌;
  mul = λ a b. div_ℤ (a *ℤ b) (pos 10_000);
  div = λ a b. div_ℤ (a *ℤ pos 10_000) b;
  abs = magnitude;
  round = λ a k. a;
  le = leb_ℤ;
  lt = ltb_ℤ;
}

fixed-number : (x : ℤ) → leb_ℤ x x ≡ true
fixed-number x = ground arith

fixed_trans : (x y z : ℤ) → leb_ℤ x y ≡ true → leb_ℤ y z ≡ true → leb_ℤ x z ≡ true
fixed_trans x y z h k = ground arith

fixed-le : (x y : ℤ) → ltb_ℤ x y ≡ true → leb_ℤ x y ≡ true
fixed-le x y h = ground arith

fixed-not_lt : (x y : ℤ) → ltb_ℤ x y ≡ false → leb_ℤ y x ≡ true
fixed-not_lt x y h = ground arith

pub fixed-IsOrdered : IsOrdered ℤ
fixed-IsOrdered = record {
  zero_le_one = refl;
  lit_number = λ n d. fixed-number (pos (n * 10_000 / d));
  le_trans = fixed_trans;
  le_of_lt = fixed-le;
  le_of_not_lt = λ x y p q h. fixed-not_lt x y h;
}

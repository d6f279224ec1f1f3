-- ===== src/Prelude/Decimal.antt =====
-- What the code does with Python's `Decimal`: numbers with a count of decimal places, exact products,
-- and `quantize` with ROUND_HALF_EVEN. The precision of 28 digits is never reached: see Lib.
use Prim.Native.Nat.{ℕ, zero, suc, ◌+◌, ◌-◌, ◌*◌, ◌/◌, ◌%◌, ◌^◌, ◌≤◌}
use mathlib.Core.Bool.{◌&&◌, ◌||◌}
use native.Mathlib.Omega.{arith}
use revenue_degradation_reco.Prelude.Tests.{ltb, leb, ◌==◌, if◌then◌else◌}
use revenue_degradation_reco.Prelude.Int.{ℤ, pos, negsuc, ◌*ℤ◌}

-- n / d, to the nearest, ties to the even quotient.
unfoldable pub round_half_even : ℕ → ℕ → ℕ
round_half_even n d =
    if ltb d (2 * (n % d)) || (2 * (n % d) == d && (n / d) % 2 == 1) then suc (n / d) else n / d

abbrev pub negate : ℕ → ℤ
negate zero = pos 0
negate (suc n) = negsuc n

abbrev pub round_ℤ : ℤ → ℕ → ℤ
round_ℤ (pos n) d = pos (round_half_even n d)
round_ℤ (negsuc n) d = negate (round_half_even (suc n) d)

-- coefficient * 10 ^ -places
pub record Decimal : Type 0 where
  pub coefficient : ℤ
  pub places : ℕ

abbrev pub times : Decimal → Decimal → Decimal
times x y = record { coefficient = x.coefficient *ℤ y.coefficient; places = x.places + y.places }

abbrev pub quantize : ℕ → Decimal → Decimal
quantize k x = record {
  coefficient =
      if leb x.places k
      then x.coefficient *ℤ pos (10 ^ (k - x.places))
      else round_ℤ x.coefficient (10 ^ (x.places - k));
  places = k;
}

-- 0.0001 times a number, and an integer.
abbrev pub ten_thousandths : ℕ → Decimal
ten_thousandths n = record { coefficient = pos n; places = 4 }

abbrev pub of_int : ℤ → Decimal
of_int n = record { coefficient = n; places = 0 }

-- `int(x.quantize(Decimal("1")))`
abbrev pub rounded : Decimal → ℤ
rounded x = (quantize 0 x).coefficient

-- Rounding stays below what bounds the fraction, at the two scales of the code.
pub round_bounded : (n a : ℕ) → n ≤ a * 10_000 → round_half_even n 10_000 ≤ a
unfolding round_half_even
round_bounded n a h = ground arith

pub round_shrinks :
    (m x : ℕ) → x ≤ m * 10_000 → round_half_even x 100_000_000 ≤ round_half_even m 10_000
unfolding round_half_even
round_shrinks m x h = ground arith

-- ===== src/Intervention/Calculator/Utility.antt =====
-- Bounds of the utility of a route (src/core/intervention/calculator.py).
use native.Mathlib.Nat.{mul-le-mul, mul-le-mul_right}
use revenue_degradation_reco.Prelude.{ℕ, ◌≡◌, ◌≤◌, ◌*◌, refl, arith}
use revenue_degradation_reco.Prelude.Int.{ℤ, pos, ◌-ℤ◌, ◌*ℤ◌}
use revenue_degradation_reco.Prelude.Decimal.{Decimal, of_int, round_half_even}
use revenue_degradation_reco.Intervention.Policy.{hundredths}
use revenue_degradation_reco.Intervention.Calculator.{calculate_policy_utility}

-- The number of millionths that `round(probability, 6)` is.
abbrev pub millionths : ℕ → Decimal
millionths n = record { coefficient = pos n; places = 6 }

round_within : (n a : ℕ) → n ≤ a * 100_000_000 → round_half_even n 100_000_000 ≤ a
unfolding round_half_even
round_within n a h = ground arith

gross_within : (a p r : ℕ) → p ≤ 1_000_000 → r ≤ 100 → p * a * r ≤ a * 100_000_000
gross_within a p r hp hr =
    let bounded : p * a * r ≤ 1_000_000 * a * 100 = mul-le-mul (mul-le-mul_right a hp) hr in
    omega arith

utility_of_product :
    (a p r : ℕ) (cost : ℤ)
    → calculate_policy_utility (pos a) (millionths p) (hundredths r) cost ≡ (
      of_int (pos (round_half_even (p * a * r) 100_000_000)),
      of_int (pos (round_half_even (p * a * r) 100_000_000) -ℤ cost),
    )
unfolding calculate_policy_utility ◌*ℤ◌
utility_of_product a p r cost = ground arith

-- For an amount that is not negative, a probability of at most 1, rounded to six places, and a recovery
-- rate in hundredths of at most 1, the expected benefit is a whole number of minor units from 0 to the
-- amount, the product rounded half to even once, and the utility is that benefit less the cost.
pub calculate_policy_utility_bounds :
    (a p r : ℕ) (cost : ℤ)
    → p ≤ 1_000_000
    → r ≤ 100
    → (benefit : ℕ) × (benefit ≤ a)
      × (benefit ≡ round_half_even (p * a * r) 100_000_000)
      × (calculate_policy_utility (pos a) (millionths p) (hundredths r) cost
          ≡ (of_int (pos benefit), of_int (pos benefit -ℤ cost)))
calculate_policy_utility_bounds a p r cost hp hr = (
  round_half_even (p * a * r) 100_000_000,
  round_within (p * a * r) a (gross_within a p r hp hr),
  refl,
  utility_of_product a p r cost,
)

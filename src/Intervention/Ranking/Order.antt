-- ===== src/Intervention/Ranking/Order.antt =====
-- The order of the sort key of score_and_rank_candidates (src/core/intervention/calculator.py) is total
-- and transitive.
use mathlib.Core.Path.{sym, ◌∙◌}
use native.Mathlib.Nat.{mul-le-mul_right, le_of_mul-le-mul_left, one-le-pow}
use revenue_degradation_reco.Prelude.{
  ℕ, ◌+◌, ◌*◌, ◌^◌, ◌≤◌, ◌<◌, ◌≡◌, true, false, inl, inr, leb, arith, Bool-cases,
}
use revenue_degradation_reco.Prelude.Int.{ℤ, pos, ◌*ℤ◌, leb_ℤ, pos_part, neg_part}
use revenue_degradation_reco.Prelude.Decimal.{Decimal}
use revenue_degradation_reco.Intervention.Models.{CandidateRouteScore}
use revenue_degradation_reco.Intervention.Calculator.{at_least}
use revenue_degradation_reco.Intervention.Ranking.{ranks_before}

at_least_total : (x y : Decimal) → at_least x y ≡ false → at_least y x ≡ true
unfolding at_least
at_least_total x y h = ground arith

leb-to : {m n : ℕ} → leb m n ≡ true → m ≤ n
leb-to h = ground arith

leb-from : {m n : ℕ} → m ≤ n → leb m n ≡ true
leb-from h = ground arith

-- Cross products of fractions with positive denominators compose.
cross_trans :
    (xp xn a yp yn b zp zn c : ℕ)
    → 0 < b
    → yp * a + xn * b ≤ xp * b + yn * a
    → zp * b + yn * c ≤ yp * c + zn * b
    → zp * a + xn * c ≤ xp * c + zn * a
cross_trans xp xn a yp yn b zp zn c hb h k =
    let left : (yp * a + xn * b) * c ≤ (xp * b + yn * a) * c = mul-le-mul_right c h in
    let right : (zp * b + yn * c) * a ≤ (yp * c + zn * b) * a = mul-le-mul_right a k in
    let both : b * (zp * a + xn * c) ≤ b * (xp * c + zn * a) = omega arith in
    le_of_mul-le-mul_left both hb

scaled :
    (x y : ℤ) (a b : ℕ)
    → leb_ℤ (y *ℤ pos a) (x *ℤ pos b)
      ≡ leb (pos_part y * a + neg_part x * b) (pos_part x * b + neg_part y * a)
unfolding ◌*ℤ◌
scaled x y a b = ground arith

-- The two sides that `at_least x y` compares.
abbrev Crossed : Decimal → Decimal → Type 0
Crossed x y =
    pos_part y.coefficient * 10 ^ x.places + neg_part x.coefficient * 10 ^ y.places
    ≤ pos_part x.coefficient * 10 ^ y.places + neg_part y.coefficient * 10 ^ x.places

at_least-Crossed : (x y : Decimal) → at_least x y ≡ true → Crossed x y
unfolding at_least
at_least-Crossed x y h =
    let e = scaled x.coefficient y.coefficient (10 ^ x.places) (10 ^ y.places) in leb-to (sym e ∙ h)

Crossed-at_least : (x y : Decimal) → Crossed x y → at_least x y ≡ true
unfolding at_least
Crossed-at_least x y h =
    scaled x.coefficient y.coefficient (10 ^ x.places) (10 ^ y.places) ∙ leb-from h

at_least_trans : (x y z : Decimal) → at_least x y ≡ true → at_least y z ≡ true → at_least x z ≡ true
at_least_trans x y z h k = Crossed-at_least x z (
    cross_trans (pos_part x.coefficient) (neg_part x.coefficient) (10 ^ x.places)
      (pos_part y.coefficient) (neg_part y.coefficient) (10 ^ y.places) (pos_part z.coefficient)
      (neg_part z.coefficient) (10 ^ z.places) (one-le-pow y.places 10 (omega arith))
      (at_least-Crossed x y h) (at_least-Crossed y z k))

pub at_least_refl : (x : Decimal) → at_least x x ≡ true
unfolding at_least
at_least_refl x = ground arith

module _ {W : Type 0} where
  pub ranks_before_total :
      (a b : CandidateRouteScore W) → ranks_before a b ≡ false → ranks_before b a ≡ true
  unfolding ranks_before
  ranks_before_total a b h = elim (Bool-cases (at_least a.policy_utility b.policy_utility)) [
    | inl over ↦ elim (Bool-cases (at_least b.policy_utility a.policy_utility)) [
      | inl under ↦ ground arith
      | inr below ↦ absurd (ground arith)
    ]
    | inr below ↦ let over = at_least_total a.policy_utility b.policy_utility below in ground arith
  ]

  pub ranks_before_trans :
      (a b c : CandidateRouteScore W)
      → ranks_before a b ≡ true
      → ranks_before b c ≡ true
      → ranks_before a c ≡ true
  unfolding ranks_before
  ranks_before_trans a b c h k =
      let ab : at_least a.policy_utility b.policy_utility ≡ true = ground arith in
      let bc : at_least b.policy_utility c.policy_utility ≡ true = ground arith in
      let ac = at_least_trans a.policy_utility b.policy_utility c.policy_utility ab bc in
      elim (Bool-cases (at_least c.policy_utility a.policy_utility)) [
        | inl ca ↦
            let ba = at_least_trans b.policy_utility c.policy_utility a.policy_utility bc ca in
            let cb = at_least_trans c.policy_utility a.policy_utility b.policy_utility ca ab in
            ground arith
        | inr strict ↦ ground arith
      ]

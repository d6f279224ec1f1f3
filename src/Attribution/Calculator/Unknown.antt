-- ===== src/Attribution/Calculator/Unknown.antt =====
-- Attribution without knowledge of the model's provenance (src/core/attribution/calculator.py).
use revenue_degradation_reco.Prelude.{
  ℕ, ◌≡◌, refl, Option, none, some, true, false, arith, Bool-cases, inl, inr, String, ◌⊎◌,
}
use revenue_degradation_reco.Prelude.Int.{ℤ, pos, ◌≤ℤ◌, ◌*ℤ◌, leb_ℤ, ltb_ℤ}
use revenue_degradation_reco.Prelude.Decimal.{
  Decimal, round_half_even, ten_thousandths, times, quantize,
}
use revenue_degradation_reco.Attribution.Models.{attributed, TreatmentStatus, unknown}
use revenue_degradation_reco.Attribution.Calculator.{
  upper_is, calculate_attribution, alpha_confidence, prediction_confidence, diagnosis_weight,
  compute_timing_confidence,
}
use revenue_degradation_reco.Attribution.Calculator.Gates.{calculate_attribution-attributed}

-- The grades of the two kinds of evidence, best first.
diagnosis_grades :
    (d : String)
    → ((upper_is d "STRONG" ≡ true) × (diagnosis_weight (some d) ≡ 10_000))
      ⊎ (((upper_is d "MODERATE" ≡ true) × (diagnosis_weight (some d) ≡ 8_500))
          ⊎ ((diagnosis_weight (some d) ≡ 7_000) ⊎ (diagnosis_weight (some d) ≡ 6_000)))
unfolding diagnosis_weight
diagnosis_grades d = elim (Bool-cases (upper_is d "STRONG")) [
  | inl strong ↦ inl (strong, rw strong refl)
  | inr not_strong ↦ elim (Bool-cases (upper_is d "MODERATE")) [
    | inl moderate ↦ inr (inl (moderate, rw (not_strong, moderate) refl))
    | inr not_moderate ↦ elim (Bool-cases (upper_is d "WEAK")) [
      | inl weak ↦ inr (inr (inl (rw (not_strong, not_moderate, weak) refl)))
      | inr other ↦ inr (inr (inr (rw (not_strong, not_moderate, other) refl)))
    ]
  ]
]

timing_grades :
    (t : ℤ)
    → ((t ≤ℤ pos 60_000_000) × (compute_timing_confidence (some t) ≡ 10_000))
      ⊎ (((t ≤ℤ pos 300_000_000) × (compute_timing_confidence (some t) ≡ 8_500))
          ⊎ (compute_timing_confidence (some t) ≡ 6_000))
unfolding compute_timing_confidence
timing_grades t = elim (Bool-cases (leb_ℤ t (pos 60_000_000))) [
  | inl soon ↦ inl (ground (arith, soon), rw soon refl)
  | inr later ↦ elim (Bool-cases (leb_ℤ t (pos 300_000_000))) [
    | inl near ↦ inr (inl (ground (arith, near), rw (later, near) refl))
    | inr far ↦ inr (inr (rw (later, far) refl))
  ]
]

abbrev weighed : ℕ → ℕ → ℤ
weighed w c =
    (quantize 4 (
      times
        (times (quantize 4 (times (ten_thousandths 3_000) (ten_thousandths 10_000)))
          (ten_thousandths w))
        (ten_thousandths c))).coefficient

alpha_unknown :
    (diagnosis : Option String) (delta : Option ℤ)
    → (alpha_confidence unknown true diagnosis delta).coefficient
      ≡ weighed (diagnosis_weight diagnosis) (compute_timing_confidence delta)
unfolding alpha_confidence prediction_confidence
alpha_unknown diagnosis delta = refl

-- What reaches the floor with a model of unknown provenance.
unknown_floor :
    (diagnosis : Option String) (delta : Option ℤ)
    → ltb_ℤ (weighed (diagnosis_weight diagnosis) (compute_timing_confidence delta)) (pos 2_500)
      ≡ false
    → (d : String) × (t : ℤ) × (diagnosis ≡ some d)
      × (delta ≡ some t)
      × (((upper_is d "STRONG" ≡ true) × t ≤ℤ pos 300_000_000)
          ⊎ ((upper_is d "MODERATE" ≡ true) × t ≤ℤ pos 60_000_000))
unfolding round_half_even ◌*ℤ◌ diagnosis_weight compute_timing_confidence
unknown_floor none none h = absurd (ground arith)
unknown_floor none (some t) h = elim (timing_grades t) [
  | inl (soon, c) ↦ absurd (ground (arith, (rw c at h)))
  | inr (inl (near, c)) ↦ absurd (ground (arith, (rw c at h)))
  | inr (inr c) ↦ absurd (ground (arith, (rw c at h)))
]
unknown_floor (some d) none h = elim (diagnosis_grades d) [
  | inl (strong, w) ↦ absurd (ground (arith, (rw w at h)))
  | inr (inl (moderate, w)) ↦ absurd (ground (arith, (rw w at h)))
  | inr (inr (inl w)) ↦ absurd (ground (arith, (rw w at h)))
  | inr (inr (inr w)) ↦ absurd (ground (arith, (rw w at h)))
]
unknown_floor (some d) (some t) h = elim (diagnosis_grades d) [
  | inl (strong, w) ↦ elim (timing_grades t) [
    | inl (soon, c) ↦ (d, t, refl, refl, inl (strong, ground (arith, soon)))
    | inr (inl (near, c)) ↦ (d, t, refl, refl, inl (strong, near))
    | inr (inr c) ↦ absurd (ground (arith, (rw (w, c) at h)))
  ]
  | inr (inl (moderate, w)) ↦ elim (timing_grades t) [
    | inl (soon, c) ↦ (d, t, refl, refl, inr (moderate, soon))
    | inr (inl (near, c)) ↦ absurd (ground (arith, (rw (w, c) at h)))
    | inr (inr c) ↦ absurd (ground (arith, (rw (w, c) at h)))
  ]
  | inr (inr (inl w)) ↦ elim (timing_grades t) [
    | inl (soon, c) ↦ absurd (ground (arith, (rw (w, c) at h)))
    | inr (inl (near, c)) ↦ absurd (ground (arith, (rw (w, c) at h)))
    | inr (inr c) ↦ absurd (ground (arith, (rw (w, c) at h)))
  ]
  | inr (inr (inr w)) ↦ elim (timing_grades t) [
    | inl (soon, c) ↦ absurd (ground (arith, (rw (w, c) at h)))
    | inr (inl (near, c)) ↦ absurd (ground (arith, (rw (w, c) at h)))
    | inr (inr c) ↦ absurd (ground (arith, (rw (w, c) at h)))
  ]
]

-- With a model of unknown provenance, money is ATTRIBUTED only for a diagnosis that is STRONG and an
-- outcome within five minutes of the execution, or one that is MODERATE and within one minute.
pub unknown_provenance-attributed :
    (amount : ℤ) (p0 : Option Decimal) (treatment : TreatmentStatus)
    (outcome prediction_status : String) (diagnosis : Option String) (delta : Option ℤ)
    → (calculate_attribution amount p0 treatment outcome unknown prediction_status diagnosis
        delta).attribution_status
      ≡ attributed
    → (d : String) × (t : ℤ) × (diagnosis ≡ some d)
      × (delta ≡ some t)
      × (((upper_is d "STRONG" ≡ true) × t ≤ℤ pos 300_000_000)
          ⊎ ((upper_is d "MODERATE" ≡ true) × t ≤ℤ pos 60_000_000))
unknown_provenance-attributed amount p0 treatment outcome prediction_status diagnosis delta h =
    let e =
      (calculate_attribution-attributed amount p0 treatment outcome unknown prediction_status
          diagnosis delta).0
        h in
    unknown_floor diagnosis delta (rw (alpha_unknown diagnosis delta) at e.confident)

-- ===== src/Intervention/Calculator/Decisions.antt =====
-- What determine_verdict (src/core/intervention/calculator.py) decides.
use mathlib.Core.Path.{subst, sym}
use revenue_degradation_reco.Prelude.{
  ◌≡◌, ◌≢◌, ◌↔◌, refl, String, Option, none, some, Bool, true, false, ◌&&◌, inl, inr, arith,
  Bool-cases,
}
use revenue_degradation_reco.Prelude.Float.{Float, IsOrdered}
use revenue_degradation_reco.Intervention.Models.{
  InterventionDecision, act, passed, InterventionRouteKey, CandidateRouteScore,
}
use revenue_degradation_reco.Errors.{ok}
use revenue_degradation_reco.Execution.Service.{executable, is_act}
use revenue_degradation_reco.Intervention.Policy.{InterventionPolicy}
use revenue_degradation_reco.Intervention.Calculator.{
  clamp, calculate_act_confidence, calculate_monitor_confidence, Verdict, monitor_or_ignore,
  probability_of, worth_it, determine_verdict,
}

module _ {W : Type 0} ⦃f : Float W⦄ where
  -- A number of [0, 1].
  abbrev pub IsConfidence : W → Type 0
  IsConfidence x = (f.le (f.lit 0 1) x ≡ true) × (f.le x (f.lit 1 1) ≡ true)

module _ {W : Type 0} ⦃f : Float W⦄ (laws : IsOrdered W) where
  clamp-IsConfidence : (x : W) → IsConfidence (clamp x)
  unfolding clamp
  clamp-IsConfidence x = elim (Bool-cases (f.lt x (f.lit 1 1))) [
    | inl below ↦ elim (Bool-cases (f.lt (f.lit 0 1) x)) [
      | inl above ↦
          rw (below, above) (laws.le_of_lt (f.lit 0 1) x above, laws.le_of_lt x (f.lit 1 1) below)
      | inr not_above ↦ rw (below, not_above) (laws.lit_number 0 1, laws.zero_le_one)
    ]
    | inr not_below ↦ elim (Bool-cases (f.lt (f.lit 0 1) (f.lit 1 1))) [
      | inl above ↦ rw (not_below, above) (laws.zero_le_one, laws.lit_number 1 1)
      | inr not_above ↦ rw (not_below, not_above) (laws.lit_number 0 1, laws.zero_le_one)
    ]
  ]

  act-IsConfidence :
      (p t : W) (evidence : Option String) (alignment : W)
      → IsConfidence (calculate_act_confidence p t evidence alignment)
  unfolding calculate_act_confidence
  act-IsConfidence p t evidence alignment = clamp-IsConfidence _

  monitor-IsConfidence : (p low high : W) → IsConfidence (calculate_monitor_confidence p low high)
  unfolding calculate_monitor_confidence
  monitor-IsConfidence p low high = elim (Bool-cases (f.le (f.sub high low) (f.lit 0 1))) [
    | inl empty ↦ rw (empty) (laws.zero_le_one, laws.lit_number 1 1)
    | inr span ↦ rw (span) (clamp-IsConfidence _)
  ]

-- The decision that the service stores for a verdict, but for the rate limit.
abbrev pub decided : {W : Type 0} → InterventionDecision W → Verdict W → InterventionDecision W
decided decision verdict = record decision {
  decision_type = verdict.decision_type;
  selected_route_id = verdict.selected_route;
  decision_confidence = verdict.confidence;
  gate_verdict = verdict.gate_verdict;
}

abbrev pub key_of : {W : Type 0} → Option (CandidateRouteScore W) → Option InterventionRouteKey
key_of none = none
key_of (some best) = some best.route_key

module _ {W : Type 0} ⦃f : Float W⦄ where
  -- A verdict short of acting does not act.
  pub ignore_rests :
      (p : W) (policy : InterventionPolicy W)
      → is_act (monitor_or_ignore p policy).decision_type ≡ false
  unfolding monitor_or_ignore
  ignore_rests p policy = elim (Bool-cases (f.le policy.monitor_risk_threshold p)) [
    | inl high ↦ rw (high) refl
    | inr low ↦ rw (low) refl
  ]

  -- What there is to see of a verdict that does not act.
  ignore-not_executable :
      (p : W) (policy : InterventionPolicy W) (decision : InterventionDecision W)
      (route : InterventionRouteKey)
      → executable (decided decision (monitor_or_ignore p policy)) ≢ ok route
  unfolding executable monitor_or_ignore
  ignore-not_executable p policy decision route h =
      elim (Bool-cases (f.le policy.monitor_risk_threshold p)) [
        | inl high ↦ absurd (ground (arith, (rw (high) at h)))
        | inr low ↦ absurd (ground (arith, (rw (low) at h)))
      ]

  abbrev pub acts : Option (CandidateRouteScore W) → Option W → InterventionPolicy W → Bool
  acts best p policy = worth_it best policy && f.le policy.act_risk_threshold (probability_of p)

  pub acting_verdict :
      (best : CandidateRouteScore W) (p : Option W) (policy : InterventionPolicy W)
      (evidence : Option String)
      → acts (some best) p policy ≡ true
      → determine_verdict (some best) p policy evidence ≡ record {
        decision_type = act;
        selected_route = some best.route_key;
        confidence =
            calculate_act_confidence
              (probability_of p)
              policy.act_risk_threshold
              evidence
              best.route_alignment_score;
        gate_verdict = passed;
      }
  unfolding determine_verdict
  acting_verdict best p policy evidence h = ground arith

  pub other_verdict :
      (best : Option (CandidateRouteScore W)) (p : Option W) (policy : InterventionPolicy W)
      (evidence : Option String)
      → acts best p policy ≡ false
      → determine_verdict best p policy evidence ≡ monitor_or_ignore (probability_of p) policy
  unfolding determine_verdict
  other_verdict none p policy evidence h = refl
  other_verdict (some best) p policy evidence h = ground arith

  act-executable :
      (key : InterventionRouteKey) (confidence : W) (decision : InterventionDecision W)
      (route : InterventionRouteKey)
      → (executable (
            decided decision (record {
              decision_type = act;
              selected_route = some key;
              confidence = confidence;
              gate_verdict = passed;
            }))
          ≡ ok route)
        ↔ (some key ≡ some route)
  unfolding executable
  act-executable key confidence decision route = ((λ e. ground arith), (λ e. ground arith))

  acts-executable :
      (best : Option (CandidateRouteScore W)) (p : Option W) (policy : InterventionPolicy W)
      (evidence : Option String) (decision : InterventionDecision W) (route : InterventionRouteKey)
      → acts best p policy ≡ true
      → (executable (decided decision (determine_verdict best p policy evidence)) ≡ ok route)
        ↔ (key_of best ≡ some route)
  acts-executable none p policy evidence decision route h = absurd (ground arith)
  acts-executable (some best) p policy evidence decision route h =
      subst (λ v. (executable (decided decision v) ≡ ok route) ↔ (some best.route_key ≡ some route))
        (sym (acting_verdict best p policy evidence h))
        (act-executable best.route_key _ decision route)

  -- Stage 7 makes a command of the verdict just when the best candidate has the utility that the policy
  -- asks for and the failure probability reaches the ACT threshold, and then for the route of that
  -- candidate.
  pub determine_verdict-executable :
      (best : Option (CandidateRouteScore W)) (p : Option W) (policy : InterventionPolicy W)
      (evidence : Option String) (decision : InterventionDecision W) (route : InterventionRouteKey)
      → (executable (decided decision (determine_verdict best p policy evidence)) ≡ ok route)
        ↔ ((acts best p policy ≡ true) × (key_of best ≡ some route))
  determine_verdict-executable best p policy evidence decision route =
      elim (Bool-cases (acts best p policy)) [
        | inl h ↦
            let same = acts-executable best p policy evidence decision route h in
            ((λ e. (h, same.0 e)), (λ (_, e). same.1 e))
        | inr h ↦
            let ignored = ignore-not_executable (probability_of p) policy decision route in
            (
              (λ e. absurd (
                  ignored (
                    subst (λ v. executable (decided decision v) ≡ ok route)
                      (other_verdict best p policy evidence h) e))),
              (λ (acting, e). absurd (ground arith)),
            )
      ]

module _ {W : Type 0} ⦃f : Float W⦄ (laws : IsOrdered W) where
  other-IsConfidence :
      (p : W) (policy : InterventionPolicy W) → IsConfidence (monitor_or_ignore p policy).confidence
  unfolding monitor_or_ignore
  other-IsConfidence p policy = elim (Bool-cases (f.le policy.monitor_risk_threshold p)) [
    | inl high ↦
        rw (high)
          (monitor-IsConfidence laws p policy.monitor_risk_threshold policy.act_risk_threshold)
    | inr low ↦ rw (low) (clamp-IsConfidence laws _)
  ]

  -- With the order of floats, a verdict's confidence lies between 0 and 1, whatever the probability, the
  -- thresholds and the alignment are, NaN included.
  pub determine_verdict-IsConfidence :
      (best : Option (CandidateRouteScore W)) (p : Option W) (policy : InterventionPolicy W)
      (evidence : Option String)
      → IsConfidence (determine_verdict best p policy evidence).confidence
  determine_verdict-IsConfidence none p policy evidence =
      rw (other_verdict none p policy evidence refl) (other-IsConfidence (probability_of p) policy)
  determine_verdict-IsConfidence (some best) p policy evidence =
      elim (Bool-cases (acts (some best) p policy)) [
        | inl h ↦ rw (acting_verdict best p policy evidence h) (
            act-IsConfidence laws (probability_of p) policy.act_risk_threshold evidence
              best.route_alignment_score)
        | inr h ↦
            rw (other_verdict (some best) p policy evidence h)
              (other-IsConfidence (probability_of p) policy)
      ]

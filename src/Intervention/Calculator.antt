-- ===== src/Intervention/Calculator.antt =====
-- src/core/intervention/calculator.py: the utility of a route, the confidence in a decision, and the
-- verdict.
pub mod Decisions
pub mod Utility
use Prim.Native.Char.{code}
use revenue_degradation_reco.Prelude.{
  not, ◌||◌, ◌==◌, ℕ, ◌≡◌, String, Option, none, some, List, [], ◌∷◌, Bool, true, false, ◌&&◌, ◌||◌,
  ◌^◌, if◌then◌else◌,
}
use revenue_degradation_reco.Prelude.Int.{ℤ, pos, ◌-ℤ◌, ◌*ℤ◌, leb_ℤ}
use revenue_degradation_reco.Prelude.Texts.{is_empty}
use revenue_degradation_reco.Prelude.Decimal.{Decimal, times, of_int, rounded}
use revenue_degradation_reco.Prelude.Float.{Float}
use revenue_degradation_reco.Attribution.Calculator.{upper_is, upper_code}
use revenue_degradation_reco.Intervention.Models.{
  DecisionType, no_action, monitor, act, GateVerdict, passed, InterventionRouteKey,
  CandidateRouteScore,
}
use revenue_degradation_reco.Intervention.Policy.{
  RoutePolicyDefinition, InterventionPolicy, targets,
}
use revenue_degradation_reco.Intervention.Gates.{present}

-- `x >= y` of two decimals.
unfoldable pub at_least : Decimal → Decimal → Bool
at_least x y = leb_ℤ (y.coefficient *ℤ pos (10 ^ x.places)) (x.coefficient *ℤ pos (10 ^ y.places))

-- The probability is given as the decimal of the rounded float.
unfoldable pub calculate_policy_utility : ℤ → Decimal → Decimal → ℤ → Decimal × Decimal
calculate_policy_utility amount probability recovery_rate cost =
    let expected_benefit = rounded (times (times probability (of_int amount)) recovery_rate) in
    (of_int expected_benefit, of_int (expected_benefit -ℤ cost))

-- `s.lower() == t.lower()`, for ASCII texts.
abbrev pub same_ignoring_case : String → String → Bool
same_ignoring_case String.[] String.[] = true
same_ignoring_case String.[] (String.◌∷◌ d t) = false
same_ignoring_case (String.◌∷◌ c s) String.[] = false
same_ignoring_case (String.◌∷◌ c s) (String.◌∷◌ d t) =
    upper_code (code c) == upper_code (code d) && same_ignoring_case s t

-- `x and x.lower() == value.lower()`
abbrev pub names : Option String → String → Bool
names none value = false
names (some x) value = not (is_empty x) && same_ignoring_case x value

-- Whether the diagnosed cause is one that the route targets and the payment has.
unfoldable pub matches_diagnosis :
    RoutePolicyDefinition → Option String → Option String → Option String → Option String → Bool
matches_diagnosis route none value payment_method bank = false
matches_diagnosis route (some dimension) none payment_method bank = false
matches_diagnosis route (some dimension) (some value) payment_method bank =
    not (is_empty dimension)
    && not (is_empty value)
    && ((upper_is dimension "BANK" && targets "BANK" route.target_dimensions && names bank value)
        || (upper_is dimension "PAYMENT_METHOD"
            && targets "PAYMENT_METHOD" route.target_dimensions
            && names payment_method value))

-- The tuple that determine_verdict returns.
pub record Verdict (W : Type 0) : Type 0 where
  pub decision_type : DecisionType
  pub selected_route : Option InterventionRouteKey
  pub confidence : W
  pub gate_verdict : GateVerdict

module _ {W : Type 0} ⦃f : Float W⦄ where
  -- `max(0.0, min(1.0, x))`
  unfoldable pub clamp : W → W
  clamp x =
      let capped = if f.lt x (f.lit 1 1) then x else f.lit 1 1 in
      if f.lt (f.lit 0 1) capped then capped else f.lit 0 1

  -- The wallet is not read.
  unfoldable pub calculate_route_alignment :
      RoutePolicyDefinition → Option String → Option String → Option String → Option String → W
  calculate_route_alignment route candidate_dimension candidate_value payment_method bank =
      if matches_diagnosis route candidate_dimension candidate_value payment_method bank
      then f.lit 1 1
      else if present payment_method && targets "PAYMENT_METHOD" route.target_dimensions
      then f.lit 80 100
      else if present bank && targets "BANK" route.target_dimensions
      then f.lit 75 100
      else if targets "GLOBAL" route.target_dimensions
      then f.lit 70 100
      else f.lit 50 100

  abbrev pub rca_weight : Option String → W
  rca_weight none = f.lit 50 100
  rca_weight (some evidence) =
      if is_empty evidence
      then f.lit 50 100
      else if upper_is evidence "STRONG"
      then f.lit 1 1
      else if upper_is evidence "MODERATE"
      then f.lit 75 100
      else if upper_is evidence "WEAK"
      then f.lit 40 100
      else f.lit 50 100

  unfoldable pub calculate_act_confidence : W → W → Option String → W → W
  unfolding clamp
  calculate_act_confidence probability threshold evidence alignment =
      let c_pred =
        if f.lt threshold (f.lit 1 1)
        then f.add (f.lit 5 10) (
            f.mul (f.lit 5 10)
              (clamp (f.div (f.sub probability threshold) (f.sub (f.lit 1 1) threshold))))
        else f.lit 1 1 in
      let confidence =
        f.add (f.add (f.mul (f.lit 40 100) c_pred) (f.mul (f.lit 35 100) (rca_weight evidence)))
          (f.mul (f.lit 25 100) (clamp alignment)) in
      clamp (f.round confidence 4)

  unfoldable pub calculate_monitor_confidence : W → W → W → W
  unfolding clamp
  calculate_monitor_confidence probability low high =
      let span = f.sub high low in
      if f.le span (f.lit 0 1)
      then f.lit 1 1
      else let half = f.div span (f.lit 2 1) in
        let distance = f.abs (f.sub probability (f.add low half)) in
        let ratio = if f.lt (f.lit 0 1) half then f.div distance half else f.lit 0 1 in
        let capped = if f.lt ratio (f.lit 1 1) then ratio else f.lit 1 1 in
        clamp (f.round (f.sub (f.lit 1 1) (f.mul (f.lit 30 100) capped)) 4)

  abbrev pub no_action_confidence : W → W
  no_action_confidence probability = clamp (f.round (f.sub (f.lit 1 1) probability) 4)

  -- Below the thresholds of a route, and where there is no route worth its cost.
  unfoldable pub monitor_or_ignore : W → InterventionPolicy W → Verdict W
  unfolding clamp
  monitor_or_ignore probability policy =
      if f.le policy.monitor_risk_threshold probability
      then record {
        decision_type = monitor;
        selected_route = none;
        confidence =
            calculate_monitor_confidence probability policy.monitor_risk_threshold
              policy.act_risk_threshold;
        gate_verdict = passed;
      }
      else record {
        decision_type = no_action;
        selected_route = none;
        confidence = no_action_confidence probability;
        gate_verdict = passed;
      }

  abbrev pub probability_of : Option W → W
  probability_of none = f.lit 0 1
  probability_of (some p) = p

  abbrev pub worth_it : Option (CandidateRouteScore W) → InterventionPolicy W → Bool
  worth_it none policy = false
  worth_it (some best) policy = at_least best.policy_utility policy.min_policy_utility_threshold

  unfoldable pub determine_verdict :
      Option (CandidateRouteScore W) → Option W → InterventionPolicy W → Option String → Verdict W
  determine_verdict none failure_probability policy evidence =
      monitor_or_ignore (probability_of failure_probability) policy
  determine_verdict (some best) failure_probability policy evidence =
      let probability = probability_of failure_probability in
      if worth_it (some best) policy
      then (if f.le policy.act_risk_threshold probability
          then record {
            decision_type = act;
            selected_route = some best.route_key;
            confidence =
                calculate_act_confidence probability policy.act_risk_threshold evidence
                  best.route_alignment_score;
            gate_verdict = passed;
          }
          else monitor_or_ignore probability policy)
      else monitor_or_ignore probability policy

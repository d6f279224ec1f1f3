-- ===== src/Intervention/Service.antt =====
-- src/core/intervention/service.py, from the idempotency check to the stored decision. The audit payload
-- is left out.
pub mod Reads
pub mod Vetting
pub mod Steps
pub mod Served
pub mod Twice
pub mod Settled
mod Examples
use revenue_degradation_reco.Prelude.{
  ℕ, suc, ◌+◌, ◌-◌, ◌*◌, String, Option, none, some, List, [], ◌∷◌, Bool, true, false, not, ◌&&◌,
  ◌=s=◌, leb, if◌then◌else◌, select,
}
use revenue_degradation_reco.Prelude.Int.{ℤ, pos}
use revenue_degradation_reco.Prelude.Decimal.{Decimal, of_int}
use revenue_degradation_reco.Prelude.Float.{Float}
use revenue_degradation_reco.Action.{Action, pure, ◌>>=◌}
use revenue_degradation_reco.Store.{FailurePrediction, Database}
use revenue_degradation_reco.Attempts.Identity.{AttemptRef}
use revenue_degradation_reco.Intervention.Models.{
  DecisionType, no_action, monitor, act, GateVerdict, passed, failed_no_eligible_routes,
  failed_global_rate_limit, InterventionRouteKey, CandidateRouteScore, InterventionDecision,
}
use revenue_degradation_reco.Intervention.Policy.{RoutePolicyDefinition, InterventionPolicy}
use revenue_degradation_reco.Intervention.Gates.{
  evaluate_policy_cost_currency, evaluate_route_eligibility,
}
use revenue_degradation_reco.Intervention.Calculator.{
  calculate_policy_utility, calculate_route_alignment, probability_of, Verdict, determine_verdict,
}
use revenue_degradation_reco.Intervention.Ranking.{best_candidate}
use revenue_degradation_reco.Intervention.Repository.{
  get_max_decision_version, get_latest_decision, count_recent_act_decisions,
  has_recent_route_decision, append_decision,
}
use revenue_degradation_reco.Intervention.Context.{
  DecisionNames, Context, prediction_id_of, probability_in, rca_context, fingerprint_inputs,
  hard_gates, gather,
}
use revenue_degradation_reco.Execution.Service.{is_act, is_passed}

module _ {W : Type 0} ⦃f : Float W⦄ (names : DecisionNames W) (policy : InterventionPolicy W)
    (now : ℕ) (attempt : AttemptRef) (t_decide : ℕ) where
  -- What a decision says beside its version: the type, the route, the confidence and the gate.
  abbrev pub new_decision : Context W → Verdict W → ℕ → InterventionDecision W
  new_decision c v version = record {
    decision_id = names.make_decision_id attempt.payment_attempt_id version;
    payment_attempt_id = attempt.payment_attempt_id;
    source_system = attempt.source_system;
    decision_version = version;
    decided_at = t_decide;
    decision_type = v.decision_type;
    selected_route_id = v.selected_route;
    failure_probability = probability_in c.stage5_pred;
    stage5_prediction_id = prediction_id_of c.stage5_pred;
    diagnosis_confidence = c.diagnosis.rca_evidence_strength;
    decision_confidence = v.confidence;
    gate_verdict = v.gate_verdict;
    policy_id = policy.policy_id;
    policy_version = policy.policy_version;
    input_fingerprint =
        names.compute_decision_fingerprint (fingerprint_inputs policy attempt t_decide c);
    created_at = now;
  }

  -- Step 8, and `_persist_no_action`.
  unfoldable pub persist : Context W → Verdict W → Action (Database W) (InterventionDecision W)
  persist c v = do
    max_version ← get_max_decision_version attempt.payment_attempt_id (some attempt.source_system)
    appended ← append_decision (new_decision c v (max_version + 1))
    pure (new_decision c v (max_version + 1))

  abbrev pub no_action_by : GateVerdict → Verdict W
  no_action_by verdict = record {
    decision_type = no_action;
    selected_route = none;
    confidence = f.lit 1 1;
    gate_verdict = verdict;
  }

  abbrev pub ineligible : RoutePolicyDefinition → CandidateRouteScore W
  ineligible route = record {
    route_key = route.route_key;
    is_eligible = false;
    expected_recovery_benefit = of_int (pos 0);
    policy_cost_minor_units = route.policy_cost_minor_units;
    policy_utility = of_int (pos 0);
    route_alignment_score = f.lit 0 1;
    rank = 0;
  }

  unfoldable pub scored : Context W → RoutePolicyDefinition → CandidateRouteScore W
  scored c route =
      let (benefit, utility) =
        calculate_policy_utility c.amount_minor_units
          (names.rounded_decimal (probability_of (probability_in c.stage5_pred)))
          route.policy_recovery_rate (pos route.policy_cost_minor_units) in
      record {
        route_key = route.route_key;
        is_eligible = true;
        expected_recovery_benefit = benefit;
        policy_cost_minor_units = route.policy_cost_minor_units;
        policy_utility = utility;
        route_alignment_score =
            calculate_route_alignment route c.diagnosis.rca_candidate_dim
              c.diagnosis.rca_candidate_val c.payment_method c.bank;
        rank = 0;
      }

  -- Step 6, for one route of the policy.
  unfoldable pub score_route :
      Context W → RoutePolicyDefinition → Action (Database W) (CandidateRouteScore W)
  score_route c route =
      if not (is_passed (evaluate_policy_cost_currency policy c.currency))
      then pure (ineligible route)
      else (do
        is_on_cooldown ←
            has_recent_route_decision attempt.payment_attempt_id route.route_key
              (t_decide - route.cooldown_seconds * 1_000_000) (some attempt.source_system)
        pure (
            if evaluate_route_eligibility route (rca_context c) is_on_cooldown
            then scored c route
            else ineligible route))

  unfoldable pub score_routes :
      Context W → List RoutePolicyDefinition → Action (Database W) (List (CandidateRouteScore W))
  score_routes c [] = pure []
  score_routes c (route ∷ routes) =
      let rest = score_routes c routes in
      score_route c route >>= λ score. rest >>= λ scores. pure (score ∷ scores)

  abbrev pub recent_since : ℕ
  recent_since = t_decide - 60 * 1_000_000

  -- Step 7.
  unfoldable pub admit : Verdict W → Action (Database W) (Verdict W)
  admit v =
      if is_act v.decision_type
      then (do
        recent_act_count ← count_recent_act_decisions recent_since
        pure (
            if leb policy.global_rate_limit_per_minute recent_act_count
            then no_action_by failed_global_rate_limit
            else v))
      else pure v

  abbrev pub no_route_verdict : Context W → GateVerdict
  no_route_verdict c =
      let g6 = evaluate_policy_cost_currency policy c.currency in
      if is_passed g6 then failed_no_eligible_routes else g6

  abbrev pub is_none {ℓ} : {A : Type ℓ} → Option A → Bool
  is_none none = true
  is_none (some a) = false

  -- Steps 6 to 8.
  unfoldable pub choose :
      Context W → Option (CandidateRouteScore W) → Action (Database W) (InterventionDecision W)
  choose c best =
      let p = probability_of (probability_in c.stage5_pred) in
      if is_none best && f.le policy.act_risk_threshold p
      then persist c (no_action_by (no_route_verdict c))
      else (do
        v ← admit (determine_verdict best (some p) policy c.diagnosis.rca_evidence_strength)
        persist c v)

  -- Steps 5 to 8.
  unfoldable pub decide_new : Context W → Action (Database W) (InterventionDecision W)
  decide_new c =
      if not (is_passed (hard_gates policy c))
      then persist c (no_action_by (hard_gates policy c))
      else (do
        candidate_scores ← score_routes c policy.routes
        choose c (best_candidate candidate_scores))

  abbrev pub unchanged : Context W → Option (InterventionDecision W) → Bool
  unchanged c none = false
  unchanged c (some d) =
      d.input_fingerprint
      =s= names.compute_decision_fingerprint (fingerprint_inputs policy attempt t_decide c)

  -- Steps 3 and 4: with no other worker between them the second look is the first again.
  unfoldable pub unless_unchanged :
      Context W → Option (InterventionDecision W) → Action (Database W) (InterventionDecision W)
  unless_unchanged c none = decide_new c
  unless_unchanged c (some d) = if unchanged c (some d) then pure d else decide_new c

  unfoldable pub decide : Action (Database W) (InterventionDecision W)
  decide = do
    c ← gather attempt t_decide
    latest ← get_latest_decision attempt.payment_attempt_id (some attempt.source_system)
    unless_unchanged c latest

-- ===== src/Intervention/Gates.antt =====
-- src/core/intervention/gates.py: the hard gates, and which routes are eligible. The details of a
-- result and the wording of a reason are left out.
pub mod Eligibility
use revenue_degradation_reco.Prelude.{
  ℕ, String, Option, none, some, List, [], ◌∷◌, Bool, true, false, not, ◌&&◌, ◌||◌, ◌==◌, ◌=s=◌,
  if◌then◌else◌,
}
use revenue_degradation_reco.Prelude.Int.{ℤ, pos, leb_ℤ}
use revenue_degradation_reco.Prelude.Texts.{is_empty}
use revenue_degradation_reco.Rca.Models.{RcaFlags}
use revenue_degradation_reco.Store.{FailurePrediction}
use revenue_degradation_reco.Attribution.Calculator.{upper_is}
use revenue_degradation_reco.Intervention.Models.{
  GateVerdict, passed, failed_kill_switch, failed_invalid_amount, failed_unsupported_cost_currency,
  failed_terminal_outcome_ingested, failed_stage5_unavailable, failed_stage5_ineligible,
  failed_episode_invalidated, failed_unreliable_diagnosis,
}
use revenue_degradation_reco.Intervention.Policy.{
  RoutePolicyDefinition, InterventionPolicy, targets,
}
use revenue_degradation_reco.Execution.Repository.{text_length}

-- A verdict says by itself whether the gate was passed.
module _ {W : Type 0} where
  unfoldable pub evaluate_kill_switch : InterventionPolicy W → GateVerdict
  evaluate_kill_switch policy = if policy.kill_switch_enabled then failed_kill_switch else passed

  unfoldable pub evaluate_policy_cost_currency : InterventionPolicy W → String → GateVerdict
  evaluate_policy_cost_currency policy currency =
      if not (currency =s= policy.cost_currency) then failed_unsupported_cost_currency else passed

  unfoldable pub evaluate_stage5_prediction_validity : Option (FailurePrediction W) → GateVerdict
  evaluate_stage5_prediction_validity none = failed_stage5_unavailable
  evaluate_stage5_prediction_validity (some prediction) =
      if not (prediction.prediction_status =s= "PREDICTED")
      then failed_stage5_ineligible
      else elim prediction.failure_probability [ none ↦ failed_stage5_ineligible | some p ↦ passed ]

unfoldable pub evaluate_amount_and_currency : ℤ → String → GateVerdict
evaluate_amount_and_currency amount currency =
    if leb_ℤ amount (pos 0)
    then failed_invalid_amount
    else if is_empty currency || not (text_length currency == 3)
    then failed_invalid_amount
    else passed

unfoldable pub evaluate_pre_terminal_invariance : Bool → GateVerdict
evaluate_pre_terminal_invariance terminal_event_exists =
    if terminal_event_exists then failed_terminal_outcome_ingested else passed

abbrev pub is_text : Option String → String → Bool
is_text none t = false
is_text (some s) t = s =s= t

unfoldable pub evaluate_episode_and_traffic_shift : Option String → Option RcaFlags → GateVerdict
evaluate_episode_and_traffic_shift episode_status none =
    if is_text episode_status "INVALIDATED" then failed_episode_invalidated else passed
evaluate_episode_and_traffic_shift episode_status (some flags) =
    if is_text episode_status "INVALIDATED"
    then failed_episode_invalidated
    else if flags.traffic_mix_shift || flags.unreliable_diagnosis
    then failed_unreliable_diagnosis
    else passed

-- A text that is there and not empty.
abbrev pub present : Option String → Bool
present none = false
present (some s) = not (is_empty s)

-- `x and x not in route.target_dimensions`
abbrev pub off_target : Option String → List String → Bool
off_target none dimensions = false
off_target (some d) dimensions = not (is_empty d) && not (targets d dimensions)

abbrev pub is_strong : Option String → Bool
is_strong none = false
is_strong (some e) = upper_is e "STRONG" || upper_is e "MODERATE"

pub record RcaContext : Type 0 where
  pub rca_classification : Option String
  pub rca_evidence_strength : Option String
  pub rca_candidate_dimension : Option String
  pub rca_candidate_matches_payment_segment : Bool
  pub payment_method : Option String
  pub bank : Option String

-- Whether the route fits the diagnosis, or the payment where it needs none.
unfoldable pub is_applicable : RoutePolicyDefinition → RcaContext → Bool
is_applicable route context =
    if route.requires_diagnosis
    then (if is_text context.rca_classification "SEGMENT_SPECIFIC"
        then (if not context.rca_candidate_matches_payment_segment
            then false
            else not (off_target context.rca_candidate_dimension route.target_dimensions))
        else if is_text context.rca_classification "SYSTEMIC"
        then targets "GLOBAL" route.target_dimensions
        else false)
    else if targets "GLOBAL" route.target_dimensions
    then true
    else if targets "BANK" route.target_dimensions && present context.bank
    then true
    else targets "PAYMENT_METHOD" route.target_dimensions && present context.payment_method

-- The first component of the pair; the reasons are left out.
unfoldable pub evaluate_route_eligibility : RoutePolicyDefinition → RcaContext → Bool → Bool
unfolding is_applicable
evaluate_route_eligibility route context is_on_cooldown =
    if not route.enabled
    then false
    else if is_on_cooldown
    then false
    else if route.requires_diagnosis && is_text context.rca_classification "UNKNOWN"
    then false
    else if route.requires_strong_rca && not (is_strong context.rca_evidence_strength)
    then false
    else is_applicable route context

-- ===== src/Intervention/Models.antt =====
-- src/core/domain/intervention_models.py: the data of Stage 6. W is the type of Python's floats. The
-- audit payload of a decision is left out.
use revenue_degradation_reco.Prelude.{ℕ, String, Option, Bool}
use revenue_degradation_reco.Prelude.Decimal.{Decimal}

pub data DecisionType : Type 0 where
  no_action monitor act : DecisionType

pub data GateVerdict : Type 0 where
  passed failed_kill_switch failed_stage5_unavailable failed_stage5_ineligible : GateVerdict
  failed_terminal_outcome_ingested failed_episode_invalidated : GateVerdict
  failed_unreliable_diagnosis failed_global_rate_limit failed_route_cooldown : GateVerdict
  failed_invalid_amount failed_no_eligible_routes failed_unsupported_cost_currency : GateVerdict

pub data InterventionRouteKey : Type 0 where
  retry_secondary_gateway prompt_payment_method_switch dynamic_retry_backoff : InterventionRouteKey
  degradation_circuit_bypass fallback_payment_link : InterventionRouteKey

-- The wording of the reason is left out.
pub record CandidateRouteScore (W : Type 0) : Type 0 where
  pub route_key : InterventionRouteKey
  pub is_eligible : Bool
  pub expected_recovery_benefit : Decimal
  pub policy_cost_minor_units : ℕ
  pub policy_utility : Decimal
  pub route_alignment_score : W
  pub rank : ℕ

pub record InterventionDecision (W : Type 0) : Type 0 where
  pub decision_id : ℕ
  pub payment_attempt_id : String
  pub source_system : String
  pub decision_version : ℕ
  pub decided_at : ℕ
  pub decision_type : DecisionType
  pub selected_route_id : Option InterventionRouteKey
  pub failure_probability : Option W
  pub stage5_prediction_id : Option ℕ
  pub diagnosis_confidence : Option String
  pub decision_confidence : W
  pub gate_verdict : GateVerdict
  pub policy_id : String
  pub policy_version : String
  pub input_fingerprint : String
  pub created_at : ℕ

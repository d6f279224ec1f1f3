-- ===== src/Execution/Models.antt =====
-- src/core/domain/execution_models.py and executor.py: the data of Stage 7. An instant is a number of
-- microseconds, a UUID a number, a JSON payload its text.
use revenue_degradation_reco.Prelude.{ℕ, String, Option, Bool, List}
use revenue_degradation_reco.Intervention.Models.{InterventionRouteKey}

pub data CommandStatus : Type 0 where
  pending executing succeeded failed expired not_needed : CommandStatus

pub data ExecutionResultStatus : Type 0 where
  success failure timeout : ExecutionResultStatus

pub data PaymentOutcome : Type 0 where
  captured payment_failed unknown_in_flight : PaymentOutcome

pub record InterventionCommand : Type 0 where
  pub command_id : ℕ
  pub decision_id : ℕ
  pub payment_attempt_id : String
  pub source_system : String
  pub decision_version : ℕ
  pub route_key : InterventionRouteKey
  pub policy_id : String
  pub policy_version : String
  pub command_status : CommandStatus
  pub status_reason : Option String
  pub idempotency_key : String
  pub created_at : ℕ
  pub expires_at : ℕ
  pub updated_at : ℕ

pub record ExecutionAttempt : Type 0 where
  pub attempt_id : ℕ
  pub command_id : ℕ
  pub source_system : String
  pub attempt_number : ℕ
  pub started_at : ℕ
  pub completed_at : ℕ
  pub duration_ms : ℕ
  pub execution_status : ExecutionResultStatus
  pub executor_name : String
  pub is_simulation : Bool
  pub provider_action_type : String
  pub provider_response_code : Option String
  pub provider_response_payload : String
  pub error_message : Option String
  pub created_at : ℕ

-- The entries of the audit payload that say what was seen.
pub record ObservationAudit : Type 0 where
  pub terminal_event_count : ℕ
  pub conflict_detected : Bool
  pub conflicting_events : List ℕ

pub record PaymentOutcomeObservation : Type 0 where
  pub observation_id : ℕ
  pub command_id : ℕ
  pub payment_attempt_id : String
  pub source_system : String
  pub observation_version : ℕ
  pub observed_at : ℕ
  pub as_of_timestamp : ℕ
  pub payment_outcome : PaymentOutcome
  pub terminal_event_id : Option ℕ
  pub terminal_event_type : Option String
  pub terminal_event_timestamp : Option ℕ
  pub time_to_outcome_ms : Option ℕ
  pub observation_audit_payload : ObservationAudit
  pub created_at : ℕ

-- executor.py
pub record ExecutionResult : Type 0 where
  pub status : ExecutionResultStatus
  pub executor_name : String
  pub is_simulation : Bool
  pub provider_action_type : String
  pub provider_response_code : Option String
  pub provider_response_payload : String
  pub error_message : Option String
  pub duration_ms : ℕ

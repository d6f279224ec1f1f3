-- ===== src/Store.antt =====
-- The tables of Stages 1 to 8 (src/infrastructure/models.py), as lists of rows in insertion order. The
-- constraints are tested where a row is inserted.
use revenue_degradation_reco.Prelude.{ℕ, String, List, Option, Bool}
use revenue_degradation_reco.Events.{PaymentEvent}
use revenue_degradation_reco.Degradation.Models.{
  PaymentHealthSnapshot, DegradationSignal, DegradationEpisode, EpisodeStateHistory,
}
use revenue_degradation_reco.Rca.Models.{RootCauseAnalysisEvaluation, CandidateCause}
use revenue_degradation_reco.Intervention.Models.{InterventionDecision}
use revenue_degradation_reco.Execution.Models.{
  InterventionCommand, ExecutionAttempt, PaymentOutcomeObservation,
}
use revenue_degradation_reco.Attribution.Models.{CounterfactualAttribution}

-- A row of payment_attempts.
pub record RegistryRow : Type 0 where
  pub payment_attempt_id : String
  pub source_system : String
  pub provider_reference : String
  pub trigger_event_id : ℕ
  pub registered_at : ℕ

-- A row of failure_predictions, as far as Stages 6 and 8 read it: the last field is that entry of the
-- feature snapshot.
pub record FailurePrediction (W : Type 0) : Type 0 where
  pub prediction_id : ℕ
  pub payment_attempt_id : String
  pub source_system : String
  pub failure_probability : Option W
  pub prediction_status : String
  pub model_name : String
  pub model_version : String
  pub prediction_version : ℕ
  pub predicted_at : ℕ
  pub rca_candidate_matches_payment_segment : Option Bool

pub record Database (W : Type 0) : Type 0 where
  pub payment_events : List PaymentEvent
  pub payment_health_snapshots : List (PaymentHealthSnapshot W)
  pub degradation_signals : List (DegradationSignal W)
  pub degradation_episodes : List (DegradationEpisode W)
  pub episode_state_history : List EpisodeStateHistory
  pub rca_evaluations : List RootCauseAnalysisEvaluation
  pub rca_candidate_causes : List (CandidateCause W)
  pub payment_attempts : List RegistryRow
  pub intervention_decisions : List (InterventionDecision W)
  pub intervention_commands : List InterventionCommand
  pub intervention_execution_attempts : List ExecutionAttempt
  pub payment_outcome_observations : List PaymentOutcomeObservation
  pub failure_predictions : List (FailurePrediction W)
  pub counterfactual_attributions : List CounterfactualAttribution

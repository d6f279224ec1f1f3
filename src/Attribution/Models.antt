-- ===== src/Attribution/Models.antt =====
-- src/core/domain/attribution_models.py: the data of Stage 8. The audit payload is left out.
use revenue_degradation_reco.Prelude.{ℕ, String, Option, Bool}
use revenue_degradation_reco.Prelude.Int.{ℤ}
use revenue_degradation_reco.Prelude.Decimal.{Decimal}

pub data AttributionStatus : Type 0 where
  attributed unattributed_payment_failed unattributed_execution_failed : AttributionStatus
  unattributed_untreated unresolved_in_flight : AttributionStatus
  indeterminate_insufficient_evidence : AttributionStatus

pub data TreatmentStatus : Type 0 where
  treated execution_failed untreated : TreatmentStatus

pub data ModelProvenance : Type 0 where
  empirical_production synthetic_development unknown : ModelProvenance

pub record CounterfactualAttribution : Type 0 where
  pub attribution_id : ℕ
  pub command_id : ℕ
  pub payment_attempt_id : String
  pub source_system : String
  pub decision_id : ℕ
  pub attribution_version : ℕ
  pub attributed_at : ℕ
  pub as_of_timestamp : ℕ
  pub attribution_status : AttributionStatus
  pub methodology_name : String
  pub methodology_version : String
  pub treatment_status : TreatmentStatus
  pub observed_payment_outcome : String
  pub payment_amount_minor_units : ℤ
  pub counterfactual_failure_probability : Option Decimal
  pub counterfactual_loss_exposure_minor_units : ℤ
  pub counterfactual_natural_success_gmv_minor_units : ℤ
  pub attributed_protected_gmv_minor_units : ℤ
  pub attribution_confidence : Decimal
  pub is_synthetic_baseline : Bool
  pub is_simulated_execution : Bool
  pub created_at : ℕ

-- ===== src/Rca/Models.antt =====
-- src/core/domain/rca_models.py: the data of Stage 4. W is the type of Python's floats.
use revenue_degradation_reco.Prelude.{ℕ, String, Bool}

abbrev pub historical_weeks_back : ℕ
historical_weeks_back = 4

abbrev pub min_valid_historical_windows : ℕ
min_valid_historical_windows = 2

abbrev pub min_baseline_volume : ℕ
min_baseline_volume = 50

abbrev pub min_failures_for_rca_evaluation : ℕ
min_failures_for_rca_evaluation = 10

abbrev pub strong_failure_count_multiplier : ℕ
strong_failure_count_multiplier = 3

pub data RcaClassification : Type 0 where
  segment_specific systemic unknown : RcaClassification

pub data EvidenceStrength : Type 0 where
  strong moderate weak : EvidenceStrength

-- What Stage 6 reads of an audit payload.
pub record RcaFlags : Type 0 where
  pub traffic_mix_shift : Bool
  pub unreliable_diagnosis : Bool

pub record CandidateCause (W : Type 0) : Type 0 where
  pub candidate_id : ℕ
  pub evaluation_id : ℕ
  pub candidate_dimension : String
  pub candidate_value : String
  pub evidence_strength : EvidenceStrength
  pub excess_failure_contribution : W
  pub actual_segment_failures : ℕ
  pub expected_segment_failures : W
  pub excess_segment_failures : W
  pub rank : ℕ

pub record RootCauseAnalysisEvaluation : Type 0 where
  pub evaluation_id : ℕ
  pub episode_id : ℕ
  pub evaluation_version : ℕ
  pub classification : RcaClassification
  pub analysis_window_start : ℕ
  pub analysis_window_end : ℕ
  pub input_fingerprint : String
  pub generated_at : ℕ
  pub evidence_audit_payload : RcaFlags

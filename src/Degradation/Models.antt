-- ===== src/Degradation/Models.antt =====
-- src/core/domain/degradation_models.py and analytics_models.py: the data of Stages 2 and 3.
-- An instant is a number of microseconds, a UUID a number; W is the type of Python's floats.
use revenue_degradation_reco.Prelude.{ℕ, String, Option, Bool}
use revenue_degradation_reco.Prelude.Int.{ℤ}

pub data SignalType : Type 0 where
  normal bad low_volume no_baseline : SignalType

pub data EpisodeStatus : Type 0 where
  active recovered invalidated : EpisodeStatus

pub data Severity : Type 0 where
  moderate high critical : Severity

pub data StateMachineState : Type 0 where
  healthy bad_pending degraded recovery_pending : StateMachineState

abbrev pub required_consecutive_windows : ℕ
required_consecutive_windows = 3

abbrev pub recovery_consecutive_windows : ℕ
recovery_consecutive_windows = 2

pub record PaymentHealthSnapshot {ℓ} (W : Type ℓ) : Type ℓ where
  pub snapshot_id : ℕ
  pub window_start : ℕ
  pub window_end : ℕ
  pub segment_dimension : String
  pub segment_value : String
  pub transaction_count : ℕ
  pub successful_transaction_count : ℕ
  pub failed_transaction_count : ℕ
  pub success_rate : Option W
  pub failure_rate : Option W
  pub total_gmv_minor_units : ℤ
  pub successful_gmv_minor_units : ℤ
  pub failed_gmv_minor_units : ℤ
  pub baseline_success_rate : Option W
  pub insufficient_volume : Bool
  pub calculated_at : ℕ

pub record DegradationSignal {ℓ} (W : Type ℓ) : Type ℓ where
  pub signal_id : ℕ
  pub snapshot_id : ℕ
  pub segment_dimension : String
  pub segment_value : String
  pub window_start : ℕ
  pub evaluation_version : ℕ
  pub signal_type : SignalType
  pub baseline_success_rate : Option W
  pub absolute_drop : Option W
  pub relative_drop : Option W
  pub evaluation_timestamp : ℕ

pub record DegradationEpisode {ℓ} (W : Type ℓ) : Type ℓ where
  pub episode_id : ℕ
  pub segment_dimension : String
  pub segment_value : String
  pub started_at_window : ℕ
  pub status : EpisodeStatus
  pub peak_absolute_drop : W
  pub affected_window_count : ℕ
  pub severity : Severity
  pub ended_at_window : Option ℕ

-- A row of episode_state_history; its own key is left out.
pub record EpisodeStateHistory : Type 0 where
  pub reconciliation_run_id : ℕ
  pub episode_id : ℕ
  pub segment_dimension : String
  pub segment_value : String
  pub status : EpisodeStatus
  pub severity : Severity
  pub effective_start_window : ℕ
  pub evaluation_timestamp : ℕ

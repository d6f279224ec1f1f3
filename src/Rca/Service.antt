-- ===== src/Rca/Service.antt =====
-- src/core/rca/service.py: the evaluation of an episode. The advisory lock and the audit payload are left
-- out; of the flags that Stage 6 looks for in a payload, none is ever written.
pub mod Baseline
pub mod Causes
pub mod Reads
pub mod Twice
pub mod Settled
pub mod Led
pub mod Diagnosed
use revenue_degradation_reco.Prelude.{
  ℕ, suc, ◌+◌, String, Option, none, some, List, [], ◌∷◌, ◌++◌, Bool, true, false, not, ◌&&◌, ◌==◌,
  ◌=s=◌, leb, ltb, if◌then◌else◌, select, count_if,
}
use revenue_degradation_reco.Prelude.Float.{Float}
use revenue_degradation_reco.Errors.{Result, ok, err, value_error}
use revenue_degradation_reco.Action.{Action, pure, lift, gets, ◌>>=◌}
use revenue_degradation_reco.Events.{PaymentEvent}
use revenue_degradation_reco.Store.{Database}
use revenue_degradation_reco.Degradation.Models.{
  SignalType, bad, DegradationSignal, EpisodeStatus, active, recovered, invalidated,
  DegradationEpisode, PaymentHealthSnapshot,
}
use revenue_degradation_reco.Analytics.Calculator.{is_failed}
use revenue_degradation_reco.Analytics.Repository.{between, snapshot_at}
use revenue_degradation_reco.Rca.Models.{
  RcaClassification, segment_specific, systemic, unknown, RcaFlags, RootCauseAnalysisEvaluation,
  CandidateCause, historical_weeks_back, min_failures_for_rca_evaluation,
}
use revenue_degradation_reco.Rca.Calculator.{
  window_length, compute_analysis_window, get_all_historical_starts, at_least_zero,
}
use revenue_degradation_reco.Rca.Ranking.{
  HistTuple, StructuralResult, qualified_candidates, rank_candidates,
}
use revenue_degradation_reco.Rca.Segments.{
  structural_dimensions, is_terminal, structural_results, has_volume, baseline_rate,
}
use revenue_degradation_reco.Rca.Repository.{
  get_max_evaluation_version, get_latest_evaluation_for_episode, append_evaluation,
  append_candidate_causes,
}

-- What compute_input_fingerprint hashes.
pub record RcaInputs : Type 0 where
  pub episode_id : ℕ
  pub episode_status : EpisodeStatus
  pub analysis_window_start : ℕ
  pub analysis_window_end : ℕ
  pub episode_actual_failures : ℕ
  pub episode_transaction_count : ℕ
  pub historical_windows : List HistTuple

-- The UUIDs of version 5, and the SHA-256 of the JSON text of the inputs, with the windows sorted.
pub record RcaNames : Type 0 where
  pub make_evaluation_id : ℕ → ℕ → ℕ
  pub make_candidate_id : ℕ → String → String → ℕ
  pub compute_input_fingerprint : RcaInputs → String

abbrev pub no_flags : RcaFlags
no_flags = record { traffic_mix_shift = false; unreliable_diagnosis = false }

abbrev pub is_bad : SignalType → Bool
is_bad bad = true
is_bad _ = false

-- The latest of some instants.
abbrev pub latest_of : List ℕ → Option ℕ
latest_of [] = none
latest_of (t ∷ rest) = elim (latest_of rest) [
  | none ↦ some t
  | some u ↦ some (if ltb t u then u else t)
]

abbrev pub in_order : EpisodeStatus → Bool
in_order recovered = false
in_order _ = true

-- A window and what happened in it.
pub record Window : Type 0 where
  pub analysis_start : ℕ
  pub analysis_end : ℕ
  pub events : List PaymentEvent

abbrev pub transactions_of : Window → ℕ
transactions_of w = count_if is_terminal w.events

abbrev pub failures_of : Window → ℕ
failures_of w = count_if is_failed w.events

module _ {W : Type 0} where
  abbrev pub bad_signal : DegradationEpisode W → DegradationSignal W → Bool
  bad_signal episode s =
      s.segment_dimension =s= episode.segment_dimension
      && (s.segment_value =s= episode.segment_value
          && (is_bad s.signal_type && leb episode.started_at_window s.window_start))

  abbrev pub starts_of : List (DegradationSignal W) → List ℕ
  starts_of [] = []
  starts_of (s ∷ rest) = s.window_start ∷ starts_of rest

  unfoldable pub get_latest_bad_window_start : DegradationEpisode W → Action (Database W) (Option ℕ)
  get_latest_bad_window_start episode = gets (λ db.
      if in_order episode.status
      then latest_of (starts_of (select (bad_signal episode) db.degradation_signals))
      else none)

  unfoldable pub get_events_in_window : ℕ → ℕ → Action (Database W) (List PaymentEvent)
  get_events_in_window window_start window_end =
      gets (λ db. select (between window_start window_end) db.payment_events)

  unfoldable pub get_hist_snapshot_for_dim :
      List ℕ → String → String → Action (Database W) (List (PaymentHealthSnapshot W))
  get_hist_snapshot_for_dim starts dimension value =
      gets (λ db. select (snapshot_at starts dimension value) db.payment_health_snapshots)

  unfoldable pub get_window : DegradationEpisode W → Action (Database W) Window
  unfolding get_latest_bad_window_start get_events_in_window
  get_window episode = do
    latest_bad ← get_latest_bad_window_start episode
    bounds ← lift (
        compute_analysis_window episode.started_at_window episode.ended_at_window latest_bad
          episode.status)
    events ← get_events_in_window bounds.0 bounds.1
    pure (record { analysis_start = bounds.0; analysis_end = bounds.1; events = events })

  abbrev pub tuples_of : List (StructuralResult W) → List HistTuple
  tuples_of [] = []
  tuples_of (r ∷ rest) = r.hist_tuples ++ tuples_of rest

  abbrev pub classify : List (StructuralResult W) → RcaClassification
  classify [] = systemic
  classify (r ∷ rest) = segment_specific

module _ {W : Type 0} (names : RcaNames) (now : ℕ) (episode : DegradationEpisode W) where
  abbrev pub fingerprint_of : Window → List HistTuple → String
  fingerprint_of w tuples = names.compute_input_fingerprint (record {
    episode_id = episode.episode_id;
    episode_status = episode.status;
    analysis_window_start = w.analysis_start;
    analysis_window_end = w.analysis_end;
    episode_actual_failures = failures_of w;
    episode_transaction_count = transactions_of w;
    historical_windows = tuples;
  })

  abbrev pub new_evaluation : RcaClassification → Window → String → ℕ → RootCauseAnalysisEvaluation
  new_evaluation classification w fingerprint version = record {
    evaluation_id = names.make_evaluation_id episode.episode_id version;
    episode_id = episode.episode_id;
    evaluation_version = version;
    classification = classification;
    analysis_window_start = w.analysis_start;
    analysis_window_end = w.analysis_end;
    input_fingerprint = fingerprint;
    generated_at = now;
    evidence_audit_payload = no_flags;
  }

  abbrev pub add_cause :
      CandidateCause W → Result (List (CandidateCause W)) → Result (List (CandidateCause W))
  add_cause cause (err why) = err why
  add_cause cause (ok causes) = ok (cause ∷ causes)

  -- The objects of the ranked candidates; EvidenceStrength(None) raises.
  abbrev pub causes_from : ℕ → ℕ → List (StructuralResult W) → Result (List (CandidateCause W))
  causes_from evaluation_id rank [] = ok []
  causes_from evaluation_id rank (r ∷ rest) =
      let later = causes_from evaluation_id (suc rank) rest in
      elim r.evidence_strength [
        | none ↦ err value_error
        | some strength ↦
            add_cause
              (record {
                candidate_id = names.make_candidate_id evaluation_id r.dimension r.value;
                evaluation_id = evaluation_id;
                candidate_dimension = r.dimension;
                candidate_value = r.value;
                evidence_strength = strength;
                excess_failure_contribution = r.excess_failure_contribution;
                actual_segment_failures = r.actual_segment_failures;
                expected_segment_failures = r.expected_segment_failures;
                excess_segment_failures = r.excess_segment_failures;
                rank = rank;
              })
              later
      ]

  -- `_persist_unknown_with_fingerprint`
  unfoldable pub persist_unknown_with_fingerprint : Window → String → Action (Database W) (Unit {0})
  persist_unknown_with_fingerprint w fingerprint = do
    max_version ← get_max_evaluation_version episode.episode_id
    append_evaluation (new_evaluation unknown w fingerprint (max_version + 1))

  abbrev pub is_same : String → Option RootCauseAnalysisEvaluation → Bool
  is_same fingerprint none = false
  is_same fingerprint (some last) = last.input_fingerprint =s= fingerprint

  -- The idempotency check: nothing happens where the latest evaluation has the fingerprint.
  unfoldable pub unless_same :
      String → Action (Database W) (Unit {0}) → Action (Database W) (Unit {0})
  unless_same fingerprint persist = do
    last ← get_latest_evaluation_for_episode episode.episode_id
    if is_same fingerprint last then pure tt else persist

  -- `_persist_unknown`, without windows of a baseline
  unfoldable pub persist_unknown : Window → Action (Database W) (Unit {0})
  persist_unknown w =
      unless_same (fingerprint_of w []) (persist_unknown_with_fingerprint w (fingerprint_of w []))

module _ {W : Type 0} ⦃f : Float W⦄ (names : RcaNames) (now : ℕ)
    (episode : DegradationEpisode W) where
  abbrev pub expected_by : ℕ → Option W → W
  expected_by transactions none = f.lit 0 1
  expected_by transactions (some rate) = f.mul (f.lit transactions 1) rate

  -- `max(0.0, actual - expected)`, against the snapshots of all payments.
  abbrev pub episode_total_excess : Window → List (PaymentHealthSnapshot W) → W
  episode_total_excess w global_snapshots =
      let rate = baseline_rate (select has_volume global_snapshots) in
      at_least_zero (f.sub (f.lit (failures_of w) 1) (expected_by (transactions_of w) rate))

  unfoldable pub persist_candidates :
      Window
      → String
      → RcaClassification
      → List (StructuralResult W)
      → Action (Database W) (Unit {0})
  persist_candidates w fingerprint classification ranked = do
    max_version ← get_max_evaluation_version episode.episode_id
    appended ←
        append_evaluation
          (new_evaluation names now episode classification w fingerprint (max_version + 1))
    causes ← lift (
        causes_from names now episode
          (names.make_evaluation_id episode.episode_id (max_version + 1)) 1 ranked)
    append_candidate_causes causes

  -- From the baseline of all payments on.
  unfoldable pub judge :
      Window → String → List (StructuralResult W) → W → Action (Database W) (Unit {0})
  judge w fingerprint results total =
      if f.le total (f.lit 0 1)
      then persist_unknown_with_fingerprint names now episode w fingerprint
      else persist_candidates w fingerprint (classify (qualified_candidates total results))
          (rank_candidates (qualified_candidates total results))

  unfoldable pub evaluate_results :
      Window → List ℕ → List (StructuralResult W) → Action (Database W) (Unit {0})
  evaluate_results w starts results =
      let fingerprint = fingerprint_of names now episode w (tuples_of results) in
      unless_same names now episode fingerprint (do
        global_snapshots ← get_hist_snapshot_for_dim starts "GLOBAL" "GLOBAL"
        judge w fingerprint results (episode_total_excess w global_snapshots))

  unfoldable pub evaluate_window : Window → Action (Database W) (Unit {0})
  evaluate_window w =
      let starts =
        get_all_historical_starts w.analysis_start w.analysis_end historical_weeks_back in
      if ltb (failures_of w) min_failures_for_rca_evaluation
      then unless_same names now episode (fingerprint_of names now episode w [])
          (persist_unknown names now episode w)
      else (do
        results ← gets (λ (db : Database W).
            structural_results w.events (transactions_of w) (failures_of w) starts
              db.payment_health_snapshots structural_dimensions)
        evaluate_results w starts results)

  abbrev pub started_window : Window
  started_window = record {
    analysis_start = episode.started_at_window;
    analysis_end = episode.started_at_window + window_length;
    events = [];
  }

  abbrev pub is_invalidated : EpisodeStatus → Bool
  is_invalidated invalidated = true
  is_invalidated _ = false

  unfoldable pub evaluate_episode : Action (Database W) (Unit {0})
  unfolding get_window
  evaluate_episode =
      if is_invalidated episode.status
      then persist_unknown names now episode started_window
      else (do w ← get_window episode; evaluate_window w)

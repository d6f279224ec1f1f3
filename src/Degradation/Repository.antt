-- ===== src/Degradation/Repository.antt =====
-- src/infrastructure/degradation_repository.py: signals, episodes and the ledger of their states.
pub mod Latest
use revenue_degradation_reco.Prelude.{
  ℕ, String, List, [], ◌∷◌, ◌++◌, Bool, true, false, not, ◌&&◌, ◌||◌, ◌==◌, ◌=s=◌, ltb,
  if◌then◌else◌, find, select, map,
}
use revenue_degradation_reco.Errors.{ok, err, integrity_error}
use revenue_degradation_reco.Action.{Action, gets}
use revenue_degradation_reco.Store.{Database}
use revenue_degradation_reco.Degradation.Models.{
  DegradationSignal, DegradationEpisode, EpisodeStateHistory,
}
use revenue_degradation_reco.Attempts.Registry.{exists}
use revenue_degradation_reco.Execution.Repository.{larger}

module _ {W : Type 0} where
  abbrev pub signal_of : String → String → DegradationSignal W → Bool
  signal_of dimension value s = s.segment_dimension =s= dimension && s.segment_value =s= value

  -- DISTINCT ON the window: by window, and of each the highest version.
  abbrev pub add_latest :
      DegradationSignal W → List (DegradationSignal W) → List (DegradationSignal W)
  add_latest s [] = s ∷ []
  add_latest s (x ∷ xs) =
      let later = add_latest s xs in
      if ltb s.window_start x.window_start
      then s ∷ x ∷ xs
      else if s.window_start == x.window_start
      then (if ltb x.evaluation_version s.evaluation_version then s ∷ xs else x ∷ xs)
      else x ∷ later

  abbrev pub latest_signals : List (DegradationSignal W) → List (DegradationSignal W)
  latest_signals [] = []
  latest_signals (s ∷ rest) = add_latest s (latest_signals rest)

  unfoldable pub get_latest_signals_for_segment :
      String → String → Action (Database W) (List (DegradationSignal W))
  get_latest_signals_for_segment dimension value =
      gets (λ db. latest_signals (select (signal_of dimension value) db.degradation_signals))

  abbrev pub max_version : String → String → ℕ → List (DegradationSignal W) → ℕ
  max_version dimension value window [] = 0
  max_version dimension value window (s ∷ rest) =
      let later = max_version dimension value window rest in
      if signal_of dimension value s && s.window_start == window
      then larger s.evaluation_version later
      else later

  unfoldable pub get_max_evaluation_version : String → String → ℕ → Action (Database W) ℕ
  get_max_evaluation_version dimension value window =
      gets (λ db. max_version dimension value window db.degradation_signals)

  -- The primary key and uq_signal_evaluation_version
  abbrev pub signal_clashes : DegradationSignal W → DegradationSignal W → Bool
  signal_clashes a b =
      a.signal_id == b.signal_id
      || (a.segment_dimension =s= b.segment_dimension
          && (a.segment_value =s= b.segment_value
              && (a.window_start == b.window_start
                  && a.evaluation_version == b.evaluation_version)))

  unfoldable pub append_signal : DegradationSignal W → Action (Database W) (Unit {0})
  append_signal s db =
      if exists (find (signal_clashes s) db.degradation_signals)
      then (err integrity_error, db)
      else (ok tt, record db { degradation_signals = db.degradation_signals ++ s ∷ [] })

  abbrev pub is_episode : ℕ → DegradationEpisode W → Bool
  is_episode id e = e.episode_id == id

  -- ON CONFLICT DO UPDATE of the row with the primary key.
  abbrev pub update_row : DegradationEpisode W → DegradationEpisode W → DegradationEpisode W
  update_row episode row =
      if is_episode episode.episode_id row
      then record row {
        ended_at_window = episode.ended_at_window;
        status = episode.status;
        peak_absolute_drop = episode.peak_absolute_drop;
        affected_window_count = episode.affected_window_count;
        severity = episode.severity;
      }
      else row

  abbrev pub upsert_row :
      DegradationEpisode W → List (DegradationEpisode W) → List (DegradationEpisode W)
  upsert_row episode rows =
      if exists (find (is_episode episode.episode_id) rows)
      then map (update_row episode) rows
      else rows ++ episode ∷ []

  abbrev pub asserted : DegradationEpisode W → ℕ → ℕ → EpisodeStateHistory
  asserted episode run evaluation_timestamp = record {
    reconciliation_run_id = run;
    episode_id = episode.episode_id;
    segment_dimension = episode.segment_dimension;
    segment_value = episode.segment_value;
    status = episode.status;
    severity = episode.severity;
    effective_start_window = episode.started_at_window;
    evaluation_timestamp = evaluation_timestamp;
  }

  unfoldable pub upsert_episode : DegradationEpisode W → ℕ → ℕ → Action (Database W) (Unit {0})
  upsert_episode episode run evaluation_timestamp db = (
    ok tt,
    record db {
      degradation_episodes = upsert_row episode db.degradation_episodes;
      episode_state_history =
          db.episode_state_history ++ asserted episode run evaluation_timestamp ∷ [];
    },
  )

  abbrev pub episode_of : String → String → DegradationEpisode W → Bool
  episode_of dimension value e = e.segment_dimension =s= dimension && e.segment_value =s= value

  unfoldable pub get_episodes_for_segment :
      String → String → Action (Database W) (List (DegradationEpisode W))
  get_episodes_for_segment dimension value =
      gets (λ db. select (episode_of dimension value) db.degradation_episodes)

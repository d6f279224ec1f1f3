-- ===== src/Degradation/Service.antt =====
-- src/core/degradation/service.py: the snapshots of one segment become signals, the timeline of all its
-- signals is reconstructed, and the episodes are brought in line.
pub mod Retired
pub mod Stored
pub mod Effects
pub mod Reconciled
use revenue_degradation_reco.Prelude.{
  ℕ, ◌+◌, String, Option, none, some, List, [], ◌∷◌, Bool, true, false, not, ◌&&◌, ◌||◌, ◌==◌, ltb,
  if◌then◌else◌,
}
use revenue_degradation_reco.Prelude.Float.{Float}
use revenue_degradation_reco.Errors.{Error, type_error, Result, ok, err}
use revenue_degradation_reco.Action.{Action, pure, lift, ◌>>=◌}
use revenue_degradation_reco.Store.{Database}
use revenue_degradation_reco.Degradation.Models.{
  EpisodeStatus, active, recovered, invalidated, PaymentHealthSnapshot, DegradationSignal,
  DegradationEpisode,
}
use revenue_degradation_reco.Degradation.Signal.{evaluate_snapshot}
use revenue_degradation_reco.Degradation.Timeline.{reconcile_timeline}
use revenue_degradation_reco.Degradation.Repository.{
  get_max_evaluation_version, append_signal, get_latest_signals_for_segment,
  get_episodes_for_segment, upsert_episode,
}

-- The `uuid4` of each signal and of the run, and the `uuid5` of an episode.
pub record DegradationNames : Type 0 where
  pub signal_id : ℕ → ℕ → ℕ
  pub run_id : ℕ
  pub episode_id_of : String → String → ℕ → ℕ

-- What raises a TypeError gives nothing.
abbrev pub or_raise {ℓ} : {A : Type ℓ} → Option A → Result A
or_raise none = err type_error
or_raise (some a) = ok a

abbrev pub is_invalidated : EpisodeStatus → Bool
is_invalidated invalidated = true
is_invalidated _ = false

module _ {W : Type 0} where
  -- `sorted(snapshots, key=lambda s: s.window_start)`, which is stable.
  abbrev pub insert_snapshot :
      PaymentHealthSnapshot W → List (PaymentHealthSnapshot W) → List (PaymentHealthSnapshot W)
  insert_snapshot s [] = s ∷ []
  insert_snapshot s (x ∷ xs) =
      let rest = insert_snapshot s xs in
      if ltb x.window_start s.window_start then x ∷ rest else s ∷ x ∷ xs

  abbrev pub sorted_snapshots : List (PaymentHealthSnapshot W) → List (PaymentHealthSnapshot W)
  sorted_snapshots [] = []
  sorted_snapshots (s ∷ rest) = insert_snapshot s (sorted_snapshots rest)

  -- `episode_id in valid_episode_ids`
  abbrev pub is_listed : ℕ → List (DegradationEpisode W) → Bool
  is_listed id [] = false
  is_listed id (e ∷ rest) = e.episode_id == id || is_listed id rest

  abbrev pub is_stale : List (DegradationEpisode W) → DegradationEpisode W → Bool
  is_stale valid ep = not (is_listed ep.episode_id valid) && not (is_invalidated ep.status)

module _ {W : Type 0} ⦃f : Float W⦄ (names : DegradationNames) (evaluation_timestamp : ℕ) where
  -- Step 1.
  unfoldable pub append_signals :
      String → String → List (PaymentHealthSnapshot W) → Action (Database W) (Unit {0})
  append_signals dimension value [] = pure tt
  append_signals dimension value (s ∷ snapshots) =
      let rest = append_signals dimension value snapshots in
      get_max_evaluation_version dimension value s.window_start >>= λ max_version.
      lift (
        or_raise (
          evaluate_snapshot s (max_version + 1) evaluation_timestamp
            (names.signal_id s.window_start (max_version + 1))))
      >>= λ signal. append_signal signal >>= λ appended. rest

module _ {W : Type 0} (names : DegradationNames) (evaluation_timestamp : ℕ) where
  -- Step 4.
  unfoldable pub invalidate_stale :
      List (DegradationEpisode W) → List (DegradationEpisode W) → Action (Database W) (Unit {0})
  invalidate_stale valid [] = pure tt
  invalidate_stale valid (ep ∷ existing) =
      let rest = invalidate_stale valid existing in
      if is_stale valid ep
      then (upsert_episode (record ep { status = invalidated }) names.run_id evaluation_timestamp
          >>= λ done. rest)
      else rest

  -- Step 5.
  unfoldable pub upsert_valid : List (DegradationEpisode W) → Action (Database W) (Unit {0})
  upsert_valid [] = pure tt
  upsert_valid (ep ∷ valid) =
      let rest = upsert_valid valid in
      upsert_episode ep names.run_id evaluation_timestamp >>= λ done. rest

module _ {W : Type 0} ⦃f : Float W⦄ (names : DegradationNames) (evaluation_timestamp : ℕ) where
  -- Steps 2 to 5.
  unfoldable pub reconcile_episodes : String → String → Action (Database W) (Unit {0})
  reconcile_episodes dimension value = do
    latest_signals ← get_latest_signals_for_segment dimension value
    valid_episodes ← lift (or_raise (reconcile_timeline names.episode_id_of latest_signals))
    existing_episodes ← get_episodes_for_segment dimension value
    stale ← invalidate_stale names evaluation_timestamp valid_episodes existing_episodes
    upsert_valid names evaluation_timestamp valid_episodes

  unfoldable pub process_snapshots : List (PaymentHealthSnapshot W) → Action (Database W) (Unit {0})
  process_snapshots [] = pure tt
  process_snapshots (first ∷ snapshots) = do
    appended ←
        append_signals names evaluation_timestamp first.segment_dimension first.segment_value
          (sorted_snapshots (first ∷ snapshots))
    reconcile_episodes first.segment_dimension first.segment_value

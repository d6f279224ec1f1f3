-- ===== src/Degradation/Service/Reconciled.antt =====
-- process_snapshots (src/core/degradation/service.py) brings the table of episodes in line with the timeline.
use revenue_degradation_reco.Prelude.{
  ℕ, ◌≡◌, refl, inl, inr, String, some, List, [], ◌∷◌, ◌++◌, map, Bool, Bool-cases, select, All,
}
use revenue_degradation_reco.Prelude.Float.{Float}
use revenue_degradation_reco.Errors.{ok}
use revenue_degradation_reco.Action.{Action}
use revenue_degradation_reco.Action.Keeps.{Keeps}
use revenue_degradation_reco.Store.{Database}
use revenue_degradation_reco.Degradation.Models.{DegradationSignal, DegradationEpisode}
use revenue_degradation_reco.Degradation.Timeline.{reconcile_timeline}
use revenue_degradation_reco.Degradation.Timeline.Invariant.{IsMeasured}
use revenue_degradation_reco.Degradation.Timeline.Episodes.{
  Reconciled, reconcile_timeline-Reconciled,
}
use revenue_degradation_reco.Degradation.Repository.{
  signal_of, latest_signals, get_latest_signals_for_segment, get_episodes_for_segment, episode_of,
}
use revenue_degradation_reco.Degradation.Repository.Latest.{
  All-latest_signals, latest_signals-Chronological,
}
use revenue_degradation_reco.Degradation.Service.{DegradationNames, is_stale, reconcile_episodes}
use revenue_degradation_reco.Degradation.Service.Stored.{IsStored, upsert_rows-IsStored}
use revenue_degradation_reco.Degradation.Service.Effects.{
  with_episodes, retired, entries, invalidate_effect, upsert_effect,
}
use revenue_degradation_reco.Degradation.Service.Retired.{
  IsRetired, invalidate_rows, found-IsRetired, upsert_rows, upsert_rows-IsRetired, All-listed,
}

module _ {W : Type 0} where
  All-select :
      (P : DegradationSignal W → Type 0) (p : DegradationSignal W → Bool)
      (xs : List (DegradationSignal W))
      → All P xs
      → All P (select p xs)
  All-select P p [] h = tt
  All-select P p (x ∷ xs) h = elim (Bool-cases (p x)) [
    | inl hit ↦ rw hit (h.0, All-select P p xs h.1)
    | inr miss ↦ rw miss (All-select P p xs h.1)
  ]

module _ {W : Type 0} ⦃f : Float W⦄ (names : DegradationNames) (t : ℕ)
    (dimension value : String) where
  abbrev pub timeline_of : Database W → List (DegradationSignal W)
  timeline_of db = latest_signals (select (signal_of dimension value) db.degradation_signals)

  -- A table of episodes in line with the timeline of the signals of the segment: every row of the segment
  -- is an episode of the timeline or INVALIDATED, every episode of the timeline is stored as it is, and
  -- the ledger has got the episodes that were invalidated and those of the timeline.
  abbrev pub InLine : Database W → Database W → Type 0
  InLine db db' =
      (eps : List (DegradationEpisode W)) × (reconcile_timeline names.episode_id_of (timeline_of db)
        ≡ some eps)
      × Reconciled (timeline_of db) eps
      × All (IsRetired dimension value eps) db'.degradation_episodes
      × IsStored db'.degradation_episodes eps
      × (db'.episode_state_history
          ≡ (db.episode_state_history
              ++ entries names t dimension value (
                  map retired (
                    select (is_stale eps)
                      (select (episode_of dimension value) db.degradation_episodes))))
            ++ entries names t dimension value eps)

  -- Where the bad signals carry their drops, reconciling the episodes of a segment raises nothing. It
  -- leaves the signals, and a table of episodes in line with their timeline.
  pub reconcile_episodes-InLine :
      (db : Database W)
      → All IsMeasured db.degradation_signals
      → (db' : Database W) × (reconcile_episodes names t dimension value db ≡ (ok tt, db'))
        × (db'.degradation_signals ≡ db.degradation_signals)
        × InLine db db'
  unfolding reconcile_episodes get_latest_signals_for_segment get_episodes_for_segment
  reconcile_episodes-InLine db measured =
      let (eps, found, reconciled) =
        reconcile_timeline-Reconciled names.episode_id_of (timeline_of db)
          (All-latest_signals IsMeasured (select (signal_of dimension value) db.degradation_signals)
            (All-select IsMeasured (signal_of dimension value) db.degradation_signals measured))
          (latest_signals-Chronological
            (select (signal_of dimension value) db.degradation_signals)) in
      let rows =
        invalidate_rows dimension value eps
          (select (episode_of dimension value) db.degradation_episodes) db.degradation_episodes in
      let invalidated_ran =
        invalidate_effect names t dimension value eps
          (select (episode_of dimension value) db.degradation_episodes) db in
      let h =
        db.episode_state_history
        ++ entries names t dimension value (
            map retired (
              select (is_stale eps)
                (select (episode_of dimension value) db.degradation_episodes))) in
      let upserted = upsert_effect names t dimension value eps eps (with_episodes rows h db) in
      (
        with_episodes (upsert_rows dimension value eps eps rows)
            (h ++ entries names t dimension value eps) db,
        rw (found, invalidated_ran, upserted) refl,
        refl,
        (
          eps,
          found,
          reconciled,
          upsert_rows-IsRetired dimension value eps eps rows (All-listed eps)
              (found-IsRetired dimension value eps db.degradation_episodes),
          upsert_rows-IsStored dimension value eps eps rows,
          refl,
        ),
      )

module _ {W : Type 0} ⦃f : Float W⦄ (names : DegradationNames) (t : ℕ) where
  abbrev pub IsMeasuredAll : Database W → Type 0
  IsMeasuredAll db = All IsMeasured db.degradation_signals

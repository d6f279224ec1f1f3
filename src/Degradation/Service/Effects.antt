-- ===== src/Degradation/Service/Effects.antt =====
-- What the two loops of src/core/degradation/service.py write: the episodes and the ledger of their states.
use mathlib.Core.List.{append-nil, append_assoc}
use revenue_degradation_reco.Prelude.{
  ℕ, ◌≡◌, refl, ap, ◌∙◌, String, List, [], ◌∷◌, ◌++◌, map, Bool-cases, inl, inr, select,
}
use revenue_degradation_reco.Errors.{Result, ok}
use revenue_degradation_reco.Store.{Database}
use revenue_degradation_reco.Degradation.Models.{
  invalidated, DegradationEpisode, EpisodeStateHistory,
}
use revenue_degradation_reco.Degradation.Repository.{upsert_episode, upsert_row, asserted}
use revenue_degradation_reco.Degradation.Service.{
  DegradationNames, is_stale, invalidate_stale, upsert_valid,
}
use revenue_degradation_reco.Degradation.Service.Retired.{invalidate_rows, upsert_rows}

module _ {W : Type 0} where
  abbrev pub with_episodes :
      List (DegradationEpisode W) → List EpisodeStateHistory → Database W → Database W
  with_episodes es h db = record db { degradation_episodes = es; episode_state_history = h }

  with_ledger :
      {h h' : List EpisodeStateHistory} (rows : List (DegradationEpisode W)) (db : Database W)
      → h ≡ h'
      → ◌≡◌ {A = Result (Unit {0}) × Database W}
          (ok tt, with_episodes rows h db)
          (ok tt, with_episodes rows h' db)
  with_ledger rows db e = ap (λ l. (ok tt, with_episodes rows l db)) e

  abbrev pub retired : DegradationEpisode W → DegradationEpisode W
  retired ep = record ep { status = invalidated }

module _ {W : Type 0} (names : DegradationNames) (t : ℕ) (dimension value : String) where
  -- The rows of the ledger for some episodes.
  abbrev pub entries : List (DegradationEpisode W) → List EpisodeStateHistory
  entries = map (λ ep. asserted ep names.run_id t)

  after :
      (ep : DegradationEpisode W) (eps : List (DegradationEpisode W)) (db : Database W)
      → (db.episode_state_history ++ asserted ep names.run_id t ∷ []) ++ entries eps
        ≡ db.episode_state_history ++ entries (ep ∷ eps)
  after ep eps db =
      append_assoc db.episode_state_history (asserted ep names.run_id t ∷ []) (entries eps)

  -- Both loops raise nothing.
  pub invalidate_effect :
      (valid existing : List (DegradationEpisode W)) (db : Database W)
      → invalidate_stale names t valid existing db ≡ (
        ok tt,
        with_episodes
            (invalidate_rows dimension value valid existing db.degradation_episodes)
            (db.episode_state_history ++ entries (map retired (select (is_stale valid) existing)))
            db,
      )
  unfolding invalidate_stale upsert_episode
  invalidate_effect valid [] db = rw (append-nil db.episode_state_history) refl
  invalidate_effect valid (ep ∷ existing) db = elim (Bool-cases (is_stale valid ep)) [
    | inl stale ↦ rw stale (
        invalidate_effect valid existing (upsert_episode (retired ep) names.run_id t db).1
        ∙ with_ledger
            (invalidate_rows dimension value valid existing
              (upsert_row (retired ep) db.degradation_episodes))
            db (after (retired ep) (map retired (select (is_stale valid) existing)) db))
    | inr fine ↦ rw fine (invalidate_effect valid existing db)
  ]

  pub upsert_effect :
      (valid eps : List (DegradationEpisode W)) (db : Database W)
      → upsert_valid names t eps db ≡ (
        ok tt,
        with_episodes
            (upsert_rows dimension value valid eps db.degradation_episodes)
            (db.episode_state_history ++ entries eps)
            db,
      )
  unfolding upsert_valid upsert_episode
  upsert_effect valid [] db = rw (append-nil db.episode_state_history) refl
  upsert_effect valid (ep ∷ eps) db =
      upsert_effect valid eps (upsert_episode ep names.run_id t db).1
      ∙ with_ledger (upsert_rows dimension value valid eps (upsert_row ep db.degradation_episodes))
          db (after ep eps db)

-- ===== src/Rca/Service/Twice.antt =====
-- evaluate_episode (src/core/rca/service.py) called twice on the same data.
use mathlib.Core.Path.{subst}
use revenue_degradation_reco.Prelude.{
  ℕ, ◌≡◌, refl, sym, ap, ◌∙◌, String, List, [], ◌∷◌, ◌++◌, inl, inr, arith, Bool-cases,
  if◌then◌else◌, find, ltb,
}
use revenue_degradation_reco.Prelude.Float.{Float}
use revenue_degradation_reco.Errors.{ok, integrity_error}
use revenue_degradation_reco.Action.{◌>>=◌}
use revenue_degradation_reco.Action.Keeps.{continue_read}
use revenue_degradation_reco.Store.{Database}
use revenue_degradation_reco.Degradation.Models.{DegradationEpisode}
use revenue_degradation_reco.Attempts.Registry.{exists}
use revenue_degradation_reco.Rca.Models.{
  RcaClassification, min_failures_for_rca_evaluation, historical_weeks_back,
}
use revenue_degradation_reco.Rca.Calculator.{get_all_historical_starts}
use revenue_degradation_reco.Rca.Ranking.{StructuralResult}
use revenue_degradation_reco.Rca.Segments.{structural_results, structural_dimensions}
use revenue_degradation_reco.Rca.Repository.{
  evaluation_clashes, append_evaluation, get_max_evaluation_version,
}
use revenue_degradation_reco.Rca.Service.{
  RcaNames, Window, get_window, causes_from, persist_unknown, persist_candidates, judge,
  evaluate_results, evaluate_window, evaluate_episode, get_hist_snapshot_for_dim, fingerprint_of,
  failures_of, is_invalidated, started_window, tuples_of, transactions_of,
}
use revenue_degradation_reco.Rca.Service.Reads.{with_rca, get_window_blind, get_window-Reads}
use revenue_degradation_reco.Rca.Service.Settled.{
  IsSettled, Settles, next_evaluation, next-IsSettled, lifted-Settles, unknown-Settles,
  unless_same-Settles, persist_unknown-Settles, unless_settled,
}

module _ {W : Type 0} ⦃f : Float W⦄ (names : RcaNames) (episode : DegradationEpisode W) where
  persist_candidates-Settles :
      (now : ℕ) (w : Window) (fingerprint : String) (classification : RcaClassification)
      (ranked : List (StructuralResult W)) (db : Database W)
      → Settles names now episode fingerprint db
          (persist_candidates names now episode w fingerprint classification ranked db)
  unfolding persist_candidates get_max_evaluation_version append_evaluation
  persist_candidates-Settles now w fingerprint classification ranked db =
      let e = next_evaluation names now episode classification w fingerprint db in
      elim (Bool-cases (exists (find (evaluation_clashes e) db.rca_evaluations))) [
        | inl clash ↦ rw clash (unfold Settles in inl (integrity_error, refl))
        | inr free ↦ rw free (
            lifted-Settles names now episode fingerprint
              (causes_from names now episode e.evaluation_id 1 ranked)
              (db.rca_evaluations ++ e ∷ []) db.rca_candidate_causes db
              (next-IsSettled names now episode classification w fingerprint db))
      ]

  judge-Settles :
      (now : ℕ) (w : Window) (fingerprint : String) (results : List (StructuralResult W))
      (total : W) (db : Database W)
      → Settles names now episode fingerprint db
          (judge names now episode w fingerprint results total db)
  unfolding judge
  judge-Settles now w fingerprint results total db = elim (Bool-cases (f.le total (f.lit 0 1))) [
    | inl nothing ↦ rw nothing (unknown-Settles names now episode w fingerprint db)
    | inr over ↦ rw over (persist_candidates-Settles now w fingerprint _ _ db)
  ]

  -- The fingerprint of a window, with the windows of the baseline where the failures are enough.
  abbrev fingerprint_in : Window → Database W → String
  fingerprint_in w db =
      if ltb (failures_of w) min_failures_for_rca_evaluation
      then fingerprint_of names 0 episode w []
      else fingerprint_of names 0 episode w (
          tuples_of (
            structural_results w.events (transactions_of w) (failures_of w)
              (get_all_historical_starts w.analysis_start w.analysis_end historical_weeks_back)
              db.payment_health_snapshots structural_dimensions))

  evaluate_window-Settles :
      (now : ℕ) (w : Window) (db : Database W)
      → Settles names now episode (fingerprint_in w db) db (evaluate_window names now episode w db)
  unfolding evaluate_window evaluate_results get_hist_snapshot_for_dim
  evaluate_window-Settles now w db =
      elim (Bool-cases (ltb (failures_of w) min_failures_for_rca_evaluation)) [
        | inl few ↦ rw few (
            unless_same-Settles names now episode (fingerprint_of names now episode w []) _ db
              (persist_unknown-Settles names now episode w db))
        | inr enough ↦
            rw enough (unless_same-Settles names now episode _ _ db (judge-Settles now w _ _ _ db))
      ]

  -- A settled window is left alone, at any time.
  evaluate_window_settled :
      (later : ℕ) (w : Window) (db : Database W)
      → IsSettled names later episode (fingerprint_in w db) db.rca_evaluations
      → evaluate_window names later episode w db ≡ (ok tt, db)
  unfolding evaluate_window evaluate_results
  evaluate_window_settled later w db settled =
      elim (Bool-cases (ltb (failures_of w) min_failures_for_rca_evaluation)) [
        | inl few ↦ rw few (unless_settled names later episode _ _ db (rw few at settled))
        | inr enough ↦ rw enough (unless_settled names later episode _ _ db (rw enough at settled))
      ]

  settled_after :
      (now later : ℕ) (w : Window) (db db' : Database W)
      → get_window episode db ≡ (ok w, db)
      → evaluate_window names now episode w db ≡ (ok tt, db')
      → (get_window episode db' ≡ (ok w, db'))
        × (evaluate_window names later episode w db' ≡ (ok tt, db'))
  unfolding Settles
  settled_after now later w db db' found done = go (evaluate_window-Settles now w db)
    where
      go :
          Settles names now episode
            (fingerprint_in w db)
            db
            (evaluate_window names now episode w db)
          → (get_window episode db' ≡ (ok w, db'))
            × (evaluate_window names later episode w db' ≡ (ok tt, db'))
      go (inl (x, raised)) = absurd (ground (arith, raised, done))
      go (inr (es, cs, stored, settled)) =
          subst
            (λ d.
              (get_window episode d ≡ (ok w, d))
              × (evaluate_window names later episode w d ≡ (ok tt, d)))
            (ap (λ r. r.1) (sym stored ∙ done))
            (
              get_window_blind episode es cs db ∙ ap (λ r. (r.0, with_rca es cs db)) found,
              evaluate_window_settled later w (with_rca es cs db) settled,
            )

  unknown_settled_after :
      (now later : ℕ) (w : Window) (db db' : Database W)
      → persist_unknown names now episode w db ≡ (ok tt, db')
      → persist_unknown names later episode w db' ≡ (ok tt, db')
  unfolding Settles persist_unknown
  unknown_settled_after now later w db db' done =
      go (persist_unknown-Settles names now episode w db)
    where
      go :
          Settles names now episode
            (fingerprint_of names now episode w [])
            db
            (persist_unknown names now episode w db)
          → persist_unknown names later episode w db' ≡ (ok tt, db')
      go (inl (x, raised)) = absurd (ground (arith, raised, done))
      go (inr (es, cs, stored, settled)) =
          subst (λ d. persist_unknown names later episode w d ≡ (ok tt, d))
            (ap (λ r. r.1) (sym stored ∙ done))
            (unless_settled names later episode (fingerprint_of names later episode w []) _
              (with_rca es cs db) settled)

  -- Evaluating an episode again on the same events, signals and snapshots, however much later, succeeds
  -- where the first evaluation did, and stores nothing more.
  pub evaluate_episode-settled :
      (now later : ℕ) (db db' : Database W)
      → evaluate_episode names now episode db ≡ (ok tt, db')
      → evaluate_episode names later episode db' ≡ (ok tt, db')
  unfolding evaluate_episode
  evaluate_episode-settled now later db db' h =
      elim (Bool-cases (is_invalidated names now episode episode.status)) [
        | inl over ↦ rw over (
            unknown_settled_after now later (started_window names now episode) db db'
              (rw over at h))
        | inr valid ↦
            let ran : (get_window episode >>= λ w. evaluate_window names now episode w) db
                ≡ (ok tt, db') =
              rw valid at h in
            let (w, found, done) =
              continue_read (get_window episode db) (λ w. evaluate_window names now episode w) tt db
                db' (get_window-Reads episode db) ran in
            let (same, settled) = settled_after now later w db db' found done in
            rw (valid, same) settled
      ]

-- ===== src/Rca/Service/Reads.antt =====
-- The window that src/core/rca/service.py analyses does not depend on the evaluations stored.
use revenue_degradation_reco.Prelude.{ℕ, ◌≡◌, refl, ap, List}
use revenue_degradation_reco.Errors.{Result, ok, err}
use revenue_degradation_reco.Action.{Action, continue, pure, ◌>>=◌}
use revenue_degradation_reco.Action.Keeps.{Reads}
use revenue_degradation_reco.Store.{Database}
use revenue_degradation_reco.Degradation.Models.{DegradationEpisode}
use revenue_degradation_reco.Rca.Models.{RootCauseAnalysisEvaluation, CandidateCause}
use revenue_degradation_reco.Rca.Service.{
  Window, get_latest_bad_window_start, get_events_in_window, get_window,
}

module _ {W : Type 0} where
  -- The database with other evaluations and causes.
  abbrev pub with_rca :
      List RootCauseAnalysisEvaluation → List (CandidateCause W) → Database W → Database W
  with_rca es cs db = record db { rca_evaluations = es; rca_candidate_causes = cs }

  abbrev window_between : ℕ × ℕ → Action (Database W) Window
  window_between bounds = do
    events ← get_events_in_window bounds.0 bounds.1
    pure (record { analysis_start = bounds.0; analysis_end = bounds.1; events = events })

  bounded :
      (r : Result (ℕ × ℕ)) (es : List RootCauseAnalysisEvaluation) (cs : List (CandidateCause W))
      (db : Database W)
      → continue (r, with_rca es cs db) window_between
        ≡ ((continue (r, db) window_between).0, with_rca es cs db)
  unfolding get_events_in_window
  bounded (ok bounds) es cs db = refl
  bounded (err x) es cs db = refl

  pub get_window_blind :
      (episode : DegradationEpisode W) (es : List RootCauseAnalysisEvaluation)
      (cs : List (CandidateCause W)) (db : Database W)
      → get_window episode (with_rca es cs db) ≡ ((get_window episode db).0, with_rca es cs db)
  unfolding get_window get_latest_bad_window_start
  get_window_blind episode es cs db = bounded _ es cs db

  pub get_window-Reads : (episode : DegradationEpisode W) → Reads (get_window episode)
  get_window-Reads episode db =
      ap (λ r. r.1) (get_window_blind episode db.rca_evaluations db.rca_candidate_causes db)

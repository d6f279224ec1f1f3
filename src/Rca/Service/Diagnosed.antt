-- ===== src/Rca/Service/Diagnosed.antt =====
-- The reader of the diagnosis (src/infrastructure/feature_reconstruction_repository.py) after any history of
-- evaluations (src/core/rca/service.py).
use revenue_degradation_reco.Prelude.{ℕ, ◌≡◌, Option, none, some, List, count_if}
use revenue_degradation_reco.Prelude.Float.{Float}
use revenue_degradation_reco.Store.{Database}
use revenue_degradation_reco.Degradation.Models.{DegradationEpisode}
use revenue_degradation_reco.Rca.Models.{RootCauseAnalysisEvaluation, CandidateCause}
use revenue_degradation_reco.Rca.Service.{RcaNames, evaluate_episode}
use revenue_degradation_reco.Rca.Service.Causes.{leads}

module _ {W : Type 0} ⦃f : Float W⦄ where
  -- Databases that evaluations of any episodes, returning or raising, and writes to other tables reach.
  pub data Evaluated (start : Database W) : Database W → Type 0 where
    here : Evaluated start start
    evaluated :
        {db : Database W} (names : RcaNames) (now : ℕ) (episode : DegradationEpisode W)
        → Evaluated start db
        → Evaluated start (evaluate_episode names now episode db).1
    otherwise :
        {db : Database W} (db' : Database W)
        → db'.rca_evaluations ≡ db.rca_evaluations
        → db'.rca_candidate_causes ≡ db.rca_candidate_causes
        → Evaluated start db
        → Evaluated start db'

  -- What is read: the cause of rank 1 of the evaluation, and none only where it has none.
  abbrev pub IsFirst :
      List (CandidateCause W)
      → Option (RootCauseAnalysisEvaluation × Option (CandidateCause W))
      → Type 0
  IsFirst causes none = Unit
  IsFirst causes (some (e, none)) = count_if (leads e.evaluation_id) causes ≡ 0
  IsFirst causes (some (e, some c)) = (c.evaluation_id ≡ e.evaluation_id) × (c.rank ≡ 1)

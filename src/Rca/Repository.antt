-- ===== src/Rca/Repository.antt =====
-- src/infrastructure/rca_repository.py: evaluations and candidate causes, which are only appended.
use revenue_degradation_reco.Prelude.{
  ℕ, Option, List, [], ◌∷◌, ◌++◌, Bool, not, ◌&&◌, ◌||◌, ◌==◌, leb, if◌then◌else◌, find, select,
}
use revenue_degradation_reco.Errors.{ok, err, integrity_error}
use revenue_degradation_reco.Action.{Action, gets}
use revenue_degradation_reco.Store.{Database}
use revenue_degradation_reco.Attempts.Registry.{exists}
use revenue_degradation_reco.Execution.Repository.{larger}
use revenue_degradation_reco.Attribution.Repository.{latest}
use revenue_degradation_reco.Rca.Models.{RootCauseAnalysisEvaluation, CandidateCause}

abbrev pub of_episode : ℕ → RootCauseAnalysisEvaluation → Bool
of_episode episode_id e = e.episode_id == episode_id

abbrev pub max_version : ℕ → List RootCauseAnalysisEvaluation → ℕ
max_version episode_id [] = 0
max_version episode_id (e ∷ rest) =
    let later = max_version episode_id rest in
    if of_episode episode_id e then larger e.evaluation_version later else later

-- The primary key and uq_rca_evaluation_version
abbrev pub evaluation_clashes : RootCauseAnalysisEvaluation → RootCauseAnalysisEvaluation → Bool
evaluation_clashes a b =
    a.evaluation_id == b.evaluation_id
    || (a.episode_id == b.episode_id && a.evaluation_version == b.evaluation_version)

abbrev pub has_id : ℕ → RootCauseAnalysisEvaluation → Bool
has_id id e = e.evaluation_id == id

module _ {W : Type 0} where
  unfoldable pub get_max_evaluation_version : ℕ → Action (Database W) ℕ
  get_max_evaluation_version episode_id = gets (λ db. max_version episode_id db.rca_evaluations)

  unfoldable pub get_latest_evaluation_for_episode :
      ℕ → Action (Database W) (Option RootCauseAnalysisEvaluation)
  get_latest_evaluation_for_episode episode_id = gets (λ db.
      latest (λ (e : RootCauseAnalysisEvaluation). e.evaluation_version) (of_episode episode_id)
        db.rca_evaluations)

  unfoldable pub get_evaluation_by_id : ℕ → Action (Database W) (Option RootCauseAnalysisEvaluation)
  get_evaluation_by_id id = gets (λ db. find (has_id id) db.rca_evaluations)

  abbrev pub caused_by : ℕ → CandidateCause W → Bool
  caused_by evaluation_id c = c.evaluation_id == evaluation_id

  -- ORDER BY rank
  abbrev pub insert_cause : CandidateCause W → List (CandidateCause W) → List (CandidateCause W)
  insert_cause c [] = c ∷ []
  insert_cause c (d ∷ ds) =
      let rest = insert_cause c ds in if leb c.rank d.rank then c ∷ d ∷ ds else d ∷ rest

  abbrev pub by_rank : List (CandidateCause W) → List (CandidateCause W)
  by_rank [] = []
  by_rank (c ∷ cs) = insert_cause c (by_rank cs)

  unfoldable pub get_candidates_for_evaluation : ℕ → Action (Database W) (List (CandidateCause W))
  get_candidates_for_evaluation evaluation_id =
      gets (λ db. by_rank (select (caused_by evaluation_id) db.rca_candidate_causes))

  unfoldable pub append_evaluation : RootCauseAnalysisEvaluation → Action (Database W) (Unit {0})
  append_evaluation e db =
      if exists (find (evaluation_clashes e) db.rca_evaluations)
      then (err integrity_error, db)
      else (ok tt, record db { rca_evaluations = db.rca_evaluations ++ e ∷ [] })

  abbrev pub same_cause : CandidateCause W → CandidateCause W → Bool
  same_cause a b = a.candidate_id == b.candidate_id

  -- The primary key and fk_candidate_cause_evaluation
  abbrev pub cause_is_refused : CandidateCause W → Database W → Bool
  cause_is_refused c db =
      exists (find (same_cause c) db.rca_candidate_causes)
      || not (exists (find (has_id c.evaluation_id) db.rca_evaluations))

  unfoldable pub append_candidate_causes : List (CandidateCause W) → Action (Database W) (Unit {0})
  append_candidate_causes [] db = (ok tt, db)
  append_candidate_causes (c ∷ cs) db =
      let rest =
        append_candidate_causes cs
          (record db { rca_candidate_causes = db.rca_candidate_causes ++ c ∷ [] }) in
      if cause_is_refused c db then (err integrity_error, db) else rest

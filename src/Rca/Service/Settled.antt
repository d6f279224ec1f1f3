-- ===== src/Rca/Service/Settled.antt =====
-- What the steps of an evaluation (src/core/rca/service.py) leave: nothing new, or a latest evaluation with
-- their fingerprint.
use revenue_degradation_reco.Prelude.{
  ℕ, ◌+◌, ◌<◌, ◌≡◌, refl, ap, ◌∙◌, ◌⊎◌, String, List, [], ◌∷◌, ◌++◌, true, inl, inr, arith,
  Bool-cases, find, All, eq_refl, ==_refl,
}
use revenue_degradation_reco.Errors.{Error, Result, ok, err, integrity_error}
use revenue_degradation_reco.Action.{Action, lift, ◌>>=◌}
use revenue_degradation_reco.Store.{Database}
use revenue_degradation_reco.Degradation.Models.{DegradationEpisode}
use revenue_degradation_reco.Attempts.Registry.{exists}
use revenue_degradation_reco.Attribution.Repository.{latest}
use revenue_degradation_reco.Attribution.Repository.Latest.{latest_last}
use revenue_degradation_reco.Rca.Models.{
  RcaClassification, unknown, RootCauseAnalysisEvaluation, CandidateCause,
}
use revenue_degradation_reco.Rca.Repository.{
  of_episode, max_version, evaluation_clashes, cause_is_refused, append_evaluation,
  append_candidate_causes, get_max_evaluation_version, get_latest_evaluation_for_episode,
}
use revenue_degradation_reco.Rca.Service.{
  RcaNames, Window, new_evaluation, persist_unknown_with_fingerprint, is_same, unless_same,
  persist_unknown, fingerprint_of,
}
use revenue_degradation_reco.Rca.Service.Reads.{with_rca}

max_version_bounds :
    (id : ℕ) (es : List RootCauseAnalysisEvaluation) (n : ℕ)
    → max_version id es < n
    → All
        (λ (e : RootCauseAnalysisEvaluation). of_episode id e ≡ true → e.evaluation_version < n)
        es
max_version_bounds id [] n h = tt
max_version_bounds id (e ∷ es) n h =
    ((λ hit. ground arith), max_version_bounds id es n (ground arith))

module _ {W : Type 0} (names : RcaNames) (now : ℕ) (episode : DegradationEpisode W) where
  -- The latest evaluation of the episode has the fingerprint.
  abbrev pub IsSettled : String → List RootCauseAnalysisEvaluation → Type 0
  IsSettled fingerprint es =
      is_same names now episode fingerprint (
        latest (λ (e : RootCauseAnalysisEvaluation). e.evaluation_version)
          (of_episode episode.episode_id) es)
      ≡ true

  -- A call that raises, or leaves an evaluation with the fingerprint as the latest.
  unfoldable pub Settles : String → Database W → Result (Unit {0}) × Database W → Type 0
  Settles fingerprint db r =
      ((x : Error) × (r.0 ≡ err x))
      ⊎ ((es : List RootCauseAnalysisEvaluation) × (cs : List (CandidateCause W)) × (r
            ≡ (ok tt, with_rca es cs db))
          × IsSettled fingerprint es)

  -- The evaluation that comes next.
  abbrev pub next_evaluation :
      RcaClassification → Window → String → Database W → RootCauseAnalysisEvaluation
  next_evaluation classification w fingerprint db =
      new_evaluation names now episode classification w fingerprint
        (max_version episode.episode_id db.rca_evaluations + 1)

  pub next-IsSettled :
      (classification : RcaClassification) (w : Window) (fingerprint : String) (db : Database W)
      → IsSettled fingerprint
          (db.rca_evaluations ++ next_evaluation classification w fingerprint db ∷ [])
  next-IsSettled classification w fingerprint db =
      let found =
        latest_last (λ (e : RootCauseAnalysisEvaluation). e.evaluation_version)
          (of_episode episode.episode_id) db.rca_evaluations
          (next_evaluation classification w fingerprint db) (==_refl episode.episode_id)
          (max_version_bounds episode.episode_id db.rca_evaluations
            (max_version episode.episode_id db.rca_evaluations + 1) (omega arith)) in
      ap (is_same names now episode fingerprint) found ∙ eq_refl fingerprint

  -- The causes come after it.
  append_causes-Settles :
      (fingerprint : String) (cs : List (CandidateCause W)) (es : List RootCauseAnalysisEvaluation)
      (before : List (CandidateCause W)) (db : Database W)
      → IsSettled fingerprint es
      → Settles fingerprint db (append_candidate_causes cs (with_rca es before db))
  unfolding append_candidate_causes Settles
  append_causes-Settles fingerprint [] es before db settled = inr (es, before, refl, settled)
  append_causes-Settles fingerprint (c ∷ cs) es before db settled =
      elim (Bool-cases (cause_is_refused c (with_rca es before db))) [
        | inl refused ↦ rw refused (inl (integrity_error, refl))
        | inr stored ↦
            rw stored (append_causes-Settles fingerprint cs es (before ++ c ∷ []) db settled)
      ]

  pub lifted-Settles :
      (fingerprint : String) (r : Result (List (CandidateCause W)))
      (es : List RootCauseAnalysisEvaluation) (before : List (CandidateCause W)) (db : Database W)
      → IsSettled fingerprint es
      → Settles fingerprint db
          ((lift r >>= λ causes. append_candidate_causes causes) (with_rca es before db))
  lifted-Settles fingerprint (ok causes) es before db settled =
      append_causes-Settles fingerprint causes es before db settled
  lifted-Settles fingerprint (err x) es before db settled = unfold Settles in inl (x, refl)

  pub unknown-Settles :
      (w : Window) (fingerprint : String) (db : Database W)
      → Settles fingerprint db (persist_unknown_with_fingerprint names now episode w fingerprint db)
  unfolding persist_unknown_with_fingerprint get_max_evaluation_version append_evaluation Settles
  unknown-Settles w fingerprint db =
      elim (Bool-cases (
        exists (
          find (evaluation_clashes (next_evaluation unknown w fingerprint db))
            db.rca_evaluations))) [
              | inl clash ↦ rw clash (inl (integrity_error, refl))
              | inr free ↦
                  rw free (
                    inr (_, db.rca_candidate_causes, refl, next-IsSettled unknown w fingerprint db))
            ]

  pub unless_same-Settles :
      (fingerprint : String) (persist : Action (Database W) (Unit {0})) (db : Database W)
      → Settles fingerprint db (persist db)
      → Settles fingerprint db (unless_same names now episode fingerprint persist db)
  unfolding unless_same get_latest_evaluation_for_episode
  unless_same-Settles fingerprint persist db settles =
      elim (Bool-cases (
        is_same names now episode fingerprint (
          latest (λ (e : RootCauseAnalysisEvaluation). e.evaluation_version)
            (of_episode episode.episode_id) db.rca_evaluations))) [
              | inl same ↦
                  rw same (
                    unfold Settles in inr (db.rca_evaluations, db.rca_candidate_causes, refl, same))
              | inr other ↦ rw other settles
            ]

  pub persist_unknown-Settles :
      (w : Window) (db : Database W)
      → Settles (fingerprint_of names now episode w []) db (persist_unknown names now episode w db)
  unfolding persist_unknown
  persist_unknown-Settles w db =
      unless_same-Settles (fingerprint_of names now episode w []) _ db
        (unknown-Settles w (fingerprint_of names now episode w []) db)

  -- Where the latest evaluation has the fingerprint nothing happens.
  pub unless_settled :
      (fingerprint : String) (persist : Action (Database W) (Unit {0})) (db : Database W)
      → IsSettled fingerprint db.rca_evaluations
      → unless_same names now episode fingerprint persist db ≡ (ok tt, db)
  unfolding unless_same get_latest_evaluation_for_episode
  unless_settled fingerprint persist db settled = rw settled refl

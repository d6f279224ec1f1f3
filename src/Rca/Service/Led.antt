-- ===== src/Rca/Service/Led.antt =====
-- Every evaluation of src/core/rca/service.py leaves at most one first cause.
use mathlib.Core.Path.{subst}
use revenue_degradation_reco.Prelude.{
  ℕ, suc, ◌≡◌, refl, sym, String, Option, none, some, List, [], ◌∷◌, ◌++◌, inl, inr, arith,
  Bool-cases, find, count_if, ltb,
}
use revenue_degradation_reco.Prelude.Float.{Float}
use revenue_degradation_reco.Errors.{Result, ok, err}
use revenue_degradation_reco.Action.{Action, pure, lift, ◌>>=◌}
use revenue_degradation_reco.Action.Keeps.{Keeps, Keeps-bind, Keeps-if}
use revenue_degradation_reco.Store.{Database}
use revenue_degradation_reco.Degradation.Models.{DegradationEpisode}
use revenue_degradation_reco.Attempts.Registry.{exists}
use revenue_degradation_reco.Rca.Models.{
  RcaClassification, EvidenceStrength, RootCauseAnalysisEvaluation, CandidateCause,
  min_failures_for_rca_evaluation,
}
use revenue_degradation_reco.Rca.Ranking.{StructuralResult}
use revenue_degradation_reco.Rca.Repository.{
  evaluation_clashes, append_evaluation, append_candidate_causes, get_max_evaluation_version,
  get_latest_evaluation_for_episode,
}
use revenue_degradation_reco.Rca.Service.{
  RcaNames, Window, get_window, add_cause, causes_from, persist_unknown_with_fingerprint, is_same,
  unless_same, persist_unknown, persist_candidates, judge, evaluate_results, evaluate_window,
  evaluate_episode, get_hist_snapshot_for_dim, fingerprint_of, failures_of, is_invalidated,
  started_window,
}
use revenue_degradation_reco.Rca.Service.Reads.{get_window-Reads}
use revenue_degradation_reco.Rca.Service.Causes.{
  leads, IsLed, IsRankedFrom, IsOwned-after, uncaused, unseen, append_candidate_causes-IsLed,
}

module _ {W : Type 0} (names : RcaNames) (now : ℕ) (episode : DegradationEpisode W) where
  -- The causes have the ranks from the given one on.
  IsRanked : ℕ → ℕ → Result (List (CandidateCause W)) → Type 0
  IsRanked id k (ok causes) = IsRankedFrom id k causes
  IsRanked id k (err x) = Unit

  add_cause-IsRanked :
      (id k : ℕ) (c : CandidateCause W) (later : Result (List (CandidateCause W)))
      → c.evaluation_id ≡ id
      → c.rank ≡ k
      → IsRanked id (suc k) later
      → IsRanked id k (add_cause names now episode c later)
  unfolding IsRanked
  add_cause-IsRanked id k c (ok causes) same rank p = (same, rank, p)
  add_cause-IsRanked id k c (err x) same rank p = tt

  causes_from-IsRanked :
      (id k : ℕ) (rs : List (StructuralResult W))
      → IsRanked id k (causes_from names now episode id k rs)
  unfolding IsRanked
  causes_from-IsRanked id k [] = tt
  causes_from-IsRanked id k (r ∷ rs) = go r.evidence_strength (causes_from-IsRanked id (suc k) rs)
    where
      go :
          (strength : Option EvidenceStrength)
          → IsRanked id (suc k) (causes_from names now episode id (suc k) rs)
          → IsRanked id k
              (causes_from names now episode id k (record r { evidence_strength = strength } ∷ rs))
      go none later = tt
      go (some s) later =
          add_cause-IsRanked id k _ (causes_from names now episode id (suc k) rs) refl refl later

  -- An evaluation alone changes no cause.
  append_evaluation-IsLed :
      (e : RootCauseAnalysisEvaluation) → Keeps (IsLed {W = W}) (append_evaluation e)
  unfolding append_evaluation
  append_evaluation-IsLed e db led =
      elim (Bool-cases (exists (find (evaluation_clashes e) db.rca_evaluations))) [
        | inl clash ↦ rw clash led
        | inr free ↦
            rw free (IsOwned-after db.rca_evaluations e db.rca_candidate_causes led.0, led.1)
      ]

  lifted-IsLed :
      (id : ℕ) (r : Result (List (CandidateCause W))) (db : Database W)
      → IsRanked id 1 r
      → IsLed db
      → count_if (leads id) db.rca_candidate_causes ≡ 0
      → IsLed ((lift r >>= λ causes. append_candidate_causes causes) db).1
  unfolding IsRanked
  lifted-IsLed id (ok causes) db ranked led ready =
      append_candidate_causes-IsLed id 1 causes db (omega arith) ranked led (λ first. ready)
  lifted-IsLed id (err x) db ranked led ready = led

  -- An evaluation with its causes.
  stored-IsLed :
      (e : RootCauseAnalysisEvaluation) (rs : List (StructuralResult W))
      → Keeps (IsLed {W = W}) (
          append_evaluation e >>= λ appended.
          lift (causes_from names now episode e.evaluation_id 1 rs) >>= λ causes.
          append_candidate_causes causes)
  unfolding append_evaluation IsRanked
  stored-IsLed e rs db led =
      elim (Bool-cases (exists (find (evaluation_clashes e) db.rca_evaluations))) [
        | inl clash ↦ rw clash led
        | inr free ↦ rw free (
            lifted-IsLed e.evaluation_id (causes_from names now episode e.evaluation_id 1 rs)
              (record db { rca_evaluations = db.rca_evaluations ++ e ∷ [] })
              (causes_from-IsRanked e.evaluation_id 1 rs)
              (IsOwned-after db.rca_evaluations e db.rca_candidate_causes led.0, led.1)
              (uncaused e.evaluation_id db.rca_evaluations db.rca_candidate_causes
                (unseen e db.rca_evaluations free) led.0))
      ]

  unknown-IsLed :
      (w : Window) (fingerprint : String)
      → Keeps (IsLed {W = W}) (persist_unknown_with_fingerprint names now episode w fingerprint)
  unfolding persist_unknown_with_fingerprint get_max_evaluation_version
  unknown-IsLed w fingerprint db led = append_evaluation-IsLed _ db led

  unless_same-IsLed :
      (fingerprint : String) (persist : Action (Database W) (Unit {0}))
      → Keeps (IsLed {W = W}) persist
      → Keeps (IsLed {W = W}) (unless_same names now episode fingerprint persist)
  unfolding unless_same get_latest_evaluation_for_episode
  unless_same-IsLed fingerprint persist keeps db led =
      Keeps-if IsLed (is_same names now episode fingerprint _) (pure tt) persist (λ s k. k) keeps db
        led

  persist_unknown-IsLed : (w : Window) → Keeps (IsLed {W = W}) (persist_unknown names now episode w)
  unfolding persist_unknown
  persist_unknown-IsLed w =
      unless_same-IsLed (fingerprint_of names now episode w [])
        (persist_unknown_with_fingerprint names now episode w
          (fingerprint_of names now episode w []))
        (unknown-IsLed w (fingerprint_of names now episode w []))

module _ {W : Type 0} ⦃f : Float W⦄ (names : RcaNames) (now : ℕ)
    (episode : DegradationEpisode W) where
  persist_candidates-IsLed :
      (w : Window) (fingerprint : String) (classification : RcaClassification)
      (ranked : List (StructuralResult W))
      → Keeps
          (IsLed {W = W})
          (persist_candidates names now episode w fingerprint classification ranked)
  unfolding persist_candidates get_max_evaluation_version
  persist_candidates-IsLed w fingerprint classification ranked db led =
      stored-IsLed names now episode _ ranked db led

  judge-IsLed :
      (w : Window) (fingerprint : String) (results : List (StructuralResult W)) (total : W)
      → Keeps (IsLed {W = W}) (judge names now episode w fingerprint results total)
  unfolding judge
  judge-IsLed w fingerprint results total =
      Keeps-if IsLed (f.le total (f.lit 0 1)) _ _ (unknown-IsLed names now episode w fingerprint)
        (persist_candidates-IsLed w fingerprint _ _)

  evaluate_results-IsLed :
      (w : Window) (starts : List ℕ) (results : List (StructuralResult W))
      → Keeps (IsLed {W = W}) (evaluate_results names now episode w starts results)
  unfolding evaluate_results get_hist_snapshot_for_dim
  evaluate_results-IsLed w starts results =
      unless_same-IsLed names now episode _ _ (λ db led. judge-IsLed w _ results _ db led)

  evaluate_window-IsLed : (w : Window) → Keeps (IsLed {W = W}) (evaluate_window names now episode w)
  unfolding evaluate_window
  evaluate_window-IsLed w =
      Keeps-if IsLed (ltb (failures_of w) min_failures_for_rca_evaluation) _ _
        (unless_same-IsLed names now episode _ _ (persist_unknown-IsLed names now episode w))
        (λ db led. evaluate_results-IsLed w _ _ db led)

  get_window-Keeps : Keeps (IsLed {W = W}) (get_window episode)
  get_window-Keeps db led = subst IsLed (sym (get_window-Reads episode db)) led

  -- Where every cause has its evaluation and every evaluation at most one cause of rank 1, an evaluation of
  -- an episode leaves it so, whether it returns or raises.
  pub evaluate_episode-IsLed :
      (db : Database W) → IsLed db → IsLed (evaluate_episode names now episode db).1
  unfolding evaluate_episode
  evaluate_episode-IsLed =
      Keeps-if IsLed (is_invalidated names now episode episode.status) _ _
        (persist_unknown-IsLed names now episode (started_window names now episode))
        (Keeps-bind IsLed (get_window episode) (λ w. evaluate_window names now episode w)
          get_window-Keeps (λ w. evaluate_window-IsLed w))

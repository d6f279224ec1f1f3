-- ===== src/Rca/Service/Causes.antt =====
-- The candidate causes that src/core/rca/service.py stores: each belongs to an evaluation, and an evaluation
-- has at most one first cause.
use revenue_degradation_reco.Prelude.{
  ℕ, suc, ◌≤◌, ◌<◌, ◌≡◌, refl, List, [], ◌∷◌, ◌++◌, Bool, true, false, ◌==◌, ◌&&◌, inl, inr, arith,
  Bool-cases, find, count_if, All, ==_iff,
}
use revenue_degradation_reco.Store.{Database}
use revenue_degradation_reco.Attempts.Registry.{exists}
use revenue_degradation_reco.Execution.Repository.Rows.{count-append}
use revenue_degradation_reco.Rca.Models.{RootCauseAnalysisEvaluation, CandidateCause}
use revenue_degradation_reco.Rca.Repository.{
  evaluation_clashes, has_id, cause_is_refused, append_candidate_causes,
}

exists-append :
    (p : RootCauseAnalysisEvaluation → Bool) (es : List RootCauseAnalysisEvaluation)
    (e : RootCauseAnalysisEvaluation)
    → exists (find p es) ≡ true
    → exists (find p (es ++ e ∷ [])) ≡ true
exists-append p [] e h = absurd (ground arith)
exists-append p (x ∷ es) e h = ground (arith, exists-append p es e)

-- An evaluation that does not clash has an identifier that no other has.
pub unseen :
    (e : RootCauseAnalysisEvaluation) (es : List RootCauseAnalysisEvaluation)
    → exists (find (evaluation_clashes e) es) ≡ false
    → exists (find (has_id e.evaluation_id) es) ≡ false
unseen e [] h = refl
unseen e (x ∷ es) h = ground (arith, unseen e es)

module _ {W : Type 0} where
  -- The first cause of an evaluation.
  abbrev pub leads : ℕ → CandidateCause W → Bool
  leads id c = c.evaluation_id == id && c.rank == 1

  -- Every cause belongs to an evaluation, and no evaluation has two causes of rank 1.
  abbrev pub IsOwned : List RootCauseAnalysisEvaluation → List (CandidateCause W) → Type 0
  IsOwned evaluations causes =
      All (λ (c : CandidateCause W). exists (find (has_id c.evaluation_id) evaluations) ≡ true)
        causes

  abbrev pub IsSingle : List (CandidateCause W) → Type 0
  IsSingle causes = (id : ℕ) → count_if (leads id) causes ≤ 1

  abbrev pub IsLed : Database W → Type 0
  IsLed db = IsOwned db.rca_evaluations db.rca_candidate_causes × IsSingle db.rca_candidate_causes

  pub IsOwned-after :
      (es : List RootCauseAnalysisEvaluation) (e : RootCauseAnalysisEvaluation)
      (cs : List (CandidateCause W))
      → IsOwned es cs
      → IsOwned (es ++ e ∷ []) cs
  IsOwned-after es e [] p = tt
  IsOwned-after es e (c ∷ cs) p =
      (exists-append (has_id c.evaluation_id) es e p.0, IsOwned-after es e cs p.1)

  IsOwned-with :
      (es : List RootCauseAnalysisEvaluation) (cs : List (CandidateCause W)) (c : CandidateCause W)
      → IsOwned es cs
      → exists (find (has_id c.evaluation_id) es) ≡ true
      → IsOwned es (cs ++ c ∷ [])
  IsOwned-with es [] c p q = (q, tt)
  IsOwned-with es (x ∷ cs) c p q = (p.0, IsOwned-with es cs c p.1 q)

  -- An identifier that no evaluation has, no cause has.
  pub uncaused :
      (id : ℕ) (es : List RootCauseAnalysisEvaluation) (cs : List (CandidateCause W))
      → exists (find (has_id id) es) ≡ false
      → IsOwned es cs
      → count_if (leads id) cs ≡ 0
  uncaused id es [] h p = refl
  uncaused id es (c ∷ cs) h p = elim (Bool-cases (c.evaluation_id == id)) [
    | inl same ↦
        let equal = (==_iff c.evaluation_id id).0 same in
        absurd (ground (arith, h, (rw equal at p.0)))
    | inr other ↦ ground (arith, other, uncaused id es cs h p.1)
  ]

  -- Causes of one evaluation with the ranks from k on.
  abbrev pub IsRankedFrom : ℕ → ℕ → List (CandidateCause W) → Type 0
  IsRankedFrom id k [] = Unit
  IsRankedFrom id k (c ∷ cs) = (c.evaluation_id ≡ id) × (c.rank ≡ k) × IsRankedFrom id (suc k) cs

  -- No cause of rank 1 is there before the first.
  abbrev pub IsReady : ℕ → ℕ → List (CandidateCause W) → Type 0
  IsReady id k causes = k ≡ 1 → count_if (leads id) causes ≡ 0

  IsSingle-with :
      (id k : ℕ) (c : CandidateCause W) (causes : List (CandidateCause W))
      → c.evaluation_id ≡ id
      → c.rank ≡ k
      → IsSingle causes
      → IsReady id k causes
      → IsSingle (causes ++ c ∷ [])
  IsSingle-with id k c causes same rank single ready j =
      let added = count-append (leads j) causes c in
      elim (Bool-cases (leads j c)) [
        | inl first ↦
            let j_is : j ≡ id = ground arith in
            let none_yet : count_if (leads j) causes ≡ 0 = rw j_is (ready (ground arith)) in
            ground (arith, added, first, none_yet)
        | inr other ↦ ground (arith, added, other, single j)
      ]

  pub append_candidate_causes-IsLed :
      (id k : ℕ) (cs : List (CandidateCause W)) (db : Database W)
      → 0 < k
      → IsRankedFrom id k cs
      → IsLed db
      → IsReady id k db.rca_candidate_causes
      → IsLed (append_candidate_causes cs db).1
  unfolding append_candidate_causes
  append_candidate_causes-IsLed id k [] db some_rank ranked led ready = led
  append_candidate_causes-IsLed id k (c ∷ cs) db some_rank ranked led ready =
      elim (Bool-cases (cause_is_refused c db)) [
        | inl refused ↦ rw refused led
        | inr stored ↦ rw stored (
            append_candidate_causes-IsLed id (suc k) cs
              (record db { rca_candidate_causes = db.rca_candidate_causes ++ c ∷ [] }) (omega arith)
              ranked.2
              (
                IsOwned-with db.rca_evaluations db.rca_candidate_causes c led.0 (ground arith),
                IsSingle-with id k c db.rca_candidate_causes ranked.0 ranked.1 led.1 ready,
              )
              (λ first. absurd (omega arith)))
      ]

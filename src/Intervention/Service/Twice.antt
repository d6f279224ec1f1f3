-- ===== src/Intervention/Service/Twice.antt =====
-- decide (src/core/intervention/service.py) called twice with the same inputs.
use mathlib.Core.Path.{subst}
use revenue_degradation_reco.Prelude.{
  ℕ, ◌≡◌, sym, ap, ◌∙◌, inl, inr, String, Option, none, some, [], ◌∷◌, ◌++◌, arith, Bool-cases,
}
use revenue_degradation_reco.Prelude.Float.{Float}
use revenue_degradation_reco.Action.Keeps.{continue_read}
use revenue_degradation_reco.Errors.{Result, ok, err}
use revenue_degradation_reco.Store.{Database}
use revenue_degradation_reco.Attempts.Identity.{AttemptRef}
use revenue_degradation_reco.Attribution.Repository.{latest, validated}
use revenue_degradation_reco.Intervention.Models.{InterventionDecision}
use revenue_degradation_reco.Intervention.Policy.{InterventionPolicy}
use revenue_degradation_reco.Intervention.Repository.{get_latest_decision}
use revenue_degradation_reco.Intervention.Context.{DecisionNames, Context, gather}
use revenue_degradation_reco.Intervention.Service.{decide_new, unless_unchanged, unchanged, decide}
use revenue_degradation_reco.Intervention.Service.Reads.{
  validated-IsBlind, gather-IsBlind, IsBlind-Reads, validated_cases, query-Reads, with_decisions,
}
use revenue_degradation_reco.Intervention.Service.Settled.{
  Stored, Ends, decide_new-Ends, settled, found_last,
}

module _ {W : Type 0} ⦃f : Float W⦄ (names : DecisionNames W) (policy : InterventionPolicy W)
    (attempt : AttemptRef) (t_decide : ℕ) where
  -- A stored decision, found again at a later time.
  found_again :
      (now later : ℕ) (c : Context W) (db : Database W)
      (r : Result (InterventionDecision W) × Database W) (d : InterventionDecision W)
      (db' : Database W)
      → validated {W = W} (some attempt.source_system) db ≡ (ok (some attempt.source_system), db)
      → gather attempt t_decide db ≡ (ok c, db)
      → Ends names policy now attempt t_decide c db r
      → r ≡ (ok d, db')
      → decide names policy later attempt t_decide db' ≡ (ok d, db')
  unfolding Ends Stored
  found_again now later c db r d db' known gathered (inl (x, raised)) e =
      absurd (ground (arith, raised, e))
  found_again now later c db r d db' known gathered (inr (d', stored, same, own, below)) e =
      let both : (ok d', with_decisions (db.intervention_decisions ++ d' ∷ []) db) ≡ (ok d, db') =
        sym stored ∙ e in
      let known_after =
        validated-IsBlind {W = W} (some attempt.source_system)
          (db.intervention_decisions ++ d' ∷ []) db
        ∙ ap
            (λ (q : Result (Option String) × Database W).
              (q.0, with_decisions (db.intervention_decisions ++ d' ∷ []) db))
            known in
      subst
        (λ (q : Result (InterventionDecision W) × Database W).
          decide names policy later attempt t_decide q.1 ≡ q)
        both
        (settled names policy later attempt t_decide c d'
          (with_decisions (db.intervention_decisions ++ d' ∷ []) db)
          (gather-IsBlind attempt t_decide (db.intervention_decisions ++ d' ∷ []) db
            ∙ ap
                (λ (q : Result (Context W) × Database W).
                  (q.0, with_decisions (db.intervention_decisions ++ d' ∷ []) db))
                gathered)
          (found_last names policy later attempt t_decide c db d' known_after own below) same)

  -- The latest decision that a call read.
  answered :
      (now later : ℕ) (c : Context W) (latest : Option (InterventionDecision W)) (db : Database W)
      (d : InterventionDecision W) (db' : Database W)
      → validated {W = W} (some attempt.source_system) db ≡ (ok (some attempt.source_system), db)
      → gather attempt t_decide db ≡ (ok c, db)
      → get_latest_decision attempt.payment_attempt_id (some attempt.source_system) db
        ≡ (ok latest, db)
      → unless_unchanged names policy now attempt t_decide c latest db ≡ (ok d, db')
      → decide names policy later attempt t_decide db' ≡ (ok d, db')
  unfolding unless_unchanged
  answered now later c none db d db' known gathered found e =
      found_again now later c db (decide_new names policy now attempt t_decide c db) d db' known
        gathered (decide_new-Ends names policy now attempt t_decide c db) e
  answered now later c (some old) db d db' known gathered found e =
      elim (Bool-cases (unchanged names policy now attempt t_decide c (some old))) [
        | inl same ↦
            let kept : (ok old, db) ≡ (ok d, db') = rw same at e in
            subst
              (λ (q : Result (InterventionDecision W) × Database W).
                decide names policy later attempt t_decide q.1 ≡ q)
              kept (settled names policy later attempt t_decide c old db gathered found same)
        | inr changed ↦
            let fresh : decide_new names policy now attempt t_decide c db ≡ (ok d, db') =
              rw changed at e in
            found_again now later c db (decide_new names policy now attempt t_decide c db) d db'
              known gathered (decide_new-Ends names policy now attempt t_decide c db) fresh
      ]

  -- Calling decide again for the same attempt and instant, however much later, returns the decision that
  -- the first call returned and stores nothing.
  pub decide-settled :
      (now later : ℕ) (db : Database W) (d : InterventionDecision W) (db' : Database W)
      → decide names policy now attempt t_decide db ≡ (ok d, db')
      → decide names policy later attempt t_decide db' ≡ (ok d, db')
  unfolding decide get_latest_decision
  decide-settled now later db d db' h =
      let (c, gathered, looked) =
        continue_read (gather attempt t_decide db) _ d db db'
          (IsBlind-Reads (gather attempt t_decide) (gather-IsBlind attempt t_decide) db) h in
      let (latest, found, chose) =
        continue_read
          (get_latest_decision attempt.payment_attempt_id (some attempt.source_system) db)
          (unless_unchanged names policy now attempt t_decide c) d db db'
          (query-Reads (some attempt.source_system) _ db) looked in
      elim (validated_cases attempt.source_system db) [
        | inl known ↦ answered now later c latest db d db' known gathered found chose
        | inr (x, foreign) ↦
            let raised : (err x, db) ≡ (ok latest, db) = rw foreign at found in
            absurd (ground (arith, raised))
      ]

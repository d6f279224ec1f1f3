-- ===== src/Intervention/Service/Settled.antt =====
-- What the steps of decide (src/core/intervention/service.py) leave: a latest decision with the fingerprint
-- of their inputs.
use mathlib.Core.Path.{subst}
use revenue_degradation_reco.Prelude.{
  All, ℕ, ◌+◌, ◌<◌, ◌≡◌, refl, sym, ap, ◌∙◌, ◌⊎◌, inl, inr, Option, some, List, [], ◌∷◌, ◌++◌, Bool,
  true, not, ◌&&◌, ◌||◌, find, arith, Bool-cases, eq_refl,
}
use revenue_degradation_reco.Prelude.Float.{Float}
use revenue_degradation_reco.Action.{Action, continue, pure, gets, ◌>>=◌}
use revenue_degradation_reco.Errors.{Error, integrity_error, Result, ok, err}
use revenue_degradation_reco.Store.{Database}
use revenue_degradation_reco.Attempts.Identity.{AttemptRef}
use revenue_degradation_reco.Attempts.Registry.{exists}
use revenue_degradation_reco.Attribution.Repository.{latest, validated}
use revenue_degradation_reco.Attribution.Repository.Latest.{latest_last}
use revenue_degradation_reco.Intervention.Models.{CandidateRouteScore, InterventionDecision}
use revenue_degradation_reco.Intervention.Policy.{InterventionPolicy}
use revenue_degradation_reco.Intervention.Calculator.{Verdict, probability_of}
use revenue_degradation_reco.Intervention.Ranking.{best_candidate}
use revenue_degradation_reco.Intervention.Repository.{
  get_max_decision_version, get_latest_decision, append_decision, decision_clashes, is_registered,
  max_version, decision_under, count_recent_act_decisions,
}
use revenue_degradation_reco.Intervention.Context.{
  DecisionNames, Context, gather, hard_gates, probability_in,
}
use revenue_degradation_reco.Intervention.Service.{
  new_decision, persist, admit, choose, decide_new, unless_unchanged, unchanged, decide,
  score_routes, is_none,
}
use revenue_degradation_reco.Intervention.Service.Reads.{validated_cases, with_decisions}
use revenue_degradation_reco.Intervention.Service.Vetting.{score_routes-Reads}
use revenue_degradation_reco.Execution.Service.{is_act, is_passed}

module _ {W : Type 0} where
  max_version_bounds :
      (p : InterventionDecision W → Bool) (xs : List (InterventionDecision W)) (n : ℕ)
      → max_version p xs < n
      → All (λ (x : InterventionDecision W). p x ≡ true → x.decision_version < n) xs
  max_version_bounds p [] n h = tt
  max_version_bounds p (x ∷ xs) n h =
      ((λ hit. ground arith), max_version_bounds p xs n (ground arith))

module _ {W : Type 0} ⦃f : Float W⦄ (names : DecisionNames W) (policy : InterventionPolicy W)
    (now : ℕ) (attempt : AttemptRef) (t_decide : ℕ) where
  abbrev is_own : Database W → InterventionDecision W → Bool
  is_own db =
      decision_under attempt.payment_attempt_id (some attempt.source_system) db.payment_attempts

  -- The decision that comes next.
  abbrev appended_as : Context W → Verdict W → Database W → InterventionDecision W
  appended_as c v db =
      new_decision names policy now attempt t_decide c v
        (max_version (is_own db) db.intervention_decisions + 1)

  -- What there is to know of a decision just stored.
  unfoldable pub Stored :
      Context W → Database W → Result (InterventionDecision W) × Database W → Type 0
  Stored c db r =
      (d : InterventionDecision W) × (r
        ≡ (ok d, with_decisions (db.intervention_decisions ++ d ∷ []) db))
      × (unchanged names policy now attempt t_decide c (some d) ≡ true)
      × (is_own db d ≡ true)
      × All
          (λ (x : InterventionDecision W).
            is_own db x ≡ true → x.decision_version < d.decision_version)
          db.intervention_decisions

  -- A call that raises, or stores a decision.
  unfoldable pub Ends :
      Context W → Database W → Result (InterventionDecision W) × Database W → Type 0
  Ends c db r = ((x : Error) × (r.0 ≡ err x)) ⊎ Stored c db r

  Ends-continue :
      {A : Type 0} (c : Context W) (db : Database W) (r : Result A × Database W)
      (k : A → Action (Database W) (InterventionDecision W))
      → r.1 ≡ db
      → ((a : A) → Ends c db (k a db))
      → Ends c db (continue r k)
  Ends-continue c db (ok a, s) k e ends = subst (λ t. Ends c db (k a t)) (sym e) (ends a)
  Ends-continue c db (err x, s) k e ends = unfold Ends in inl (x, refl)

  appended-Ends :
      (c : Context W) (v : Verdict W) (db : Database W)
      → Ends c db ((append_decision (appended_as c v db) >>= λ _. pure (appended_as c v db)) db)
  unfolding append_decision Ends Stored
  appended-Ends c v db =
      let d = appended_as c v db in
      elim (Bool-cases (
        exists (find (decision_clashes d) db.intervention_decisions)
        || not (is_registered d.payment_attempt_id d.source_system db.payment_attempts))) [
          | inl refused ↦ rw refused (inl (integrity_error, refl))
          | inr stored ↦ rw stored (
              inr (
                d,
                refl,
                eq_refl _,
                ground (arith, eq_refl attempt.payment_attempt_id, eq_refl attempt.source_system),
                max_version_bounds (is_own db) db.intervention_decisions d.decision_version
                    (omega arith),
              ))
        ]

  persist-Ends :
      (c : Context W) (v : Verdict W) (db : Database W)
      → Ends c db (persist names policy now attempt t_decide c v db)
  unfolding persist get_max_decision_version Ends
  persist-Ends c v db = elim (validated_cases attempt.source_system db) [
    | inl known ↦ rw known (appended-Ends c v db)
    | inr (x, foreign) ↦ rw foreign (inl (x, refl))
  ]

  admitted-Ends :
      (c : Context W) (v : Verdict W) (db : Database W)
      → Ends c db (
          (admit names policy now attempt t_decide v >>= λ admitted.
          persist names policy now attempt t_decide c admitted)
            db)
  unfolding admit count_recent_act_decisions
  admitted-Ends c v db = elim (Bool-cases (is_act v.decision_type)) [
    | inl acting ↦ rw acting (persist-Ends c _ db)
    | inr rests ↦ rw rests (persist-Ends c v db)
  ]

  choose-Ends :
      (c : Context W) (best : Option (CandidateRouteScore W)) (db : Database W)
      → Ends c db (choose names policy now attempt t_decide c best db)
  unfolding choose
  choose-Ends c best db =
      let p = probability_of (probability_in c.stage5_pred) in
      elim (Bool-cases
        (is_none names policy now attempt t_decide best && f.le policy.act_risk_threshold p)) [
          | inl none_fits ↦ rw none_fits (persist-Ends c _ db)
          | inr other ↦ rw other (admitted-Ends c _ db)
        ]

  pub decide_new-Ends :
      (c : Context W) (db : Database W)
      → Ends c db (decide_new names policy now attempt t_decide c db)
  unfolding decide_new
  decide_new-Ends c db = elim (Bool-cases (is_passed (hard_gates policy c))) [
    | inl through ↦ rw through (
        Ends-continue c db (score_routes names policy now attempt t_decide c policy.routes db)
          (λ scores. choose names policy now attempt t_decide c (best_candidate scores))
          (score_routes-Reads names policy now attempt t_decide c policy.routes db)
          (λ scores. choose-Ends c (best_candidate scores) db))
    | inr stopped ↦ rw stopped (persist-Ends c _ db)
  ]

  -- Where the latest decision has the fingerprint of what is gathered, it is the answer.
  pub settled :
      (c : Context W) (d : InterventionDecision W) (db : Database W)
      → gather attempt t_decide db ≡ (ok c, db)
      → get_latest_decision attempt.payment_attempt_id (some attempt.source_system) db
        ≡ (ok (some d), db)
      → unchanged names policy now attempt t_decide c (some d) ≡ true
      → decide names policy now attempt t_decide db ≡ (ok d, db)
  unfolding decide unless_unchanged
  settled c d db gathered found same = rw (gathered, found, same) refl

  -- The latest decision of a database to which one was added.
  pub found_last :
      (c : Context W) (db : Database W) (d : InterventionDecision W)
      → validated {W = W}
          (some attempt.source_system)
          (with_decisions (db.intervention_decisions ++ d ∷ []) db)
        ≡ (ok (some attempt.source_system), with_decisions (db.intervention_decisions ++ d ∷ []) db)
      → is_own db d ≡ true
      → All
          (λ (x : InterventionDecision W).
            is_own db x ≡ true → x.decision_version < d.decision_version)
          db.intervention_decisions
      → get_latest_decision attempt.payment_attempt_id
          (some attempt.source_system)
          (with_decisions (db.intervention_decisions ++ d ∷ []) db)
        ≡ (ok (some d), with_decisions (db.intervention_decisions ++ d ∷ []) db)
  unfolding get_latest_decision
  found_last c db d known own below =
      ap
        (λ r. continue r (λ s. gets (λ (db : Database W).
          latest (λ (d : InterventionDecision W). d.decision_version)
            (decision_under attempt.payment_attempt_id s db.payment_attempts)
            db.intervention_decisions)))
        known
      ∙ ap (λ o. (ok o, with_decisions (db.intervention_decisions ++ d ∷ []) db))
          (latest_last (λ (x : InterventionDecision W). x.decision_version) (is_own db)
            db.intervention_decisions d own below)

-- ===== src/Intervention/Service/Steps.antt =====
-- What one call of decide (src/core/intervention/service.py) does to the decisions stored.
use mathlib.Core.Path.{subst, sym}
use revenue_degradation_reco.Prelude.{
  ℕ, ◌+◌, ◌-◌, ◌<◌, ◌≡◌, refl, ap, String, Option, none, some, [], ◌∷◌, ◌++◌, false, not, ◌&&◌, inl,
  inr, leb, count_if, arith, Bool-cases, find, ◌||◌,
}
use revenue_degradation_reco.Prelude.Float.{Float}
use revenue_degradation_reco.Errors.{Result, ok, err}
use revenue_degradation_reco.Action.{continue, pure, ◌>>=◌}
use revenue_degradation_reco.Action.Keeps.{Leads-continue}
use revenue_degradation_reco.Store.{Database}
use revenue_degradation_reco.Attempts.Identity.{AttemptRef}
use revenue_degradation_reco.Attempts.Registry.{exists}
use revenue_degradation_reco.Intervention.Models.{
  act, passed, InterventionRouteKey, CandidateRouteScore, InterventionDecision,
}
use revenue_degradation_reco.Intervention.Policy.{InterventionPolicy}
use revenue_degradation_reco.Intervention.Calculator.{Verdict, determine_verdict, probability_of}
use revenue_degradation_reco.Intervention.Ranking.{best_candidate}
use revenue_degradation_reco.Intervention.Ranking.Choice.{best_candidate_inherits}
use revenue_degradation_reco.Intervention.Calculator.Decisions.{
  acts as can_act, acting_verdict, other_verdict, ignore_rests,
}
use revenue_degradation_reco.Intervention.Repository.{
  recent_act, recent_route, append_decision, decision_clashes, is_registered,
  get_max_decision_version, get_latest_decision, count_recent_act_decisions,
}
use revenue_degradation_reco.Intervention.Context.{
  DecisionNames, Context, gather, hard_gates, probability_in,
}
use revenue_degradation_reco.Intervention.History.{Step, idle, waits, acts, a_minute, cooldown}
use revenue_degradation_reco.Intervention.Service.{
  new_decision, persist, score_routes, admit, choose, decide_new, unless_unchanged, decide, is_none,
  unchanged,
}
use revenue_degradation_reco.Intervention.Service.Vetting.{
  MayAct, IsVettingAll, score_routes-IsVetting,
}
use revenue_degradation_reco.Intervention.Service.Reads.{IsBlind-Reads, gather-IsBlind, query-Reads}
use revenue_degradation_reco.Execution.Service.{is_act, is_passed}

module _ {W : Type 0} ⦃f : Float W⦄ (names : DecisionNames W) (policy : InterventionPolicy W)
    (now : ℕ) (attempt : AttemptRef) (t_decide : ℕ) where
  -- The decisions before and after.
  abbrev pub Steps : Database W → Database W → Type 0
  Steps db db' =
      Step policy.global_rate_limit_per_minute policy.routes db.intervention_decisions
        db'.intervention_decisions

  abbrev appended : Context W → Verdict W → ℕ → InterventionDecision W
  appended c v n = new_decision names policy now attempt t_decide c v n

  append_Steps :
      (d : InterventionDecision W) (db : Database W)
      → Step policy.global_rate_limit_per_minute policy.routes db.intervention_decisions
          (db.intervention_decisions ++ d ∷ [])
      → Steps db (append_decision d db).1
  unfolding append_decision
  append_Steps d db k =
      elim (Bool-cases (
        exists (find (decision_clashes d) db.intervention_decisions)
        || not (is_registered d.payment_attempt_id d.source_system db.payment_attempts))) [
          | inl refused ↦ rw refused idle
          | inr stored ↦ rw stored k
        ]

  -- What is stored has the version that comes next, whichever it is.
  persist-Steps :
      (c : Context W) (v : Verdict W) (db : Database W)
      → ((n : ℕ)
          → Step policy.global_rate_limit_per_minute policy.routes db.intervention_decisions
              (db.intervention_decisions ++ appended c v n ∷ []))
      → Steps db (persist names policy now attempt t_decide c v db).1
  unfolding persist get_max_decision_version
  persist-Steps c v db k =
      Leads-continue Steps
        (get_max_decision_version attempt.payment_attempt_id (some attempt.source_system) db)
        (λ n. append_decision (appended c v (n + 1)) >>= λ _. pure (appended c v (n + 1))) db
        (query-Reads (some attempt.source_system) _ db) idle
        (λ n _.
          last n (append_decision (appended c v (n + 1)) db)
            (append_Steps (appended c v (n + 1)) db (k (n + 1))))
    where
      last :
          (n : ℕ) (r : Result Unit × Database W)
          → Steps db r.1
          → Steps db (continue r (λ _. pure (appended c v (n + 1)))).1
      last n (ok a, s) h = h
      last n (err x, s) h = h

  resting_Steps :
      (c : Context W) (v : Verdict W) (db : Database W)
      → is_act v.decision_type ≡ false
      → Steps db (persist names policy now attempt t_decide c v db).1
  resting_Steps c v db h = persist-Steps c v db (λ n. waits (appended c v n) h)

  -- A verdict that may be stored, whichever version it gets.
  Allowed : Context W → Database W → Verdict W → Type 0
  Allowed c db v =
      (n : ℕ)
      → Step policy.global_rate_limit_per_minute policy.routes db.intervention_decisions
          (db.intervention_decisions ++ appended c v n ∷ [])

  resting-Allowed :
      (c : Context W) (db : Database W) (v : Verdict W)
      → is_act v.decision_type ≡ false
      → Allowed c db v
  unfolding Allowed
  resting-Allowed c db v rests n = waits (appended c v n) rests

  acting-Allowed :
      (c : Context W) (db : Database W) (key : InterventionRouteKey) (confidence : W)
      → MayAct names policy now attempt t_decide policy.routes db key
      → count_if (recent_act (t_decide - a_minute)) db.intervention_decisions
        < policy.global_rate_limit_per_minute
      → Allowed c db (record {
        decision_type = act;
        selected_route = some key;
        confidence = confidence;
        gate_verdict = passed;
      })
  unfolding Allowed MayAct
  acting-Allowed c db key confidence (route, within, same, cold) below n =
      acts _ route refl refl within (ap some (sym same)) below (
        subst
          (λ k.
            count_if
              (recent_route attempt.payment_attempt_id k (t_decide - cooldown route)
                (some attempt.source_system))
              db.intervention_decisions
            ≡ 0)
          (sym same) cold)

  determine_verdict-Allowed :
      (c : Context W) (db : Database W) (best : Option (CandidateRouteScore W)) (p : Option W)
      (evidence : Option String)
      → ((b : CandidateRouteScore W)
          → best ≡ some b
          → MayAct names policy now attempt t_decide policy.routes db b.route_key)
      → count_if (recent_act (t_decide - a_minute)) db.intervention_decisions
        < policy.global_rate_limit_per_minute
      → Allowed c db (determine_verdict best p policy evidence)
  determine_verdict-Allowed c db none p evidence may below =
      subst (Allowed c db) (sym (other_verdict none p policy evidence refl))
        (resting-Allowed c db _ (ignore_rests (probability_of p) policy))
  determine_verdict-Allowed c db (some b) p evidence may below =
      elim (Bool-cases (can_act (some b) p policy)) [
        | inl acting ↦
            subst (Allowed c db) (sym (acting_verdict b p policy evidence acting))
              (acting-Allowed c db b.route_key _ (may b refl) below)
        | inr other ↦
            subst (Allowed c db) (sym (other_verdict (some b) p policy evidence other))
              (resting-Allowed c db _ (ignore_rests (probability_of p) policy))
      ]

  -- The global rate limit comes between the verdict and the store.
  admitted-Steps :
      (c : Context W) (v : Verdict W) (db : Database W)
      → (count_if (recent_act (t_decide - a_minute)) db.intervention_decisions
            < policy.global_rate_limit_per_minute
          → Allowed c db v)
      → Steps db
          ((admit names policy now attempt t_decide v >>= λ admitted.
              persist names policy now attempt t_decide c admitted)
            db).1
  unfolding admit count_recent_act_decisions Allowed
  admitted-Steps c v db allowed = elim (Bool-cases (is_act v.decision_type)) [
    | inl acting ↦
        let recent = count_if (recent_act (t_decide - a_minute)) db.intervention_decisions in
        elim (Bool-cases (leb policy.global_rate_limit_per_minute recent)) [
          | inl full ↦ rw (acting, full) (resting_Steps c _ db refl)
          | inr free ↦ rw (acting, free) (persist-Steps c v db (allowed (ground arith)))
        ]
    | inr rests ↦ rw rests (resting_Steps c v db rests)
  ]

  choose-Steps :
      (c : Context W) (best : Option (CandidateRouteScore W)) (db : Database W)
      → ((b : CandidateRouteScore W)
          → best ≡ some b
          → MayAct names policy now attempt t_decide policy.routes db b.route_key)
      → Steps db (choose names policy now attempt t_decide c best db).1
  unfolding choose
  choose-Steps c best db may =
      let p = probability_of (probability_in c.stage5_pred) in
      elim (Bool-cases
        (is_none names policy now attempt t_decide best && f.le policy.act_risk_threshold p)) [
          | inl none_fits ↦ rw none_fits (resting_Steps c _ db refl)
          | inr other ↦
              rw other (admitted-Steps c _ db (determine_verdict-Allowed c db best _ _ may))
        ]

  decide_new-Steps :
      (c : Context W) (db : Database W)
      → Steps db (decide_new names policy now attempt t_decide c db).1
  unfolding decide_new IsVettingAll MayAct
  decide_new-Steps c db = elim (Bool-cases (is_passed (hard_gates policy c))) [
    | inl through ↦
        let vetting =
          score_routes-IsVetting names policy now attempt t_decide c policy.routes policy.routes db
            (λ route within. within) in
        rw through (
          Leads-continue Steps (score_routes names policy now attempt t_decide c policy.routes db)
            (λ scores. choose names policy now attempt t_decide c (best_candidate scores)) db
            vetting.0 idle
            (λ scores e. choose-Steps c (best_candidate scores) db (λ b chosen.
              best_candidate_inherits
                (λ s. MayAct names policy now attempt t_decide policy.routes db s.route_key) b
                scores (λ s may. may) (vetting.1 scores e) chosen)))
    | inr stopped ↦ rw stopped (resting_Steps c _ db refl)
  ]

  unless_unchanged-Steps :
      (c : Context W) (latest : Option (InterventionDecision W)) (db : Database W)
      → Steps db (unless_unchanged names policy now attempt t_decide c latest db).1
  unfolding unless_unchanged
  unless_unchanged-Steps c none db = decide_new-Steps c db
  unless_unchanged-Steps c (some d) db =
      elim (Bool-cases (unchanged names policy now attempt t_decide c (some d))) [
        | inl same ↦ rw same idle
        | inr changed ↦ rw changed (decide_new-Steps c db)
      ]

  -- Whatever the database holds, one call of decide does to the decisions what the contract of Stage 6
  -- allows: it stores nothing, whether it returns the decision it had or raises, or it stores one decision,
  -- which acts only on a route of the policy, within the rate limit and past the cooldown.
  pub decide-Steps : (db : Database W) → Steps db (decide names policy now attempt t_decide db).1
  unfolding decide get_latest_decision
  decide-Steps db =
      Leads-continue Steps (gather attempt t_decide db) _ db
        (IsBlind-Reads (gather attempt t_decide) (gather-IsBlind attempt t_decide) db) idle
        (λ c _.
          Leads-continue Steps
            (get_latest_decision attempt.payment_attempt_id (some attempt.source_system) db)
            (unless_unchanged names policy now attempt t_decide c) db
            (query-Reads (some attempt.source_system) _ db) idle
            (λ latest _. unless_unchanged-Steps c latest db))

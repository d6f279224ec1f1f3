-- ===== src/Intervention/Service/Vetting.antt =====
-- Which routes the scoring of src/core/intervention/service.py leaves eligible.
use mathlib.Core.Path.{subst, sym}
use revenue_degradation_reco.Prelude.{
  ℕ, ◌-◌, ◌≡◌, refl, some, List, [], ◌∷◌, Bool, true, false, inl, inr, count_if, All, arith,
  Bool-cases, if◌then◌else◌,
}
use revenue_degradation_reco.Prelude.Float.{Float}
use revenue_degradation_reco.Errors.{Error, Result, ok, err}
use revenue_degradation_reco.Action.{Action, continue, pure, ◌>>=◌}
use revenue_degradation_reco.Action.Keeps.{Reads}
use revenue_degradation_reco.Store.{Database}
use revenue_degradation_reco.Attempts.Identity.{AttemptRef}
use revenue_degradation_reco.Intervention.Models.{InterventionRouteKey, CandidateRouteScore}
use revenue_degradation_reco.Intervention.Policy.{RoutePolicyDefinition, InterventionPolicy}
use revenue_degradation_reco.Intervention.Gates.{
  evaluate_policy_cost_currency, evaluate_route_eligibility,
}
use revenue_degradation_reco.Intervention.Gates.Eligibility.{evaluate_route_eligibility-Fits}
use revenue_degradation_reco.Intervention.Repository.{recent_route, has_recent_route_decision}
use revenue_degradation_reco.Intervention.Context.{DecisionNames, Context, rca_context}
use revenue_degradation_reco.Intervention.History.{cooldown, IsIn}
use revenue_degradation_reco.Intervention.Service.{scored, ineligible, score_route, score_routes}
use revenue_degradation_reco.Intervention.Service.Reads.{validated_cases}
use revenue_degradation_reco.Execution.Service.{is_passed}

module _ {W : Type 0} ⦃f : Float W⦄ (names : DecisionNames W) (policy : InterventionPolicy W)
    (now : ℕ) (attempt : AttemptRef) (t_decide : ℕ) where
  -- A route that may act: one of the policy's, and not on cooldown.
  unfoldable pub MayAct : List RoutePolicyDefinition → Database W → InterventionRouteKey → Type 0
  MayAct routes db key =
      (route : RoutePolicyDefinition) × IsIn route routes
      × (route.route_key ≡ key)
      × (count_if
            (recent_route attempt.payment_attempt_id key (t_decide - cooldown route)
              (some attempt.source_system))
            db.intervention_decisions
          ≡ 0)

  abbrev Vetted : List RoutePolicyDefinition → Database W → CandidateRouteScore W → Type 0
  Vetted routes db s = s.is_eligible ≡ true → MayAct routes db s.route_key

  -- What scoring one route leaves: nothing written, and an eligible score only for a route that may act.
  IsVetting :
      List RoutePolicyDefinition → Database W → Result (CandidateRouteScore W) × Database W → Type 0
  IsVetting routes db r =
      (r.1 ≡ db) × ((s : CandidateRouteScore W) → r.0 ≡ ok s → Vetted routes db s)

  ineligible-IsVetting :
      (route : RoutePolicyDefinition) (routes : List RoutePolicyDefinition) (db : Database W)
      → IsVetting routes db (pure (ineligible names policy now attempt t_decide route) db)
  unfolding IsVetting
  ineligible-IsVetting route routes db = (refl, λ s e fits. absurd (ground (arith, e)))

  eligible-IsVetting :
      (c : Context W) (route : RoutePolicyDefinition) (routes : List RoutePolicyDefinition)
      (db : Database W)
      → MayAct routes db route.route_key
      → IsVetting routes db (pure (scored names policy now attempt t_decide c route) db)
  unfolding IsVetting scored
  eligible-IsVetting c route routes db may =
      (refl, λ s e fits. subst (λ key. MayAct routes db key) (ground (arith, e)) may)

  judged-IsVetting :
      (c : Context W) (route : RoutePolicyDefinition) (routes : List RoutePolicyDefinition)
      (db : Database W) (on_cooldown : Bool)
      → IsIn route routes
      → (on_cooldown ≡ false
          → count_if
              (recent_route attempt.payment_attempt_id route.route_key
                (t_decide - cooldown route)
                (some attempt.source_system))
              db.intervention_decisions
            ≡ 0)
      → IsVetting routes db (
          pure
            (if evaluate_route_eligibility route (rca_context c) on_cooldown
              then scored names policy now attempt t_decide c route
              else ineligible names policy now attempt t_decide route)
            db)
  unfolding MayAct
  judged-IsVetting c route routes db on_cooldown within cold =
      elim (Bool-cases (evaluate_route_eligibility route (rca_context c) on_cooldown)) [
        | inl fits ↦
            let why = evaluate_route_eligibility-Fits route (rca_context c) on_cooldown fits in
            rw fits (eligible-IsVetting c route routes db (route, within, refl, cold why.1))
        | inr unfit ↦ rw unfit (ineligible-IsVetting route routes db)
      ]

  score_route-IsVetting :
      (c : Context W) (route : RoutePolicyDefinition) (routes : List RoutePolicyDefinition)
      (db : Database W)
      → IsIn route routes
      → IsVetting routes db (score_route names policy now attempt t_decide c route db)
  unfolding score_route has_recent_route_decision IsVetting
  score_route-IsVetting c route routes db within =
      elim (Bool-cases (is_passed (evaluate_policy_cost_currency policy c.currency))) [
        | inl same ↦ elim (validated_cases attempt.source_system db) [
          | inl known ↦
              rw (same, known)
                (judged-IsVetting c route routes db _ within (λ free. ground (arith, free)))
          | inr (x, foreign) ↦ rw (same, foreign) (refl, λ s e fits. absurd (ground (arith, e)))
        ]
        | inr other ↦ rw other (ineligible-IsVetting route routes db)
      ]

  -- Every route of the policy is vetted, and nothing is written.
  unfoldable pub IsVettingAll :
      List RoutePolicyDefinition
      → Database W
      → Result (List (CandidateRouteScore W)) × Database W
      → Type 0
  IsVettingAll routes db r =
      (r.1 ≡ db) × ((ss : List (CandidateRouteScore W)) → r.0 ≡ ok ss → All (Vetted routes db) ss)

  raised_vetting :
      (routes : List RoutePolicyDefinition) (x : Error) (s db : Database W)
      → s ≡ db
      → IsVettingAll routes db (err x, s)
  unfolding IsVettingAll
  raised_vetting routes x s db e = (e, λ ss h. absurd (ground (arith, h)))

  more_vetting :
      (routes : List RoutePolicyDefinition) (db : Database W) (score : CandidateRouteScore W)
      (r : Result (List (CandidateRouteScore W)) × Database W)
      → Vetted routes db score
      → IsVettingAll routes db r
      → IsVettingAll routes db (continue r (λ scores. pure (score ∷ scores)))
  unfolding IsVettingAll
  more_vetting routes db score (ok scores, s) v (e, k) = (
    e,
    λ ss h.
        let same : score ∷ scores ≡ ss = ground (arith, h) in
        subst (All (Vetted routes db)) same (v, k scores refl),
  )
  more_vetting routes db score (err x, s) v (e, k) = (e, λ ss h. absurd (ground (arith, h)))

  first_vetting :
      (routes : List RoutePolicyDefinition) (db : Database W)
      (r : Result (CandidateRouteScore W) × Database W)
      (rest : Action (Database W) (List (CandidateRouteScore W)))
      → IsVetting routes db r
      → IsVettingAll routes db (rest db)
      → IsVettingAll routes db (continue r (λ score. rest >>= λ scores. pure (score ∷ scores)))
  unfolding IsVetting
  first_vetting routes db (ok score, s) rest (e, v) k =
      subst (λ t. IsVettingAll routes db (continue (rest t) (λ scores. pure (score ∷ scores))))
        (sym e) (more_vetting routes db score (rest db) (v score refl) k)
  first_vetting routes db (err x, s) rest (e, v) k = raised_vetting routes x s db e

  pub score_routes-IsVetting :
      (c : Context W) (routes scoring : List RoutePolicyDefinition) (db : Database W)
      → ((route : RoutePolicyDefinition) → IsIn route scoring → IsIn route routes)
      → IsVettingAll routes db (score_routes names policy now attempt t_decide c scoring db)
  unfolding score_routes IsVettingAll
  score_routes-IsVetting c routes [] db sub = (
    refl,
    λ ss h. let same : [] ≡ ss = ground (arith, h) in subst (All (Vetted routes db)) same tt,
  )
  score_routes-IsVetting c routes (route ∷ scoring) db sub =
      first_vetting routes db (score_route names policy now attempt t_decide c route db)
        (score_routes names policy now attempt t_decide c scoring)
        (score_route-IsVetting c route routes db (sub route (inl refl)))
        (score_routes-IsVetting c routes scoring db (λ other there. sub other (inr there)))

  pub score_routes-Reads :
      (c : Context W) (routes : List RoutePolicyDefinition)
      → Reads (score_routes names policy now attempt t_decide c routes)
  unfolding IsVettingAll
  score_routes-Reads c routes db =
      (score_routes-IsVetting c routes routes db (λ route within. within)).0

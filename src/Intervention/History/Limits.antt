-- ===== src/Intervention/History/Limits.antt =====
-- Every history of decisions (src/core/intervention/service.py) keeps the rate limit and the cooldowns.
use revenue_degradation_reco.Prelude.{
  ℕ, ◌+◌, ◌-◌, ◌≤◌, ◌≡◌, inl, inr, some, List, [], ◌∷◌, ◌++◌, Bool, true, false, count_if, All,
  All-append, arith, Bool-cases,
}
use revenue_degradation_reco.Intervention.Models.{InterventionDecision}
use revenue_degradation_reco.Intervention.Policy.{RoutePolicyDefinition}
use revenue_degradation_reco.Intervention.Repository.{recent_act, recent_route}
use revenue_degradation_reco.Intervention.History.{
  a_minute, IsIn, cooldown, Step, Run, idle, waits, acts, here, next, acts_within, IsRateLimited,
  IsApart, IsCooledDown,
}
use revenue_degradation_reco.Execution.Service.{is_act}
use revenue_degradation_reco.Execution.Repository.Rows.{count-append}

count_if_mono {ℓ} :
    {A : Type ℓ} (p q : A → Bool) (xs : List A)
    → ((x : A) → p x ≡ true → q x ≡ true)
    → count_if p xs ≤ count_if q xs
count_if_mono p q [] h = omega arith
count_if_mono p q (x ∷ xs) h = ground (arith, h x, count_if_mono p q xs h)

none_counted {ℓ} :
    {A : Type ℓ} (p : A → Bool) (xs : List A) → count_if p xs ≡ 0 → All (λ x. p x ≡ false) xs
none_counted p [] h = tt
none_counted p (x ∷ xs) h = elim (Bool-cases (p x)) [
  | inl hit ↦ absurd (ground (arith, (rw hit at h)))
  | inr miss ↦ (miss, none_counted p xs (rw miss at h))
]

module _ {W : Type 0} where
  within-recent :
      (a t : ℕ) (d : InterventionDecision W)
      → t ≤ a + a_minute
      → acts_within a d ≡ true
      → recent_act (t - a_minute) d ≡ true
  within-recent a t d h k = ground arith

  Step-IsRateLimited :
      (limit : ℕ) (routes : List RoutePolicyDefinition) {h h' : List (InterventionDecision W)}
      → Step limit routes h h'
      → IsRateLimited limit h
      → IsRateLimited limit h'
  Step-IsRateLimited limit routes idle k a = k a
  Step-IsRateLimited limit routes {h} (waits d rests) k a =
      ground (arith, k a, count-append (acts_within a) h d)
  Step-IsRateLimited limit routes {h} (acts d route acting gate within chosen below cold) k a =
      elim (Bool-cases (acts_within a d)) [
        | inl here' ↦
            let fewer =
              count_if_mono (acts_within a) (recent_act (d.decided_at - a_minute)) h
                (λ e. within-recent a d.decided_at e (ground arith)) in
            ground (arith, here', fewer, count-append (acts_within a) h d)
        | inr away ↦ ground (arith, away, k a, count-append (acts_within a) h d)
      ]

  -- From an empty history, or any that is within the limit, every run is.
  pub Run-IsRateLimited :
      (limit : ℕ) (routes : List RoutePolicyDefinition) {h h' : List (InterventionDecision W)}
      → Run limit routes h h'
      → IsRateLimited limit h
      → IsRateLimited limit h'
  Run-IsRateLimited limit routes here k = k
  Run-IsRateLimited limit routes (next run step) k =
      Step-IsRateLimited limit routes step (Run-IsRateLimited limit routes run k)

  cold-IsApart :
      (routes : List RoutePolicyDefinition) (d e : InterventionDecision W)
      (route : RoutePolicyDefinition)
      → IsIn route routes
      → d.selected_route_id ≡ some route.route_key
      → recent_route d.payment_attempt_id route.route_key
          (d.decided_at - cooldown route)
          (some d.source_system)
          e
        ≡ false
      → IsApart routes e d
  cold-IsApart routes d e route within chosen cold same = (route, within, chosen, ground arith)

  cold-All :
      (routes : List RoutePolicyDefinition) (d : InterventionDecision W)
      (route : RoutePolicyDefinition) (h : List (InterventionDecision W))
      → IsIn route routes
      → d.selected_route_id ≡ some route.route_key
      → All
          (λ e.
            recent_route d.payment_attempt_id route.route_key
              (d.decided_at - cooldown route)
              (some d.source_system)
              e
            ≡ false)
          h
      → All (λ e. IsApart routes e d) h
  cold-All routes d route [] within chosen cold = tt
  cold-All routes d route (e ∷ h) within chosen cold = (
    cold-IsApart routes d e route within chosen cold.0,
    cold-All routes d route h within chosen cold.1,
  )

  resting-All :
      (routes : List RoutePolicyDefinition) (d : InterventionDecision W)
      (h : List (InterventionDecision W))
      → is_act d.decision_type ≡ false
      → All (λ e. IsApart routes e d) h
  resting-All routes d [] rests = tt
  resting-All routes d (e ∷ h) rests =
      ((λ same. absurd (ground arith)), resting-All routes d h rests)

  append-IsCooledDown :
      (routes : List RoutePolicyDefinition) (d : InterventionDecision W)
      (h : List (InterventionDecision W))
      → IsCooledDown routes h
      → All (λ e. IsApart routes e d) h
      → IsCooledDown routes (h ++ d ∷ [])
  append-IsCooledDown routes d [] k p = (tt, tt)
  append-IsCooledDown routes d (e ∷ h) k p = (
    All-append (IsApart routes e) h (d ∷ []) k.0 (p.0, tt),
    append-IsCooledDown routes d h k.1 p.1,
  )

  -- From an empty history, or any that keeps the cooldowns, every run does.
  pub Run-IsCooledDown :
      (limit : ℕ) (routes : List RoutePolicyDefinition) {h h' : List (InterventionDecision W)}
      → Run limit routes h h'
      → IsCooledDown routes h
      → IsCooledDown routes h'
  Run-IsCooledDown limit routes here k = k
  Run-IsCooledDown limit routes (next run idle) k = Run-IsCooledDown limit routes run k
  Run-IsCooledDown limit routes (next {h} run (waits d rests)) k =
      append-IsCooledDown routes d h (Run-IsCooledDown limit routes run k)
        (resting-All routes d h rests)
  Run-IsCooledDown limit routes (next {h} run (acts d route acting gate within chosen below cold))
        k =
      append-IsCooledDown routes d h (Run-IsCooledDown limit routes run k)
        (cold-All routes d route h within chosen (none_counted _ h cold))

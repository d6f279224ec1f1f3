-- ===== src/Intervention/History.antt =====
-- What the service of Stage 6 (src/core/intervention/service.py) promises of its decisions: a relation
-- between the decisions before and after a call, and what follows for every history of calls.
pub mod Limits
use revenue_degradation_reco.Prelude.{
  ℕ, ◌+◌, ◌-◌, ◌*◌, ◌<◌, ◌≤◌, ◌≡◌, ◌⊎◌, String, Option, none, some, List, [], ◌∷◌, ◌++◌, Bool, true,
  false, ◌&&◌, ◌=s=◌, leb, count_if, All,
}
use revenue_degradation_reco.Intervention.Models.{
  GateVerdict, passed, InterventionRouteKey, InterventionDecision,
}
use revenue_degradation_reco.Intervention.Policy.{RoutePolicyDefinition}
use revenue_degradation_reco.Intervention.Repository.{recent_act, recent_route, same_route}
use revenue_degradation_reco.Execution.Service.{is_act}

abbrev pub a_minute : ℕ
a_minute = 60 * 1_000_000

abbrev pub IsIn : RoutePolicyDefinition → List RoutePolicyDefinition → Type 0
IsIn route [] = ⊥
IsIn route (x ∷ xs) = (route ≡ x) ⊎ IsIn route xs

abbrev pub same_choice : Option InterventionRouteKey → Option InterventionRouteKey → Bool
same_choice none k = false
same_choice (some key) k = same_route key k

abbrev pub cooldown : RoutePolicyDefinition → ℕ
cooldown route = route.cooldown_seconds * 1_000_000

module _ {W : Type 0} (limit : ℕ) (routes : List RoutePolicyDefinition) where
  -- A call stores nothing, or one decision at the end: one that does not act, or one that acts on a route
  -- of the policy, where fewer than the limit have acted since a minute before it, and none on this
  -- route for this attempt since a cooldown before it.
  pub data Step : List (InterventionDecision W) → List (InterventionDecision W) → Type 0 where
    idle : {h : List (InterventionDecision W)} → Step h h
    waits :
        {h : List (InterventionDecision W)} (d : InterventionDecision W)
        → is_act d.decision_type ≡ false
        → Step h (h ++ d ∷ [])
    acts :
        {h : List (InterventionDecision W)} (d : InterventionDecision W)
        (route : RoutePolicyDefinition)
        → is_act d.decision_type ≡ true
        → d.gate_verdict ≡ passed
        → IsIn route routes
        → d.selected_route_id ≡ some route.route_key
        → count_if (recent_act (d.decided_at - a_minute)) h < limit
        → count_if
            (recent_route d.payment_attempt_id route.route_key
              (d.decided_at - cooldown route)
              (some d.source_system))
            h
          ≡ 0
        → Step h (h ++ d ∷ [])

  pub data Run (start : List (InterventionDecision W))
      : List (InterventionDecision W) → Type 0 where
    here : Run start start
    next : {h h' : List (InterventionDecision W)} → Run start h → Step h h' → Run start h'

module _ {W : Type 0} where
  abbrev pub acts_within : ℕ → InterventionDecision W → Bool
  acts_within a d =
      is_act d.decision_type && (leb a d.decided_at && leb d.decided_at (a + a_minute))

  -- In every minute, both ends included, at most as many decisions act as the limit says.
  abbrev pub IsRateLimited : ℕ → List (InterventionDecision W) → Type 0
  IsRateLimited limit h = (a : ℕ) → count_if (acts_within a) h ≤ limit

  -- Both act, for the same attempt and on the same route.
  abbrev pub repeats : InterventionDecision W → InterventionDecision W → Bool
  repeats e d =
      is_act e.decision_type
      && (is_act d.decision_type
          && (e.payment_attempt_id =s= d.payment_attempt_id
              && (e.source_system =s= d.source_system
                  && same_choice d.selected_route_id e.selected_route_id)))

module _ {W : Type 0} (routes : List RoutePolicyDefinition) where
  -- A later decision on the route of an earlier one is later by more than a cooldown of that route.
  abbrev pub IsApart : InterventionDecision W → InterventionDecision W → Type 0
  IsApart e d =
      repeats e d ≡ true
      → (route : RoutePolicyDefinition) × IsIn route routes
        × (d.selected_route_id ≡ some route.route_key)
        × (e.decided_at + cooldown route < d.decided_at)

  abbrev pub IsCooledDown : List (InterventionDecision W) → Type 0
  IsCooledDown [] = Unit
  IsCooledDown (e ∷ rest) = All (IsApart e) rest × IsCooledDown rest

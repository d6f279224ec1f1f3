-- ===== src/Intervention/Gates/Eligibility.antt =====
-- What the routes that evaluate_route_eligibility (src/core/intervention/gates.py) lets through have in
-- common.
use revenue_degradation_reco.Prelude.{
  ◌≡◌, Bool, true, false, ◌&&◌, ◌⊎◌, inl, inr, arith, Bool-cases,
}
use revenue_degradation_reco.Intervention.Policy.{RoutePolicyDefinition, targets}
use revenue_degradation_reco.Intervention.Gates.{
  RcaContext, is_text, present, off_target, is_strong, is_applicable, evaluate_route_eligibility,
}

-- What makes a route fit a payment.
pub data Fits (route : RoutePolicyDefinition) (context : RcaContext) : Type 0 where
  segment :
      route.requires_diagnosis ≡ true
      → is_text context.rca_classification "SEGMENT_SPECIFIC" ≡ true
      → context.rca_candidate_matches_payment_segment ≡ true
      → off_target context.rca_candidate_dimension route.target_dimensions ≡ false
      → Fits route context
  systemic :
      route.requires_diagnosis ≡ true
      → is_text context.rca_classification "SYSTEMIC" ≡ true
      → targets "GLOBAL" route.target_dimensions ≡ true
      → Fits route context
  undiagnosed :
      route.requires_diagnosis ≡ false
      → (targets "GLOBAL" route.target_dimensions ≡ true)
        ⊎ ((targets "BANK" route.target_dimensions && present context.bank) ≡ true)
        ⊎ ((targets "PAYMENT_METHOD" route.target_dimensions && present context.payment_method)
            ≡ true)
      → Fits route context

is_applicable-Fits :
    (route : RoutePolicyDefinition) (context : RcaContext)
    → is_applicable route context ≡ true
    → Fits route context
unfolding is_applicable
is_applicable-Fits route context h = elim (Bool-cases route.requires_diagnosis) [
  | inl diagnosed ↦ elim (Bool-cases (is_text context.rca_classification "SEGMENT_SPECIFIC")) [
    | inl specific ↦ segment diagnosed specific (ground arith) (ground arith)
    | inr other ↦ systemic diagnosed (ground arith) (ground arith)
  ]
  | inr free ↦ undiagnosed free (elim (Bool-cases (targets "GLOBAL" route.target_dimensions)) [
    | inl global ↦ inl global
    | inr local ↦
        elim (Bool-cases (targets "BANK" route.target_dimensions && present context.bank)) [
          | inl by_bank ↦ inr (inl by_bank)
          | inr other ↦ inr (inr (rw (free, local, other) at h))
        ]
  ])
]

-- An eligible route is enabled and not on cooldown, has the RCA evidence that it asks for, and fits: a
-- diagnosed segment that the payment belongs to and the route targets, or a systemic degradation for a
-- route that needs a diagnosis and is global, or, where it needs no diagnosis, any payment for a global
-- route and otherwise one with the bank or the method that the route targets.
pub evaluate_route_eligibility-Fits :
    (route : RoutePolicyDefinition) (context : RcaContext) (is_on_cooldown : Bool)
    → evaluate_route_eligibility route context is_on_cooldown ≡ true
    → (route.enabled ≡ true)
      × (is_on_cooldown ≡ false)
      × ((route.requires_strong_rca ≡ true) → is_strong context.rca_evidence_strength ≡ true)
      × Fits route context
unfolding evaluate_route_eligibility
evaluate_route_eligibility-Fits route context is_on_cooldown h = (
  ground arith,
  ground arith,
  (λ strong. ground arith),
  is_applicable-Fits route context (ground arith),
)

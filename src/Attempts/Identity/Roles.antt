-- ===== src/Attempts/Identity/Roles.antt =====
-- Which events start or resolve an attempt, and whose.
use revenue_degradation_reco.Prelude.{
  ◌≡◌, ◌≢◌, refl, sym, ◌∙◌, ap, Option, none, some, Bool, true, false, String, arith, eq_iff, ◌=s=◌,
  Bool-cases, Option-cases, inl, inr, ◌⊎◌, if◌then◌else◌,
}
use revenue_degradation_reco.Errors.{Result, ok, Result-cases}
use revenue_degradation_reco.Events.{PaymentEvent}
use revenue_degradation_reco.Attempts.Identity.{
  or_empty, paypal_order_id, AttemptRef, PipelineAttempt, PipelineRole, trigger, terminal,
  paypal_namespace, for_key, for_trigger_event, candidate_role, refusal_of, resolve_candidate,
  in_paypal_attempt_namespace, resolve_pipeline_attempt, paypal_attempt_id,
}
use revenue_degradation_reco.Attempts.Identity.Laws.{
  IsValidRef, attempt_ref-IsValidRef, paypal_order_id-paypal_attempt_id,
}
use revenue_degradation_reco.Prelude.Texts.{is_empty}

for_key-attempt_ref :
    (source key : String) (ref : AttemptRef)
    → for_key source key ≡ ok ref
    → IsValidRef ref × (ref.source_system ≡ source) × (ref.payment_attempt_id ≡ key)
unfolding for_key
for_key-attempt_ref source key ref e =
    let (v, s, k, r) = attempt_ref-IsValidRef source key _ ref e in (v, s, k)

module _ (event : PaymentEvent) {role : PipelineRole} {key : String}
    (c : candidate_role event ≡ some (role, key)) where
  candidate_other : event.source_system ≢ "paypal" → key ≡ event.payment_id
  unfolding candidate_role
  candidate_other h = ground (arith, eq_iff event.source_system "paypal")

  candidate_paypal_trigger :
      event.source_system ≡ "paypal"
      → role ≡ trigger
      → (event.event_type ≡ "order.approved")
        × (is_empty event.payment_id ≡ false)
        × (key ≡ paypal_attempt_id event.payment_id)
  unfolding candidate_role
  candidate_paypal_trigger h t =
      ground (arith, eq_iff event.source_system "paypal", eq_iff event.event_type "order.approved")

  candidate_other_trigger :
      event.source_system ≢ "paypal" → role ≡ trigger → event.event_type ≡ "payment.authorized"
  unfolding candidate_role
  candidate_other_trigger h t =
      ground
        (arith, eq_iff event.source_system "paypal", eq_iff event.event_type "payment.authorized")

  candidate_paypal_terminal :
      event.source_system ≡ "paypal"
      → role ≡ terminal
      → (order : String) × (event.order_id ≡ some order) × (key ≡ paypal_attempt_id order)
  unfolding candidate_role
  candidate_paypal_terminal h t = elim (Option-cases event.order_id) [
    | inl gone ↦ absurd (ground (arith, eq_iff event.source_system "paypal"))
    | inr (order, here) ↦
        let here' = ap (λ (o : Option String). paypal_attempt_id (or_empty o)) here in
        (order, here, ground (arith, eq_iff event.source_system "paypal"))
  ]

trigger_paypal :
    (event : PaymentEvent) (key : String) (ref : AttemptRef)
    → event.source_system ≡ "paypal"
    → event.event_type ≡ "order.approved"
    → key ≡ paypal_attempt_id event.payment_id
    → paypal_order_id (paypal_attempt_id event.payment_id) ≡ some event.payment_id
    → for_key event.source_system key ≡ ok ref
    → for_trigger_event event ≡ ok ref
unfolding for_trigger_event for_key
trigger_paypal event key ref paypal ty k order e =
    ground (arith, eq_iff event.source_system "paypal", eq_iff event.event_type "order.approved")

trigger_other :
    (event : PaymentEvent) (key : String) (ref : AttemptRef)
    → (event.source_system =s= "paypal") ≡ false
    → event.event_type ≡ "payment.authorized"
    → key ≡ event.payment_id
    → for_key event.source_system key ≡ ok ref
    → for_trigger_event event ≡ ok ref
unfolding for_trigger_event for_key
trigger_other event key ref other ty k e =
    ground (arith, eq_iff event.event_type "payment.authorized")

PipelineRole-cases : (r : PipelineRole) → (r ≡ trigger) ⊎ (r ≡ terminal)
PipelineRole-cases trigger = inl refl
PipelineRole-cases terminal = inr refl

-- `resolve_pipeline_attempt` over its two computed parts.
abbrev resolve_of :
    PaymentEvent → Bool → Option (PipelineRole × String) → Result (Option PipelineAttempt)
resolve_of event ns c = elim (if ns then some paypal_namespace else refusal_of event c) [
  | some why ↦ ok none
  | none ↦ resolve_candidate event c
]

resolve_pipeline_attempt-eq :
    (event : PaymentEvent)
    → resolve_pipeline_attempt event
      ≡ resolve_of event (in_paypal_attempt_namespace event) (candidate_role event)
unfolding resolve_pipeline_attempt
resolve_pipeline_attempt-eq event = refl

resolve_of_inv :
    (event : PaymentEvent) (ns : Bool) (c : Option (PipelineRole × String)) (a : PipelineAttempt)
    → resolve_of event ns c ≡ ok (some a)
    → (ns ≡ false)
      × (key : String) × (c ≡ some (a.role, key))
      × (for_key event.source_system key ≡ ok a.ref)
unfolding refusal_of resolve_candidate
resolve_of_inv event true c a e = absurd (ground arith)
resolve_of_inv event false none a e = absurd (ground arith)
resolve_of_inv event false (some (role, key)) a e =
    elim (Result-cases (for_key event.source_system key)) [
      | inl (ref, found) ↦ (refl, key, ground (arith, found), ground (arith, found))
      | inr (why, raised) ↦ absurd (ground (arith, raised))
    ]

resolve_of_total :
    (event : PaymentEvent) (ns : Bool) (c : Option (PipelineRole × String))
    → (r : Option PipelineAttempt) × (resolve_of event ns c ≡ ok r)
unfolding refusal_of resolve_candidate
resolve_of_total event true c = (none, refl)
resolve_of_total event false none = (none, refl)
resolve_of_total event false (some (role, key)) =
    elim (Result-cases (for_key event.source_system key)) [
      | inl (ref, found) ↦ (some (record { role = role; ref = ref }), ground (arith, found))
      | inr (why, raised) ↦ (none, ground (arith, raised))
    ]

-- `resolve_pipeline_attempt` never raises.
pub resolve_pipeline_attempt_total :
    (event : PaymentEvent) → (r : Option PipelineAttempt) × (resolve_pipeline_attempt event ≡ ok r)
resolve_pipeline_attempt_total event =
    let (r, e) =
      resolve_of_total event (in_paypal_attempt_namespace event) (candidate_role event) in
    (r, resolve_pipeline_attempt-eq event ∙ e)

module _ (event : PaymentEvent) (a : PipelineAttempt)
    (e : resolve_pipeline_attempt event ≡ ok (some a)) where
  resolved :
      (in_paypal_attempt_namespace event ≡ false)
      × (key : String) × (candidate_role event ≡ some (a.role, key))
      × (for_key event.source_system key ≡ ok a.ref)
  resolved =
      resolve_of_inv event (in_paypal_attempt_namespace event) (candidate_role event) a
        (sym (resolve_pipeline_attempt-eq event) ∙ e)

  -- An event that has a role belongs to an attempt of its own provider, with a valid identity. A
  -- PayPal attempt is named by the order: by `payment_id` at a trigger and `order_id` at an outcome.
  -- Any other attempt's key is the event's `payment_id`.
  pub resolve_pipeline_attempt_owner :
      IsValidRef a.ref
      × (a.ref.source_system ≡ event.source_system)
      × (event.source_system ≢ "paypal" → a.ref.payment_attempt_id ≡ event.payment_id)
      × (event.source_system ≡ "paypal"
          → (a.role ≡ trigger) × (a.ref.payment_attempt_id ≡ paypal_attempt_id event.payment_id)
            ⊎ (a.role ≡ terminal)
              × ((order : String) × (event.order_id ≡ some order)
                  × (a.ref.payment_attempt_id ≡ paypal_attempt_id order)))
  resolve_pipeline_attempt_owner =
      let (free, key, c, k) = resolved in
      let (v, s, id) = for_key-attempt_ref event.source_system key a.ref k in
      (
        v,
        s,
        (λ other. id ∙ candidate_other event c other),
        λ paypal. elim (PipelineRole-cases a.role) [
          | inl t ↦ inl (t, id ∙ (candidate_paypal_trigger event c paypal t).2)
          | inr t ↦
              let (order, here, k') = candidate_paypal_terminal event c paypal t in
              inr (t, (order, here, id ∙ k'))
        ],
      )

  -- What resolves as a trigger is what registration takes for the attempt that the event starts.
  pub for_trigger_event-resolve : a.role ≡ trigger → for_trigger_event event ≡ ok a.ref
  for_trigger_event-resolve t =
      let (free, key, c, k) = resolved in
      elim (Bool-cases (event.source_system =s= "paypal")) [
        | inl same ↦
            let paypal = (eq_iff event.source_system "paypal").0 same in
            let (ty, full, key') = candidate_paypal_trigger event c paypal t in
            let order = paypal_order_id-paypal_attempt_id event.payment_id full in
            trigger_paypal event key a.ref paypal ty key' order k
        | inr other ↦
            let ne : event.source_system ≢ "paypal" =
              λ p. cc ((eq_iff event.source_system "paypal").1 p) in
            trigger_other event key a.ref other (candidate_other_trigger event c ne t)
              (candidate_other event c ne) k
      ]

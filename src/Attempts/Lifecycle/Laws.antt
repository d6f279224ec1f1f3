-- ===== src/Attempts/Lifecycle/Laws.antt =====
-- How the questions to a PayPal event (src/core/domain/paypal_lifecycle.py) hang together, and with the
-- events that end an attempt.
use mathlib.Core.Path.{subst, sym}
use text.Mathlib.TextEquality.{path_by_compare}
use revenue_degradation_reco.Prelude.{
  ◌≡◌, ◌↔◌, refl, String, Option, none, some, Bool, true, false, ◌&&◌, ◌=s=◌, inl, inr, arith,
  Bool-cases, Option-cases,
}
use revenue_degradation_reco.Errors.{ok, Result-cases}
use revenue_degradation_reco.Events.{PaymentEvent}
use revenue_degradation_reco.Attempts.Identity.{paypal_source_system, is_terminal_type}
use revenue_degradation_reco.Attempts.Lifecycle.{
  PayPalLifecycleClass, terminal_capture_outcomes, is_some, captured, classify_paypal_event,
  paypal_lifecycle_classes, is_terminal_capture, capture_outcome, is_payment_sizing_event,
  counts_as_captured_gmv, capture_id, refunded_capture_id,
}

at_text : (P : String → Type 0) (s t : String) → (s =s= t) ≡ true → P t → P s
at_text P s t h p = subst P (sym (path_by_compare s t (ground (arith, h)))) p

abbrev ends : Option PayPalLifecycleClass → Bool
ends none = false
ends (some c) = is_some (terminal_capture_outcomes c)

ends-is_terminal_type : (t : String) → ends (paypal_lifecycle_classes t) ≡ is_terminal_type t
unfolding paypal_lifecycle_classes is_terminal_type
ends-is_terminal_type t = elim (Bool-cases (t =s= "order.approved")) [
  | inl a ↦
      at_text (λ u. ends (paypal_lifecycle_classes u) ≡ is_terminal_type u) t "order.approved" a
        refl
  | inr a ↦ elim (Bool-cases (t =s= "order.completed")) [
    | inl b ↦
        at_text (λ u. ends (paypal_lifecycle_classes u) ≡ is_terminal_type u) t "order.completed" b
          refl
    | inr b ↦ elim (Bool-cases (t =s= "payment.pending")) [
      | inl c ↦
          at_text (λ u. ends (paypal_lifecycle_classes u) ≡ is_terminal_type u) t "payment.pending"
            c refl
      | inr c ↦ ground arith
    ]
  ]
]

-- A PayPal event ends its capture exactly when its type is one of those that end an attempt: the type
-- table of the lifecycle and the one of the pipeline agree. No event of another provider is classified.
pub is_terminal_capture_iff :
    (event : PaymentEvent)
    → (is_terminal_capture event ≡ ok true)
      ↔ ((event.source_system =s= paypal_source_system && is_terminal_type event.event_type) ≡ true)
unfolding classify_paypal_event
is_terminal_capture_iff event =
    let same = ends-is_terminal_type event.event_type in
    elim (Option-cases (paypal_lifecycle_classes event.event_type)) [
      | inl unknown ↦ ground (arith, unknown, same)
      | inr (c, known) ↦ ground (arith, known, same)
    ]

-- A refund stays apart from captures: the event that names a refunded capture has no capture of its own,
-- ends none, has no outcome, and is neither a sizing amount nor captured GMV.
pub refunded_capture_id-IsApart :
    (event : PaymentEvent) (capture : String)
    → refunded_capture_id event ≡ ok (some capture)
    → (capture ≡ event.payment_id)
      × (capture_id event ≡ ok none)
      × (capture_outcome event ≡ ok none)
      × (is_terminal_capture event ≡ ok false)
      × (is_payment_sizing_event event ≡ ok false)
      × (counts_as_captured_gmv event ≡ ok false)
refunded_capture_id-IsApart event capture h = elim (Result-cases (classify_paypal_event event)) [
  | inl (c, e) ↦ (
    ground (arith, e),
    ground (arith, e),
    ground (arith, e),
    ground (arith, e),
    ground (arith, e),
    ground (arith, e),
  )
  | inr (x, e) ↦ absurd (ground (arith, e))
]

-- An event counts as captured GMV exactly when the outcome of its capture is CAPTURED.
pub counts_as_captured_gmv_iff :
    (event : PaymentEvent)
    → (counts_as_captured_gmv event ≡ ok true) ↔ (capture_outcome event ≡ ok (some captured))
counts_as_captured_gmv_iff event = elim (Result-cases (classify_paypal_event event)) [
  | inl (c, e) ↦ ground (arith, e)
  | inr (x, e) ↦ ground (arith, e)
]

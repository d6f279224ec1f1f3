-- ===== src/Attempts/Lifecycle.antt =====
-- src/core/domain/paypal_lifecycle.py: what a PayPal event says of its capture.
pub mod Laws
use revenue_degradation_reco.Prelude.{
  String, Option, none, some, Bool, true, false, not, ◌=s=◌, if◌then◌else◌,
}
use revenue_degradation_reco.Prelude.Texts.{is_empty}
use revenue_degradation_reco.Errors.{Result, ok, err, paypal_lifecycle_error}
use revenue_degradation_reco.Events.{PaymentEvent}
use revenue_degradation_reco.Attempts.Identity.{paypal_source_system}

pub data PayPalLifecycleClass : Type 0 where
  order_consent order_informational capture_pending : PayPalLifecycleClass
  capture_succeeded capture_failed refund : PayPalLifecycleClass

pub data PayPalCaptureOutcome : Type 0 where
  captured failed : PayPalCaptureOutcome

pub data PayPalOrderCorrelation : Type 0 where
  correlatable not_correlatable : PayPalOrderCorrelation

unfoldable pub paypal_lifecycle_classes : String → Option PayPalLifecycleClass
paypal_lifecycle_classes event_type =
    if event_type =s= "order.approved"
    then some order_consent
    else if event_type =s= "order.completed"
    then some order_informational
    else if event_type =s= "payment.pending"
    then some capture_pending
    else if event_type =s= "payment.captured"
    then some capture_succeeded
    else if event_type =s= "payment.failed"
    then some capture_failed
    else if event_type =s= "payment.refunded"
    then some refund
    else none

abbrev pub in_capture_classes : PayPalLifecycleClass → Bool
in_capture_classes capture_pending = true
in_capture_classes capture_succeeded = true
in_capture_classes capture_failed = true
in_capture_classes _ = false

abbrev pub terminal_capture_outcomes : PayPalLifecycleClass → Option PayPalCaptureOutcome
terminal_capture_outcomes capture_succeeded = some captured
terminal_capture_outcomes capture_failed = some failed
terminal_capture_outcomes _ = none

abbrev pub in_payment_sizing_classes : PayPalLifecycleClass → Bool
in_payment_sizing_classes order_consent = true
in_payment_sizing_classes _ = false

abbrev pub in_captured_gmv_classes : PayPalLifecycleClass → Bool
in_captured_gmv_classes capture_succeeded = true
in_captured_gmv_classes _ = false

abbrev pub is_refund : PayPalLifecycleClass → Bool
is_refund refund = true
is_refund _ = false

abbrev pub is_some {ℓ} : {A : Type ℓ} → Option A → Bool
is_some none = false
is_some (some a) = true

unfoldable pub classify_paypal_event : PaymentEvent → Result PayPalLifecycleClass
classify_paypal_event event =
    if not (event.source_system =s= paypal_source_system)
    then err paypal_lifecycle_error
    else elim (paypal_lifecycle_classes event.event_type) [
      | none ↦ err paypal_lifecycle_error
      | some lifecycle_class ↦ ok lifecycle_class
    ]

-- What is asked of the class of an event; an event without one raises.
abbrev pub ask {ℓ} :
    {A : Type ℓ} → (PayPalLifecycleClass → A) → Result PayPalLifecycleClass → Result A
ask question (ok c) = ok (question c)
ask question (err e) = err e

abbrev pub is_terminal_capture : PaymentEvent → Result Bool
is_terminal_capture event =
    ask (λ c. is_some (terminal_capture_outcomes c)) (classify_paypal_event event)

abbrev pub capture_outcome : PaymentEvent → Result (Option PayPalCaptureOutcome)
capture_outcome event = ask terminal_capture_outcomes (classify_paypal_event event)

abbrev pub is_payment_sizing_event : PaymentEvent → Result Bool
is_payment_sizing_event event = ask in_payment_sizing_classes (classify_paypal_event event)

abbrev pub counts_as_captured_gmv : PaymentEvent → Result Bool
counts_as_captured_gmv event = ask in_captured_gmv_classes (classify_paypal_event event)

abbrev pub capture_id : PaymentEvent → Result (Option String)
capture_id event =
    ask (λ c. if in_capture_classes c then some event.payment_id else none)
      (classify_paypal_event event)

abbrev pub refunded_capture_id : PaymentEvent → Result (Option String)
refunded_capture_id event =
    ask (λ c. if is_refund c then some event.payment_id else none) (classify_paypal_event event)

-- `event.order_id or None`
abbrev pub non_empty : Option String → Option String
non_empty none = none
non_empty (some order) = if is_empty order then none else some order

abbrev pub order_correlation_key : PaymentEvent → Result (Option String)
order_correlation_key event = ask (λ c. non_empty event.order_id) (classify_paypal_event event)

abbrev pub correlation : Option String → PayPalOrderCorrelation
correlation none = not_correlatable
correlation (some order) = correlatable

abbrev pub order_correlation : PaymentEvent → Result PayPalOrderCorrelation
order_correlation event =
    ask (λ c. correlation (non_empty event.order_id)) (classify_paypal_event event)

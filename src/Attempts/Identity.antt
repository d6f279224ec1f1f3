-- ===== src/Attempts/Identity.antt =====
-- src/core/domain/payment_attempts.py: who owns a Stage 5-8 payment attempt, and under which key.
pub mod Laws
pub mod Roles
use Prim.Native.String.{String}
use Prim.Native.Char.{code}
use revenue_degradation_reco.Prelude.{
  ℕ, zero, suc, Option, none, some, Bool, true, false, not, ◌&&◌, ◌||◌, leb, ◌==◌, ◌=s=◌,
  if◌then◌else◌,
}
use revenue_degradation_reco.Prelude.Texts.{concat, strip_prefix, is_empty}
use revenue_degradation_reco.Errors.{
  Error, Result, ok, err, unsupported_provider, invalid_attempt_identity, provider_identity_missing,
  ◌>>=◌, ◌>>◌, guard,
}
use revenue_degradation_reco.Events.{PaymentEvent}

abbrev pub paypal_source_system : String
paypal_source_system = "paypal"

-- `source_system in PIPELINE_PROVIDERS`
unfoldable pub is_pipeline_provider : String → Bool
is_pipeline_provider s = s =s= "razorpay" || (s =s= "synthetic" || s =s= paypal_source_system)

abbrev pub paypal_attempt_prefix : String
paypal_attempt_prefix = "paypal-order:"

unfoldable pub paypal_attempt_id : String → String
paypal_attempt_id order_id = concat paypal_attempt_prefix order_id

-- `text or None`
abbrev pub or_none : String → Option String
or_none s = if is_empty s then none else some s

unfoldable pub paypal_order_id : String → Option String
paypal_order_id payment_attempt_id = elim (strip_prefix paypal_attempt_prefix payment_attempt_id) [
  | none ↦ none
  | some r ↦ or_none r
]

unfoldable pub has_paypal_prefix : String → Bool
has_paypal_prefix s = elim (strip_prefix paypal_attempt_prefix s) [ none ↦ false | some r ↦ true ]

-- [A-Za-z0-9] and [A-Za-z0-9_-]
is_alphanumeric : ℕ → Bool
is_alphanumeric c =
    (leb b'A' c && leb c b'Z') || ((leb b'a' c && leb c b'z') || (leb b'0' c && leb c b'9'))

is_identifier_char : ℕ → Bool
unfolding is_alphanumeric
is_identifier_char c = is_alphanumeric c || (c == b'_' || c == b'-')

-- At most `room` more characters.
identifier_rest : ℕ → String → Bool
identifier_rest room String.[] = true
identifier_rest zero (String.◌∷◌ c s) = false
identifier_rest (suc room) (String.◌∷◌ c s) =
    let rest = identifier_rest room s in if is_identifier_char (code c) then rest else false

-- `re.fullmatch(PAYPAL_IDENTIFIER_PATTERN, text)`
unfoldable pub is_paypal_identifier : String → Bool
unfolding is_alphanumeric is_identifier_char identifier_rest
is_paypal_identifier String.[] = false
is_paypal_identifier (String.◌∷◌ c s) = is_alphanumeric (code c) && identifier_rest 127 s

pub record AttemptRef : Type 0 where
  pub source_system : String
  pub payment_attempt_id : String
  pub provider_reference : String

unfoldable pub is_paypal : AttemptRef → Bool
is_paypal ref = ref.source_system =s= paypal_source_system

unfoldable pub valid_identity : String → String → String → Bool
unfolding paypal_attempt_id has_paypal_prefix
valid_identity source key reference =
    if source =s= paypal_source_system
    then is_paypal_identifier reference && key =s= paypal_attempt_id reference
    else not (is_empty reference) && (key =s= reference && not (has_paypal_prefix key))

-- The constructor with its `__post_init__`.
unfoldable pub attempt_ref : String → String → String → Result AttemptRef
unfolding valid_identity is_pipeline_provider
attempt_ref source key reference = do
  guard (is_pipeline_provider source) unsupported_provider
  guard (valid_identity source key reference) invalid_attempt_identity
  ok (record { source_system = source; payment_attempt_id = key; provider_reference = reference })

abbrev pub or_empty : Option String → String
or_empty none = ""
or_empty (some s) = s

-- `AttemptRef.for_key`
unfoldable pub for_key : String → String → Result AttemptRef
for_key source key =
    attempt_ref source key
      (if source =s= paypal_source_system then or_empty (paypal_order_id key) else key)

-- `AttemptRef.for_trigger_event`
unfoldable pub for_trigger_event : PaymentEvent → Result AttemptRef
for_trigger_event event =
    let paypal = event.source_system =s= paypal_source_system in
    let expected = if paypal then "order.approved" else "payment.authorized" in
    guard (event.event_type =s= expected) invalid_attempt_identity
    >> (if paypal
        then attempt_ref paypal_source_system (paypal_attempt_id event.payment_id) event.payment_id
        else attempt_ref event.source_system event.payment_id event.payment_id)

unfoldable pub recorded_provider : Option String → Result String
recorded_provider none = err provider_identity_missing
recorded_provider (some s) = ok s

unfoldable pub validate_provider : Option String → Result String
unfolding is_pipeline_provider
validate_provider none = err provider_identity_missing
validate_provider (some s) = guard (is_pipeline_provider s) unsupported_provider >> ok s

pub data PipelineRole : Type 0 where
  trigger terminal : PipelineRole

pub record PipelineAttempt : Type 0 where
  pub role : PipelineRole
  pub ref : AttemptRef

abbrev pub is_some : Option String → Bool
is_some none = false
is_some (some s) = true

unfoldable pub in_paypal_attempt_namespace : PaymentEvent → Bool
in_paypal_attempt_namespace event =
    not (event.source_system =s= paypal_source_system) && is_some (paypal_order_id event.payment_id)

unfoldable pub is_terminal_type : String → Bool
is_terminal_type t = t =s= "payment.captured" || t =s= "payment.failed"

-- A present, non-empty text.
abbrev is_truthy : Option String → Bool
is_truthy none = false
is_truthy (some s) = not (is_empty s)

candidate_role : PaymentEvent → Option (PipelineRole × String)
unfolding paypal_attempt_id is_terminal_type
candidate_role event =
    if event.source_system =s= paypal_source_system
    then (if event.event_type =s= "order.approved" && not (is_empty event.payment_id)
        then some (trigger, paypal_attempt_id event.payment_id)
        else if is_terminal_type event.event_type && is_truthy event.order_id
        then some (terminal, paypal_attempt_id (or_empty event.order_id))
        else none)
    else if event.event_type =s= "payment.authorized"
    then some (trigger, event.payment_id)
    else if is_terminal_type event.event_type
    then some (terminal, event.payment_id)
    else none

-- The refusal's text is reduced to what it is about.
pub data Refusal : Type 0 where
  paypal_namespace : Refusal
  bad_identity : Error → Refusal

refusal_of : PaymentEvent → Option (PipelineRole × String) → Option Refusal
refusal_of event none = none
refusal_of event (some (role, key)) = elim (for_key event.source_system key) [
  | ok ref ↦ none
  | err e ↦ some (bad_identity e)
]

unfoldable pub pipeline_attempt_refusal : PaymentEvent → Option Refusal
unfolding candidate_role refusal_of in_paypal_attempt_namespace
pipeline_attempt_refusal event =
    if in_paypal_attempt_namespace event
    then some paypal_namespace
    else refusal_of event (candidate_role event)

-- The result of the last line, which may raise.
resolve_candidate : PaymentEvent → Option (PipelineRole × String) → Result (Option PipelineAttempt)
resolve_candidate event none = ok none
resolve_candidate event (some (role, key)) = do
  ref ← for_key event.source_system key
  ok (some (record { role = role; ref = ref }))

unfoldable pub resolve_pipeline_attempt : PaymentEvent → Result (Option PipelineAttempt)
unfolding pipeline_attempt_refusal candidate_role resolve_candidate
resolve_pipeline_attempt event = elim (pipeline_attempt_refusal event) [
  | some why ↦ ok none
  | none ↦ resolve_candidate event (candidate_role event)
]

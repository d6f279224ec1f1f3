-- ===== src/Execution/Observation.antt =====
-- src/core/execution/observation_service.py: factual observations of payment outcomes.
pub mod Barrier
pub mod Outcome
pub mod Versions
use revenue_degradation_reco.Prelude.{
  ℕ, ◌+◌, Option, none, some, List, [], ◌∷◌, map, String, Bool, true, false, ◌||◌, not, ◌=s=◌,
  if◌then◌else◌, length,
}
use revenue_degradation_reco.Prelude.Int.{ℤ, pos, pos_part, max_ℤ}
use revenue_degradation_reco.Errors.{Result, command_not_found}
use revenue_degradation_reco.Action.{Action, pure, raise, lift, ◌>>=◌, ◌>>◌}
use revenue_degradation_reco.Events.{PaymentEvent}
use revenue_degradation_reco.Store.{Database}
use revenue_degradation_reco.Attempts.Identity.{for_key}
use revenue_degradation_reco.Attempts.Registry.{require}
use revenue_degradation_reco.Execution.Models.{
  PaymentOutcome, captured, payment_failed, unknown_in_flight, InterventionCommand,
  PaymentOutcomeObservation, ObservationAudit,
}
use revenue_degradation_reco.Execution.Repository.{
  get_command_by_id, get_max_observation_version, insert_payment_outcome_observation,
}
use revenue_degradation_reco.Execution.Repository.Events.{get_canonical_terminal_events}

-- `uuid5` on a command and a version, and the milliseconds between two instants, which Python takes
-- through a float: `int((b - a).total_seconds() * 1000)`.
pub record ObservationNames : Type 0 where
  pub make_observation_id : ℕ → ℕ → ℕ
  pub elapsed_ms : ℕ → ℕ → ℤ

-- Whether the events have more than one type.
abbrev pub another_type : String → List PaymentEvent → Bool
another_type t [] = false
another_type t (e ∷ es) = not (e.event_type =s= t) || another_type t es

abbrev pub has_conflict : List PaymentEvent → Bool
has_conflict [] = false
has_conflict (e ∷ es) = another_type e.event_type es

-- Step 3, by the terminal events in the order of their ingestion.
unfoldable pub derive_outcome : List PaymentEvent → PaymentOutcome
derive_outcome [] = unknown_in_flight
derive_outcome (first ∷ later) =
    if first.event_type =s= "payment.captured" then captured else payment_failed

unfoldable pub audit_of : List PaymentEvent → ObservationAudit
audit_of events = record {
  terminal_event_count = length events;
  conflict_detected = has_conflict events;
  conflicting_events =
      if has_conflict events then map (λ (e : PaymentEvent). e.event_id) events else [];
}

unfoldable pub terminal_id : List PaymentEvent → Option ℕ
terminal_id [] = none
terminal_id (first ∷ later) = some first.event_id

unfoldable pub terminal_type : List PaymentEvent → Option String
terminal_type [] = none
terminal_type (first ∷ later) = some first.event_type

unfoldable pub terminal_time : List PaymentEvent → Option ℕ
terminal_time [] = none
terminal_time (first ∷ later) = some first.timestamp

-- `max(0, delta_ms)`
unfoldable pub time_to_outcome :
    ObservationNames → InterventionCommand → List PaymentEvent → Option ℕ
time_to_outcome names cmd [] = none
time_to_outcome names cmd (first ∷ later) =
    some (pos_part (max_ℤ (pos 0) (names.elapsed_ms cmd.created_at first.timestamp)))

unfoldable pub new_observation :
    ObservationNames
    → ℕ
    → InterventionCommand
    → ℕ
    → ℕ
    → ℕ
    → List PaymentEvent
    → PaymentOutcomeObservation
new_observation names command_id cmd as_of now version events = record {
  observation_id = names.make_observation_id command_id version;
  command_id = command_id;
  payment_attempt_id = cmd.payment_attempt_id;
  source_system = cmd.source_system;
  observation_version = version;
  observed_at = now;
  as_of_timestamp = as_of;
  payment_outcome = derive_outcome events;
  terminal_event_id = terminal_id events;
  terminal_event_type = terminal_type events;
  terminal_event_timestamp = terminal_time events;
  time_to_outcome_ms = time_to_outcome names cmd events;
  observation_audit_payload = audit_of events;
  created_at = now;
}

module _ {W : Type 0} where
  -- Step 4 on.
  append_observation :
      ObservationNames
      → ℕ
      → InterventionCommand
      → ℕ
      → ℕ
      → List PaymentEvent
      → Action (Database W) PaymentOutcomeObservation
  append_observation names command_id cmd as_of now events = do
    max_ver ← get_max_observation_version command_id
    insert_payment_outcome_observation
        (new_observation names command_id cmd as_of now (max_ver + 1) events)
    pure (new_observation names command_id cmd as_of now (max_ver + 1) events)

  observe_found :
      ObservationNames
      → ℕ
      → Option InterventionCommand
      → ℕ
      → ℕ
      → Action (Database W) PaymentOutcomeObservation
  observe_found names command_id none as_of now = raise command_not_found
  observe_found names command_id (some cmd) as_of now = do
    ref ← lift (for_key cmd.source_system cmd.payment_attempt_id)
    require ref
    terminal_events ←
        get_canonical_terminal_events cmd.payment_attempt_id as_of (some cmd.source_system)
    append_observation names command_id cmd as_of now terminal_events

  -- `now` is the clock; the caller has chosen `as_of`.
  unfoldable pub observe :
      ObservationNames → ℕ → ℕ → ℕ → Action (Database W) PaymentOutcomeObservation
  unfolding append_observation observe_found
  observe names command_id as_of now = do
    found ← get_command_by_id command_id
    observe_found names command_id found as_of now

-- ===== src/Execution/Examples.antt =====
-- The theorems on commands and observations at a concrete payment.
use revenue_degradation_reco.Prelude.{
  ◌+◌, ◌*◌, ◌/◌, ◌≡◌, ◌≤◌, ◌<◌, refl, ◌↔◌, none, some, [], ◌∷◌, ◌++◌, true, false, inr, arith, All,
  ◌==◌,
}
use revenue_degradation_reco.Prelude.Int.{ℤ, pos, sub_ℕ}
use revenue_degradation_reco.Errors.{ok, err, integrity_error}
use revenue_degradation_reco.Action.{transact}
use revenue_degradation_reco.Events.{PaymentEvent}
use revenue_degradation_reco.Store.{Database}
use revenue_degradation_reco.Intervention.Models.{
  InterventionDecision, act, passed, retry_secondary_gateway,
}
use revenue_degradation_reco.Attempts.Examples.{authorized_event, pay_1_row}
use revenue_degradation_reco.Execution.Models.{
  InterventionCommand, ExecutionResult, PaymentOutcomeObservation, unknown_in_flight,
}
use revenue_degradation_reco.Execution.Repository.{
  get_command_by_id, get_command_by_decision_id, get_command_by_attempt_and_version, insert_command,
  get_max_observation_version, insert_payment_outcome_observation,
}
use revenue_degradation_reco.Attempts.Identity.{
  for_key, attempt_ref, valid_identity, is_pipeline_provider, paypal_order_id, validate_provider,
  is_terminal_type,
}
use revenue_degradation_reco.Attempts.Registry.{require}
use revenue_degradation_reco.Execution.Repository.Events.{
  check_terminal_event_exists_before, terminal_by_key, payment_terminal, terminal_of_provider,
  get_canonical_terminal_events,
}
use revenue_degradation_reco.Execution.Simulator.{Writing, simulate, always_succeed, always_fail}
use revenue_degradation_reco.Execution.Service.{
  CommandNames, create_command, execute_command, new_command, executable,
}
use revenue_degradation_reco.Execution.Service.Dispatch.{dispatches}
use revenue_degradation_reco.Execution.Service.Runs.{
  Run, idle, create, execute, dispatched_once, settle,
}
use revenue_degradation_reco.Execution.Service.Repeats.{create_command_twice}
use revenue_degradation_reco.Execution.Service.Barrier.{EndsClosed, execute_command-barrier}
use revenue_degradation_reco.Execution.Observation.{ObservationNames, observe, new_observation}
use revenue_degradation_reco.Execution.Observation.Barrier.{with_event, observe-with_event}
use revenue_degradation_reco.Execution.Observation.Outcome.{observe-unknown, with_observation}
use revenue_degradation_reco.Execution.Observation.Versions.{observe-versions}

abbrev names : CommandNames
names = record { make_command_id = λ d. d + 100; idempotency_key = λ d. "cmd_7" }

abbrev pub decision_7 : InterventionDecision ℤ
decision_7 = record {
  decision_id = 7;
  payment_attempt_id = "pay_1";
  source_system = "razorpay";
  decision_version = 1;
  decided_at = 1_000;
  decision_type = act;
  selected_route_id = some retry_secondary_gateway;
  failure_probability = some (pos 8_000);
  stage5_prediction_id = some 5;
  diagnosis_confidence = some "STRONG";
  decision_confidence = pos 9_000;
  gate_verdict = passed;
  policy_id = "p";
  policy_version = "1";
  input_fingerprint = "f";
  created_at = 1_000;
}

abbrev pub captured_event : PaymentEvent
captured_event = record authorized_event {
  event_id = 2;
  source_event_id = "evt_2";
  event_type = "payment.captured";
  ingested_at = 9_000;
  timestamp = 8_500;
}

abbrev decided : Database ℤ
decided = record {
  payment_events = authorized_event ∷ captured_event ∷ [];
  payment_health_snapshots = [];
  degradation_signals = [];
  degradation_episodes = [];
  episode_state_history = [];
  rca_evaluations = [];
  rca_candidate_causes = [];
  payment_attempts = pay_1_row ∷ [];
  intervention_decisions = decision_7 ∷ [];
  intervention_commands = [];
  intervention_execution_attempts = [];
  payment_outcome_observations = [];
  failure_predictions = [];
  counterfactual_attributions = [];
}

abbrev pub command_107 : InterventionCommand
command_107 = new_command names decision_7 retry_secondary_gateway 300 2_000

abbrev pub commanded : Database ℤ
commanded = record decided { intervention_commands = command_107 ∷ [] }

created : create_command names decision_7 300 2_000 decided ≡ (ok command_107, commanded)
unfolding create_command executable for_key attempt_ref valid_identity is_pipeline_provider
    paypal_order_id require get_command_by_decision_id get_command_by_attempt_and_version
    validate_provider insert_command
created = refl

create_command_twice_example :
    create_command names decision_7 60 5_000 commanded ≡ (ok command_107, commanded)
create_command_twice_example =
    create_command_twice names decision_7 300 2_000 60 5_000 decided commanded command_107 created

abbrev writing : Writing
writing = record { str_uuid = λ n. "id"; dumps = λ fields. "{}" }

abbrev working : InterventionCommand → ExecutionResult
working =
    simulate writing
      (record { mode = always_succeed; simulated_duration_ms = 15; route_status_map = λ r. none })

abbrev broken : InterventionCommand → ExecutionResult
broken =
    simulate writing
      (record { mode = always_fail; simulated_duration_ms = 15; route_status_map = λ r. none })

-- Two workers run for the command, the second between the reads and the claim of the first.
abbrev rival : Database ℤ → Database ℤ
rival db = settle db (execute_command broken (λ d. d) 107 3_000 41 db)

abbrev made : Database ℤ
made = (transact (create_command names decision_7 300 2_000) decided).1

abbrev raced : Database ℤ
raced = settle (rival made) (execute_command working rival 107 3_000 42 made)

race : Run decided raced
race =
    execute working rival 107 3_000 42 (λ db. execute broken (λ d. d) 107 3_000 41 (λ d. idle) idle)
      (create names decision_7 300 2_000 idle)

dispatched_once_example : dispatches 107 raced ≤ 1
dispatched_once_example = dispatched_once 107 race refl

terminal_seen : (check_terminal_event_exists_before "pay_1" 9_000 none commanded).0 ≡ ok true
unfolding check_terminal_event_exists_before terminal_by_key payment_terminal paypal_order_id
    is_terminal_type
terminal_seen = refl

execute_command-barrier_example :
    EndsClosed 107 9_000 command_107 commanded
      (execute_command working (λ d. d) 107 9_000 1 commanded)
    × (execute_command working (λ d. d) 107 9_000 1 commanded
        ≡ execute_command broken (λ d. d) 107 9_000 1 commanded)
execute_command-barrier_example =
    execute_command-barrier working broken (λ d. d) command_107 107 9_000 1 commanded refl refl
      (inr terminal_seen)

abbrev observing : ObservationNames
observing = record {
  make_observation_id = λ c v. c * 10 + v;
  elapsed_ms = λ from to. sub_ℕ (to / 1_000) (from / 1_000);
}

abbrev early : PaymentOutcomeObservation
early = new_observation observing 107 command_107 5_000 5_500 1 []

observed_early :
    observe observing 107 5_000 5_500 commanded ≡ (ok early, with_observation early commanded)
unfolding observe get_command_by_id for_key attempt_ref valid_identity is_pipeline_provider
    paypal_order_id require get_canonical_terminal_events validate_provider terminal_of_provider
    payment_terminal is_terminal_type get_max_observation_version insert_payment_outcome_observation
    new_observation
observed_early = refl

observe-with_event_example :
    (observe observing 107 5_000 5_500 (with_event captured_event commanded)).0
    ≡ (observe observing 107 5_000 5_500 commanded).0
observe-with_event_example =
    observe-with_event observing 107 5_000 5_500 captured_event commanded (ground arith)

observe-unknown_example : (early.payment_outcome ≡ unknown_in_flight) ↔ (
    (check_terminal_event_exists_before early.payment_attempt_id 5_000
      (some early.source_system)
      commanded).0
    ≡ ok false)
observe-unknown_example =
    observe-unknown observing 107 5_000 5_500 commanded (with_observation early commanded) early
      observed_early

observe-versions_example :
    ((with_observation early commanded).payment_outcome_observations
      ≡ commanded.payment_outcome_observations ++ early ∷ [])
    × All
        (λ (p : PaymentOutcomeObservation).
          (p.command_id == 107) ≡ true → p.observation_version < early.observation_version)
        commanded.payment_outcome_observations
    × (observe observing 107 5_000 6_000 (with_observation early commanded)
        ≡ (err integrity_error, with_observation early commanded))
observe-versions_example =
    observe-versions observing 107 5_000 5_500 6_000 commanded (with_observation early commanded)
      early observed_early

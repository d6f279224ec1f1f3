-- ===== src/Execution/Service.antt =====
-- src/core/execution/execution_service.py: commands are created from decisions, claimed and dispatched.
pub mod Dispatch
pub mod Claim
pub mod Once
pub mod Runs
pub mod Repeats
pub mod Closing
pub mod Barrier
use revenue_degradation_reco.Prelude.{
  ℕ, ◌+◌, ◌*◌, String, Option, none, some, Bool, true, false, not, ◌=s=◌, leb, if◌then◌else◌,
}
use revenue_degradation_reco.Prelude.Texts.{is_empty}
use revenue_degradation_reco.Errors.{
  Error, Result, ok, err, invalid_decision_for_execution, attempt_provider_conflict,
  command_not_found, assertion_error, guard,
}
use revenue_degradation_reco.Action.{Action, pure, raise, lift, ◌>>=◌, ◌>>◌}
use revenue_degradation_reco.Store.{Database}
use revenue_degradation_reco.Attempts.Identity.{for_key}
use revenue_degradation_reco.Attempts.Registry.{require}
use revenue_degradation_reco.Intervention.Models.{
  DecisionType, no_action, monitor, act, GateVerdict, passed, InterventionDecision,
  InterventionRouteKey,
}
use revenue_degradation_reco.Execution.Models.{
  CommandStatus, pending, executing, succeeded, failed, expired, not_needed, ExecutionResultStatus,
  success, failure, timeout, InterventionCommand, ExecutionAttempt, ExecutionResult,
}
use revenue_degradation_reco.Execution.Transitions.{is_pending, validate_transition}
use revenue_degradation_reco.Execution.Repository.{
  get_command_by_id, get_command_by_decision_id, get_command_by_attempt_and_version, insert_command,
  update_command_status_atomic, get_max_attempt_number, insert_execution_attempt,
}
use revenue_degradation_reco.Execution.Repository.Events.{check_terminal_event_exists_before}

-- What `uuid5` and `str` make of a decision's UUID.
pub record CommandNames : Type 0 where
  pub make_command_id : ℕ → ℕ
  pub idempotency_key : ℕ → String

abbrev pub is_act : DecisionType → Bool
is_act act = true
is_act no_action = false
is_act monitor = false

abbrev pub is_passed : GateVerdict → Bool
is_passed passed = true
is_passed _ = false

-- `error_message or "EXECUTOR_FAILURE"`
abbrev pub or_failure : Option String → String
or_failure none = "EXECUTOR_FAILURE"
or_failure (some message) = if is_empty message then "EXECUTOR_FAILURE" else message

-- The status and the reason that a result leads to.
abbrev pub final_status : ExecutionResultStatus → CommandStatus
final_status success = succeeded
final_status failure = failed
final_status timeout = failed

abbrev pub final_reason : ExecutionResultStatus → Option String → Option String
final_reason success message = none
final_reason timeout message = some "EXECUTOR_TIMEOUT"
final_reason failure message = some (or_failure message)

abbrev pub attempt_end : ℕ → ExecutionResult → ℕ
attempt_end claim_time result = claim_time + result.duration_ms * 1000

abbrev pub new_attempt : InterventionCommand → ExecutionResult → ℕ → ℕ → ℕ → ExecutionAttempt
new_attempt cmd result claim_time attempt_id attempt_num = record {
  attempt_id = attempt_id;
  command_id = cmd.command_id;
  source_system = cmd.source_system;
  attempt_number = attempt_num;
  started_at = claim_time;
  completed_at = attempt_end claim_time result;
  duration_ms = result.duration_ms;
  execution_status = result.status;
  executor_name = result.executor_name;
  is_simulation = result.is_simulation;
  provider_action_type = result.provider_action_type;
  provider_response_code = result.provider_response_code;
  provider_response_payload = result.provider_response_payload;
  error_message = result.error_message;
  created_at = attempt_end claim_time result;
}

module _ {W : Type 0} where
  abbrev pub new_command :
      CommandNames → InterventionDecision W → InterventionRouteKey → ℕ → ℕ → InterventionCommand
  new_command names decision route expires_in_seconds now = record {
    command_id = names.make_command_id decision.decision_id;
    decision_id = decision.decision_id;
    payment_attempt_id = decision.payment_attempt_id;
    source_system = decision.source_system;
    decision_version = decision.decision_version;
    route_key = route;
    policy_id = decision.policy_id;
    policy_version = decision.policy_version;
    command_status = pending;
    status_reason = none;
    idempotency_key = names.idempotency_key decision.decision_id;
    created_at = now;
    expires_at = now + expires_in_seconds * 1_000_000;
    updated_at = now;
  }

  -- The checks of step 1, which give the route.
  unfoldable pub executable : InterventionDecision W → Result InterventionRouteKey
  executable decision =
      if is_act decision.decision_type
      then elim decision.selected_route_id [
        | none ↦ err invalid_decision_for_execution
        | some route ↦
            if is_passed decision.gate_verdict then ok route else err invalid_decision_for_execution
      ]
      else err invalid_decision_for_execution

  -- Step 2: what is there already, by the decision and by the version.
  existing_or :
      InterventionDecision W
      → Option InterventionCommand
      → Action (Database W) InterventionCommand
      → Action (Database W) InterventionCommand
  existing_or decision none k = k
  existing_or decision (some existing) k =
      if existing.source_system =s= decision.source_system
      then pure existing
      else raise attempt_provider_conflict

  version_or :
      Option InterventionCommand
      → Action (Database W) InterventionCommand
      → Action (Database W) InterventionCommand
  version_or none k = k
  version_or (some existing) k = pure existing

  insert_new : InterventionCommand → Action (Database W) InterventionCommand
  insert_new command = do insert_command command; pure command

  -- Steps 2 and 3.
  create_from :
      InterventionDecision W → InterventionCommand → Action (Database W) InterventionCommand
  create_from decision command = do
    existing ← get_command_by_decision_id decision.decision_id
    existing_or decision existing (do
      same ←
          get_command_by_attempt_and_version decision.payment_attempt_id decision.decision_version
            (some decision.source_system)
      version_or same (insert_new command))

  unfoldable pub create_command :
      CommandNames → InterventionDecision W → ℕ → ℕ → Action (Database W) InterventionCommand
  unfolding existing_or version_or insert_new create_from
  create_command names decision expires_in_seconds now = do
    route ← lift (executable decision)
    ref ← lift (for_key decision.source_system decision.payment_attempt_id)
    require ref
    create_from decision (new_command names decision route expires_in_seconds now)

  -- `updated_cmd or cmd`
  abbrev pub reread : InterventionCommand → Action (Database W) InterventionCommand
  reread cmd = do
    updated ← get_command_by_id cmd.command_id
    elim updated [ none ↦ pure cmd | some c ↦ pure c ]

  -- Barriers A and B: the command is closed before it is dispatched.
  pub close :
      InterventionCommand → CommandStatus → String → ℕ → Action (Database W) InterventionCommand
  close cmd target reason claim_time = do
    lift (validate_transition cmd.command_status target)
    done ← update_command_status_atomic cmd.command_id pending target (some reason) claim_time
    reread cmd

  -- `assert cmd is not None`
  pub asserted : Option InterventionCommand → Action (Database W) InterventionCommand
  asserted none = raise assertion_error
  asserted (some cmd) = pure cmd

  -- Step 8: the result closes the command.
  pub finish : InterventionCommand → ExecutionResult → ℕ → Action (Database W) InterventionCommand
  unfolding asserted
  finish cmd result claim_time = do
    lift (validate_transition executing (final_status result.status))
    done ←
        update_command_status_atomic cmd.command_id executing (final_status result.status)
          (final_reason result.status result.error_message) (attempt_end claim_time result)
    updated ← get_command_by_id cmd.command_id
    asserted updated

  -- Steps 6 to 8, on the command that has been claimed. The executor is a parameter; `attempt_id` is
  -- what `uuid4` draws.
  unfoldable pub dispatch :
      (InterventionCommand → ExecutionResult)
      → InterventionCommand
      → ℕ
      → ℕ
      → Action (Database W) InterventionCommand
  dispatch executor cmd claim_time attempt_id = do
    max_number ← get_max_attempt_number cmd.command_id
    insert_execution_attempt (new_attempt cmd (executor cmd) claim_time attempt_id (max_number + 1))
    finish cmd (executor cmd) claim_time

  -- What other transactions commit between the reads and the claim.
  others_commit : (Database W → Database W) → Action (Database W) Unit
  others_commit others db = (ok tt, others db)

  -- The command is dispatched unless another worker has it.
  after_claim :
      (InterventionCommand → ExecutionResult)
      → InterventionCommand
      → ℕ
      → ℕ
      → Bool
      → Action (Database W) InterventionCommand
  unfolding asserted
  after_claim executor cmd claim_time attempt_id false = reread cmd
  after_claim executor cmd claim_time attempt_id true = do
    found ← get_command_by_id cmd.command_id
    claimed_cmd ← asserted found
    dispatch executor claimed_cmd claim_time attempt_id

  -- Step 5 on: claim the command.
  pub claim :
      (InterventionCommand → ExecutionResult)
      → (Database W → Database W)
      → InterventionCommand
      → ℕ
      → ℕ
      → Action (Database W) InterventionCommand
  claim executor others cmd claim_time attempt_id = do
    lift (validate_transition cmd.command_status executing)
    others_commit others
    claimed ← update_command_status_atomic cmd.command_id pending executing none claim_time
    after_claim executor cmd claim_time attempt_id claimed

  -- Steps 3 and 4 on, for a command that is still pending.
  attempt_pending :
      (InterventionCommand → ExecutionResult)
      → (Database W → Database W)
      → InterventionCommand
      → ℕ
      → ℕ
      → Action (Database W) InterventionCommand
  attempt_pending executor others cmd claim_time attempt_id =
      if leb cmd.expires_at claim_time
      then close cmd expired "COMMAND_EXPIRED_BEFORE_DISPATCH" claim_time
      else (do
        terminal_exists ← check_terminal_event_exists_before cmd.payment_attempt_id claim_time none
        if terminal_exists
            then close cmd not_needed "TERMINAL_OUTCOME_ALREADY_INGESTED" claim_time
            else claim executor others cmd claim_time attempt_id)

  execute_found :
      (InterventionCommand → ExecutionResult)
      → (Database W → Database W)
      → Option InterventionCommand
      → ℕ
      → ℕ
      → Action (Database W) InterventionCommand
  execute_found executor others none claim_time attempt_id = raise command_not_found
  execute_found executor others (some cmd) claim_time attempt_id = do
    ref ← lift (for_key cmd.source_system cmd.payment_attempt_id)
    require ref
    if not (is_pending cmd.command_status)
        then pure cmd
        else attempt_pending executor others cmd claim_time attempt_id

  unfoldable pub execute_command :
      (InterventionCommand → ExecutionResult)
      → (Database W → Database W)
      → ℕ
      → ℕ
      → ℕ
      → Action (Database W) InterventionCommand
  unfolding asserted finish dispatch others_commit after_claim claim attempt_pending execute_found
      close
  execute_command executor others command_id claim_time attempt_id = do
    found ← get_command_by_id command_id
    execute_found executor others found claim_time attempt_id

-- ===== src/Execution/Repository.antt =====
-- src/infrastructure/execution_repository.py: reads and writes of the Stage 7 tables.
pub mod Events
pub mod Histories
pub mod Rows
use Prim.Native.String.{String}
use revenue_degradation_reco.Prelude.{
  ℕ, suc, ◌+◌, Option, none, some, List, [], ◌∷◌, ◌++◌, Bool, true, false, not, ◌&&◌, ◌||◌, ◌==◌,
  ◌=s=◌, leb, ltb, if◌then◌else◌, find, count_if,
}
use revenue_degradation_reco.Errors.{Error, Result, ok, err, integrity_error, data_error, guard}
use revenue_degradation_reco.Action.{Action, pure, raise, lift, gets, ◌>>=◌, ◌>>◌}
use revenue_degradation_reco.Store.{RegistryRow, Database}
use revenue_degradation_reco.Attempts.Identity.{validate_provider}
use revenue_degradation_reco.Attempts.Registry.{exists}
use revenue_degradation_reco.Intervention.Models.{InterventionDecision}
use revenue_degradation_reco.Execution.Models.{
  CommandStatus, InterventionCommand, ExecutionAttempt, PaymentOutcomeObservation,
}
use revenue_degradation_reco.Execution.Transitions.{same_status}

-- The number of characters of a text, and whether it fits its column.
abbrev pub text_length : String → ℕ
text_length String.[] = 0
text_length (String.◌∷◌ c s) = suc (text_length s)

abbrev pub fits : Option String → ℕ → Bool
fits none limit = true
fits (some s) limit = leb (text_length s) limit

abbrev pub is_command : ℕ → InterventionCommand → Bool
is_command id c = c.command_id == id

-- What an UPDATE sets.
abbrev pub set_status :
    CommandStatus → Option String → ℕ → InterventionCommand → InterventionCommand
set_status target reason now c = record c {
  command_status = target;
  status_reason = reason;
  updated_at = now;
}

-- UPDATE … WHERE: the rows after, and the count of rows that were set.
abbrev pub update_where :
    (InterventionCommand → Bool)
    → (InterventionCommand → InterventionCommand)
    → List InterventionCommand
    → List InterventionCommand
update_where p f [] = []
update_where p f (c ∷ cs) = (if p c then f c else c) ∷ update_where p f cs

-- `max(column) or 0` over the rows of a command.
abbrev pub larger : ℕ → ℕ → ℕ
larger a b = if ltb a b then b else a

abbrev pub max_attempt : ℕ → List ExecutionAttempt → ℕ
max_attempt id [] = 0
max_attempt id (a ∷ rest) =
    let later = max_attempt id rest in
    if a.command_id == id then larger a.attempt_number later else later

abbrev pub max_observation : ℕ → List PaymentOutcomeObservation → ℕ
max_observation id [] = 0
max_observation id (o ∷ rest) =
    let later = max_observation id rest in
    if o.command_id == id then larger o.observation_version later else later

-- uq_cmd_decision, uq_cmd_idempotency_key, uq_cmd_attempt_version and the primary key
abbrev pub clashes : InterventionCommand → InterventionCommand → Bool
clashes c d =
    c.command_id == d.command_id
    || (c.decision_id == d.decision_id
        || (c.idempotency_key =s= d.idempotency_key
            || (c.payment_attempt_id =s= d.payment_attempt_id
                && (c.source_system =s= d.source_system
                    && c.decision_version == d.decision_version))))

-- fk_intervention_commands_payment_attempt
abbrev pub owns : InterventionCommand → RegistryRow → Bool
owns c row =
    row.payment_attempt_id =s= c.payment_attempt_id && row.source_system =s= c.source_system

-- uq_exec_attempt_number and the primary key
abbrev pub attempt_clashes : ExecutionAttempt → ExecutionAttempt → Bool
attempt_clashes a b =
    a.attempt_id == b.attempt_id
    || (a.command_id == b.command_id && a.attempt_number == b.attempt_number)

-- uq_outcome_observation_version, uq_outcome_observation_temporal and the primary key
abbrev pub observation_clashes : PaymentOutcomeObservation → PaymentOutcomeObservation → Bool
observation_clashes a b =
    a.observation_id == b.observation_id
    || (a.command_id == b.command_id
        && (a.observation_version == b.observation_version
            || a.as_of_timestamp == b.as_of_timestamp))

-- fk_exec_attempt_command, fk_observation_command
abbrev pub is_command_of : ℕ → String → InterventionCommand → Bool
is_command_of id source c = c.command_id == id && c.source_system =s= source

abbrev pub has_status : ℕ → CommandStatus → InterventionCommand → Bool
has_status id s c = c.command_id == id && same_status c.command_status s

abbrev pub observed_attempt : PaymentOutcomeObservation → RegistryRow → Bool
observed_attempt o row =
    row.payment_attempt_id =s= o.payment_attempt_id && row.source_system =s= o.source_system

module _ {W : Type 0} where
  -- fk_command_decision
  abbrev pub decided : InterventionCommand → InterventionDecision W → Bool
  decided c d = d.decision_id == c.decision_id && d.source_system =s= c.source_system

  abbrev pub command_by_id : ℕ → Database W → Option InterventionCommand
  command_by_id id db = find (is_command id) db.intervention_commands

  unfoldable pub get_command_by_id : ℕ → Action (Database W) (Option InterventionCommand)
  get_command_by_id id = gets (command_by_id id)

  unfoldable pub get_command_by_decision_id : ℕ → Action (Database W) (Option InterventionCommand)
  get_command_by_decision_id id =
      gets (λ db. find (λ c. c.decision_id == id) db.intervention_commands)

  -- The join with payment_attempts asks for a registered owner of the row.
  abbrev pub of_version : Database W → String → ℕ → String → InterventionCommand → Bool
  of_version db attempt version source c =
      c.payment_attempt_id =s= attempt
      && (c.decision_version == version
          && (c.source_system =s= source && exists (find (owns c) db.payment_attempts)))

  unfoldable pub get_command_by_attempt_and_version :
      String → ℕ → Option String → Action (Database W) (Option InterventionCommand)
  get_command_by_attempt_and_version attempt version none = gets (λ db.
      find (λ c. c.payment_attempt_id =s= attempt && c.decision_version == version)
        db.intervention_commands)
  get_command_by_attempt_and_version attempt version (some source) = do
    lift (validate_provider (some source)) >>= λ _.
        gets (λ db. find (of_version db attempt version source) db.intervention_commands)

  unfoldable pub insert_command : InterventionCommand → Action (Database W) Unit
  insert_command c db =
      if exists (find (clashes c) db.intervention_commands)
        || not (
            exists (find (owns c) db.payment_attempts)
            && exists (find (decided c) db.intervention_decisions))
      then (err integrity_error, db)
      else (ok tt, record db { intervention_commands = db.intervention_commands ++ c ∷ [] })

  -- `status_reason` is a column of 255 characters.
  unfoldable pub update_command_status_atomic :
      ℕ → CommandStatus → CommandStatus → Option String → ℕ → Action (Database W) Bool
  update_command_status_atomic id expected_status target_status reason now db =
      let n = count_if (has_status id expected_status) db.intervention_commands in
      if fits reason 255 || n == 0
      then (
        ok (n == 1),
        record db {
          intervention_commands =
              update_where (has_status id expected_status) (set_status target_status reason now)
                db.intervention_commands;
        },
      )
      else (err data_error, db)

  unfoldable pub get_max_attempt_number : ℕ → Action (Database W) ℕ
  get_max_attempt_number id = gets (λ db. max_attempt id db.intervention_execution_attempts)

  -- `error_message` is a column of 1024 characters.
  unfoldable pub insert_execution_attempt : ExecutionAttempt → Action (Database W) Unit
  insert_execution_attempt a db =
      if not (fits a.error_message 1024)
      then (err data_error, db)
      else if exists (find (attempt_clashes a) db.intervention_execution_attempts)
          || not
              (exists (find (is_command_of a.command_id a.source_system) db.intervention_commands))
      then (err integrity_error, db)
      else (
        ok tt,
        record db {
          intervention_execution_attempts = db.intervention_execution_attempts ++ a ∷ [];
        },
      )

  unfoldable pub get_max_observation_version : ℕ → Action (Database W) ℕ
  get_max_observation_version id = gets (λ db. max_observation id db.payment_outcome_observations)

  unfoldable pub insert_payment_outcome_observation :
      PaymentOutcomeObservation → Action (Database W) Unit
  insert_payment_outcome_observation o db =
      if exists (find (observation_clashes o) db.payment_outcome_observations)
        || not (
            exists (find (is_command_of o.command_id o.source_system) db.intervention_commands)
            && exists (find (observed_attempt o) db.payment_attempts))
      then (err integrity_error, db)
      else (
        ok tt,
        record db { payment_outcome_observations = db.payment_outcome_observations ++ o ∷ [] },
      )

-- ===== src/Execution/Repository/Histories.antt =====
-- The remaining operations of src/infrastructure/execution_repository.py: the unguarded update, and the
-- histories of a command.
use revenue_degradation_reco.Prelude.{
  ℕ, Option, none, some, List, [], ◌∷◌, String, Bool, true, false, ◌==◌, ◌=s=◌, ◌||◌, count_if, leb,
  if◌then◌else◌, select,
}
use revenue_degradation_reco.Errors.{ok, err, data_error, attempt_provider_conflict}
use revenue_degradation_reco.Action.{Action}
use revenue_degradation_reco.Store.{Database}
use revenue_degradation_reco.Execution.Models.{
  CommandStatus, InterventionCommand, ExecutionAttempt, PaymentOutcomeObservation,
}
use revenue_degradation_reco.Execution.Repository.{
  fits, is_command, set_status, update_where, command_by_id,
}

-- ORDER BY a number, ascending.
abbrev pub insert_by {ℓ} : {A : Type ℓ} → (A → ℕ) → A → List A → List A
insert_by key x [] = x ∷ []
insert_by key x (y ∷ ys) =
    let rest = y ∷ insert_by key x ys in if leb (key x) (key y) then x ∷ y ∷ ys else rest

abbrev pub order_by {ℓ} : {A : Type ℓ} → (A → ℕ) → List A → List A
order_by key [] = []
order_by key (x ∷ xs) = insert_by key x (order_by key xs)

-- The row of the highest version comes first.
abbrev pub last_of {ℓ} : {A : Type ℓ} → List A → Option A
last_of [] = none
last_of (x ∷ []) = some x
last_of (x ∷ y ∷ ys) = last_of (y ∷ ys)

-- A row's provider must be its command's, where the command is there.
abbrev pub provider_ok : Option InterventionCommand → String → Bool
provider_ok none source = true
provider_ok (some c) source = source =s= c.source_system

abbrev pub all_ok {ℓ} : {A : Type ℓ} → (A → Bool) → List A → Bool
all_ok p [] = true
all_ok p (x ∷ xs) = if p x then all_ok p xs else false

module _ {W : Type 0} where
  unfoldable pub set_command_status :
      ℕ → CommandStatus → Option String → ℕ → Action (Database W) Unit
  set_command_status id target_status reason now db =
      if fits reason 255 || count_if (is_command id) db.intervention_commands == 0
      then (
        ok tt,
        record db {
          intervention_commands =
              update_where (is_command id) (set_status target_status reason now)
                db.intervention_commands;
        },
      )
      else (err data_error, db)

  unfoldable pub get_execution_attempts : ℕ → Action (Database W) (List ExecutionAttempt)
  get_execution_attempts id db =
      let rows =
        order_by (λ (a : ExecutionAttempt). a.attempt_number)
          (select (λ (a : ExecutionAttempt). a.command_id == id)
            db.intervention_execution_attempts) in
      if all_ok (λ (a : ExecutionAttempt). provider_ok (command_by_id id db) a.source_system) rows
      then (ok rows, db)
      else (err attempt_provider_conflict, db)

  unfoldable pub observations_of : ℕ → Database W → List PaymentOutcomeObservation
  observations_of id db =
      order_by (λ (o : PaymentOutcomeObservation). o.observation_version)
        (select (λ (o : PaymentOutcomeObservation). o.command_id == id)
          db.payment_outcome_observations)

  checked_observation :
      ℕ → Option PaymentOutcomeObservation → Action (Database W) (Option PaymentOutcomeObservation)
  checked_observation id none db = (ok none, db)
  checked_observation id (some o) db =
      if provider_ok (command_by_id id db) o.source_system
      then (ok (some o), db)
      else (err attempt_provider_conflict, db)

  unfoldable pub get_latest_observation : ℕ → Action (Database W) (Option PaymentOutcomeObservation)
  unfolding checked_observation observations_of
  get_latest_observation id db = checked_observation id (last_of (observations_of id db)) db

  unfoldable pub get_all_observations : ℕ → Action (Database W) (List PaymentOutcomeObservation)
  unfolding observations_of
  get_all_observations id db =
      let rows = observations_of id db in
      if all_ok
        (λ (o : PaymentOutcomeObservation). provider_ok (command_by_id id db) o.source_system) rows
      then (ok rows, db)
      else (err attempt_provider_conflict, db)

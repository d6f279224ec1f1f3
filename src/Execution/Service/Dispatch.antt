-- ===== src/Execution/Service/Dispatch.antt =====
-- An update, an insert and a dispatch of execute_command (src/core/execution/execution_service.py) keep
-- that a command is dispatched once at most.
use revenue_degradation_reco.Prelude.{
  ℕ, ◌+◌, ◌≡◌, refl, ◌∙◌, Option, none, some, String, true, false, ◌||◌, ◌==◌, count_if, arith, ◌⊎◌,
  inl, inr, Bool-cases,
}
use revenue_degradation_reco.Errors.{ok}
use revenue_degradation_reco.Action.{◌>>=◌}
use revenue_degradation_reco.Action.Keeps.{Keeps, Keeps-bind, Keeps-continue}
use revenue_degradation_reco.Store.{Database}
use revenue_degradation_reco.Attempts.Registry.{exists}
use revenue_degradation_reco.Execution.Models.{
  CommandStatus, pending, executing, ExecutionResultStatus, success, failure, timeout,
  InterventionCommand, ExecutionAttempt, ExecutionResult,
}
use revenue_degradation_reco.Execution.Transitions.{is_pending, validate_transition}
use revenue_degradation_reco.Execution.Repository.{
  has_status, fits, max_attempt, command_by_id, update_command_status_atomic,
  insert_execution_attempt, get_command_by_id, get_max_attempt_number,
}
use revenue_degradation_reco.Execution.Repository.Rows.{
  of_command, NonPending, update_where-NonPending, update_where-claims, exists-update_where,
  count-append, NonPending-count, count-exists, insert_execution_attempt-cases,
}
use revenue_degradation_reco.Execution.Service.{
  dispatch, finish, new_attempt, final_status, final_reason, attempt_end, asserted,
}

final_not_pending : (s : ExecutionResultStatus) → is_pending (final_status s) ≡ false
final_not_pending success = refl
final_not_pending failure = refl
final_not_pending timeout = refl

module _ {W : Type 0} (id : ℕ) where
  -- How often the command has been dispatched.
  abbrev pub dispatches : Database W → ℕ
  dispatches db = count_if (of_command id) db.intervention_execution_attempts

  -- The command is there, and neither it nor a copy of it waits for a worker.
  pub record Taken (db : Database W) : Type 0 where
    pub nonpending : NonPending id db.intervention_commands
    pub there : exists (command_by_id id db) ≡ true

  -- It has not been dispatched, or it has been once and cannot be claimed again.
  abbrev pub OnceAtMost : Database W → Type 0
  OnceAtMost db = (dispatches db ≡ 0) ⊎ (dispatches db ≡ 1) × Taken db

  -- An update to a status that is not PENDING touches no attempt, and makes no command pending.
  update_Taken :
      (target_id : ℕ) (expected target : CommandStatus) (reason : Option String) (now : ℕ)
      (db : Database W)
      → is_pending target ≡ false
      → Taken db
      → Taken (update_command_status_atomic target_id expected target reason now db).1
  unfolding update_command_status_atomic
  update_Taken target_id expected target reason now db t h =
      elim (Bool-cases (
        fits reason 255
        || count_if (has_status target_id expected) db.intervention_commands == 0)) [
          | inl hit ↦ rw hit (record {
            nonpending =
                update_where-NonPending id (has_status target_id expected) target reason now
                  db.intervention_commands t h.nonpending;
            there =
                exists-update_where id (has_status target_id expected) target reason now
                  db.intervention_commands
                ∙ h.there;
          })
          | inr miss ↦ rw miss h
        ]

  dispatches-update :
      (target_id : ℕ) (expected target : CommandStatus) (reason : Option String) (now : ℕ)
      (db : Database W)
      → dispatches (update_command_status_atomic target_id expected target reason now db).1
        ≡ dispatches db
  unfolding update_command_status_atomic
  dispatches-update target_id expected target reason now db = ground arith

  pub update-OnceAtMost :
      (target_id : ℕ) (expected target : CommandStatus) (reason : Option String) (now : ℕ)
      → is_pending target ≡ false
      → Keeps OnceAtMost (update_command_status_atomic target_id expected target reason now)
  update-OnceAtMost target_id expected target reason now t db (inl none') =
      inl (dispatches-update target_id expected target reason now db ∙ none')
  update-OnceAtMost target_id expected target reason now t db (inr (once, taken)) = inr (
    dispatches-update target_id expected target reason now db ∙ once,
    update_Taken target_id expected target reason now db t taken,
  )

  -- A row of another command is not counted.
  insert-OnceAtMost :
      (a : ExecutionAttempt)
      → (a.command_id == id) ≡ false
      → Keeps OnceAtMost (insert_execution_attempt a)
  insert-OnceAtMost a other db h = elim (insert_execution_attempt-cases a db) [
    | inl (e, refused) ↦ rw refused h
    | inr done ↦ rw done (elim h [
      | inl zero' ↦ inl (
          count-append (of_command id) db.intervention_execution_attempts a
          ∙ rw other (ground (arith, zero')))
      | inr (once, taken) ↦ inr (
        count-append (of_command id) db.intervention_execution_attempts a
            ∙ rw other (ground (arith, once)),
        record { nonpending = taken.nonpending; there = taken.there },
      )
    ])
  ]

  -- The row that follows the claim is the first.
  insert-Taken :
      (a : ExecutionAttempt) (db : Database W)
      → dispatches db ≡ 0
      → Taken db
      → OnceAtMost (insert_execution_attempt a db).1
  insert-Taken a db zero' h = elim (insert_execution_attempt-cases a db) [
    | inl (e, refused) ↦ rw refused (inl zero')
    | inr done ↦ rw done (elim (Bool-cases (a.command_id == id)) [
      | inl same ↦ inr (
        count-append (of_command id) db.intervention_execution_attempts a
            ∙ rw same (ground (arith, zero')),
        record { nonpending = h.nonpending; there = h.there },
      )
      | inr other ↦ inl (
          count-append (of_command id) db.intervention_execution_attempts a
          ∙ rw other (ground (arith, zero')))
    ])
  ]

  -- A claim that succeeds finds the command undispatched, and leaves it taken.
  pub claim-Taken :
      (now : ℕ) (db : Database W)
      → OnceAtMost db
      → (update_command_status_atomic id pending executing none now db).0 ≡ ok true
      → dispatches (update_command_status_atomic id pending executing none now db).1 ≡ 0
        × Taken (update_command_status_atomic id pending executing none now db).1
  unfolding update_command_status_atomic
  claim-Taken now db h e = (
    elim h [
      | inl zero' ↦ zero'
      | inr (once, taken) ↦
          ground (arith, e, NonPending-count id db.intervention_commands taken.nonpending)
    ],
    record {
      nonpending = update_where-claims id executing none now db.intervention_commands refl;
      there =
          exists-update_where id (has_status id pending) executing none now db.intervention_commands
          ∙ count-exists id pending db.intervention_commands (ground (arith, e));
    },
  )

  asserted-OnceAtMost : (c : Option InterventionCommand) → Keeps OnceAtMost (asserted c)
  unfolding asserted
  asserted-OnceAtMost none db h = h
  asserted-OnceAtMost (some c) db h = h

  finish-OnceAtMost :
      (cmd : InterventionCommand) (result : ExecutionResult) (claim_time : ℕ)
      → Keeps OnceAtMost (finish cmd result claim_time)
  unfolding finish get_command_by_id
  finish-OnceAtMost cmd result claim_time db h =
      let target = final_status result.status in
      let reason = final_reason result.status result.error_message in
      let update =
        update_command_status_atomic cmd.command_id executing target reason
          (attempt_end claim_time result) in
      Keeps-continue OnceAtMost (validate_transition executing target, db)
        (λ _. update >>= λ _. get_command_by_id cmd.command_id >>= asserted) h
        (λ _ _.
          Keeps-bind OnceAtMost update (λ _. get_command_by_id cmd.command_id >>= asserted)
            (update-OnceAtMost cmd.command_id executing target reason
              (attempt_end claim_time result) (final_not_pending result.status))
            (λ _ db' h'. asserted-OnceAtMost (command_by_id cmd.command_id db') db' h') db h)

  -- Another command's dispatch leaves this one alone; its own follows a claim.
  pub dispatch-OnceAtMost :
      (executor : InterventionCommand → ExecutionResult) (cmd : InterventionCommand)
      (claim_time attempt_id : ℕ) (db : Database W)
      → ((cmd.command_id == id) ≡ false × OnceAtMost db) ⊎ (dispatches db ≡ 0 × Taken db)
      → OnceAtMost (dispatch executor cmd claim_time attempt_id db).1
  unfolding dispatch get_max_attempt_number
  dispatch-OnceAtMost executor cmd claim_time attempt_id db h =
      let row =
        new_attempt cmd (executor cmd) claim_time attempt_id
          (max_attempt cmd.command_id db.intervention_execution_attempts + 1) in
      Keeps-continue OnceAtMost (insert_execution_attempt row db)
        (λ _. finish cmd (executor cmd) claim_time)
        (elim h [
          | inl (other, before) ↦ insert-OnceAtMost row other db before
          | inr (zero', taken) ↦ insert-Taken row db zero' taken
        ])
        (λ _ _.
          finish-OnceAtMost cmd (executor cmd) claim_time (insert_execution_attempt row db).1
            (elim h [
              | inl (other, before) ↦ insert-OnceAtMost row other db before
              | inr (zero', taken) ↦ insert-Taken row db zero' taken
            ]))

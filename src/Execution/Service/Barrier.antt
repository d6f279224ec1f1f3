-- ===== src/Execution/Service/Barrier.antt =====
-- The barriers of execute_command (src/core/execution/execution_service.py) close a command before the
-- executor sees it.
use mathlib.Core.Path.{subst}
use revenue_degradation_reco.Prelude.{
  ℕ, ◌≡◌, refl, sym, ap, none, some, true, not, leb, if◌then◌else◌, arith, Bool-cases, inl, inr,
  ◌⊎◌,
}
use revenue_degradation_reco.Errors.{Error, Result, ok, err}
use revenue_degradation_reco.Action.{Action, continue, pure, lift, ◌>>=◌}
use revenue_degradation_reco.Action.Keeps.{same_after}
use revenue_degradation_reco.Store.{Database}
use revenue_degradation_reco.Attempts.Identity.{AttemptRef, for_key}
use revenue_degradation_reco.Attempts.Registry.{RegisteredAttempt, require}
use revenue_degradation_reco.Attempts.Registry.Laws.{require_by_rows}
use revenue_degradation_reco.Execution.Models.{
  pending, expired, not_needed, InterventionCommand, ExecutionResult,
}
use revenue_degradation_reco.Execution.Transitions.{is_pending, validate_transition}
use revenue_degradation_reco.Execution.Repository.{command_by_id, get_command_by_id}
use revenue_degradation_reco.Execution.Repository.Events.{
  check_terminal_event_exists_before, any_event, ingested_by, terminal_by_key,
}
use revenue_degradation_reco.Execution.Service.{execute_command, execute_found, attempt_pending}
use revenue_degradation_reco.Execution.Service.Closing.{
  closed_at, found_id, IsClosed, close-IsClosed,
}

module _ {W : Type 0} where
  -- The provider and the registration of the command, which are asked for first.
  abbrev pub identified : InterventionCommand → Action (Database W) RegisteredAttempt
  identified cmd = lift (for_key cmd.source_system cmd.payment_attempt_id) >>= λ ref. require ref

  attempt_pending-IsClosed :
      (executor : InterventionCommand → ExecutionResult) (others : Database W → Database W)
      (cmd : InterventionCommand) (claim_time attempt_id : ℕ) (db : Database W)
      → command_by_id cmd.command_id db ≡ some cmd
      → cmd.command_status ≡ pending
      → (leb cmd.expires_at claim_time ≡ true)
        ⊎ ((check_terminal_event_exists_before cmd.payment_attempt_id claim_time none db).0
            ≡ ok true)
      → IsClosed cmd.command_id
          (closed_at claim_time cmd)
          db
          (attempt_pending executor others cmd claim_time attempt_id db)
  unfolding attempt_pending check_terminal_event_exists_before validate_transition
  attempt_pending-IsClosed executor others cmd claim_time attempt_id db found waiting barrier =
      elim (Bool-cases (leb cmd.expires_at claim_time)) [
        | inl late ↦ rw late (
            close-IsClosed cmd expired "COMMAND_EXPIRED_BEFORE_DISPATCH" claim_time db found waiting
              refl refl)
        | inr early ↦
            let closing : any_event
                  (ingested_by claim_time (terminal_by_key cmd.payment_attempt_id))
                  db.payment_events
                ≡ true =
              ground (arith, barrier, early) in
            rw (early, closing)
              (close-IsClosed cmd not_needed "TERMINAL_OUTCOME_ALREADY_INGESTED" claim_time db found
                waiting refl refl)
      ]

  -- The step before dispatch ends at a barrier.
  attempt_pending-barrier :
      (executor executor' : InterventionCommand → ExecutionResult)
      (others : Database W → Database W) (cmd : InterventionCommand) (claim_time attempt_id : ℕ)
      (db : Database W)
      → (leb cmd.expires_at claim_time ≡ true)
        ⊎ ((check_terminal_event_exists_before cmd.payment_attempt_id claim_time none db).0
            ≡ ok true)
      → attempt_pending executor others cmd claim_time attempt_id db
        ≡ attempt_pending executor' others cmd claim_time attempt_id db
  unfolding attempt_pending check_terminal_event_exists_before
  attempt_pending-barrier executor executor' others cmd claim_time attempt_id db (inl late) =
      rw late refl
  attempt_pending-barrier executor executor' others cmd claim_time attempt_id db (inr over) =
      let closing : any_event (ingested_by claim_time (terminal_by_key cmd.payment_attempt_id))
            db.payment_events
          ≡ true =
        ground (arith, over) in
      elim (Bool-cases (leb cmd.expires_at claim_time)) [
        | inl late ↦ rw late refl
        | inr early ↦ rw (early, closing) refl
      ]

  -- How a call ends at a barrier: with the error of a command that is not identified, and nothing
  -- done, or with the command closed.
  abbrev pub EndsClosed :
      ℕ → ℕ → InterventionCommand → Database W → Result InterventionCommand × Database W → Type 0
  EndsClosed id claim_time cmd db r =
      ((x : Error) × ((identified cmd db).0 ≡ err x) × (r ≡ (err x, db)))
      ⊎ ((a : RegisteredAttempt) × ((identified cmd db).0 ≡ ok a)
          × IsClosed id (closed_at claim_time cmd) db r)

  after_require :
      (cmd : InterventionCommand) (claim_time : ℕ) (db : Database W)
      (step : Action (Database W) InterventionCommand)
      → IsClosed cmd.command_id (closed_at claim_time cmd) db (step db)
      → EndsClosed cmd.command_id claim_time cmd db (
          (lift (for_key cmd.source_system cmd.payment_attempt_id) >>= λ ref.
          require ref >>= λ _. step)
            db)
  after_require cmd claim_time db step closed =
      go (for_key cmd.source_system cmd.payment_attempt_id)
    where
      required :
          (r : Result RegisteredAttempt × Database W)
          → r ≡ (r.0, db)
          → ((x : Error) × (r.0 ≡ err x) × (continue r (λ _. step) ≡ (err x, db)))
            ⊎ ((a : RegisteredAttempt) × (r.0 ≡ ok a)
                × IsClosed cmd.command_id (closed_at claim_time cmd) db (continue r (λ _. step)))
      required (err x, s) e = inl (x, refl, ap (λ k. (err x, k)) (ap (λ k. k.1) e))
      required (ok a, s) e = inr (
        a,
        refl,
        subst (λ k. IsClosed cmd.command_id (closed_at claim_time cmd) db (step k))
            (sym (ap (λ k. k.1) e)) closed,
      )

      go :
          (key : Result AttemptRef)
          → ((x : Error) × ((continue (key, db) (λ ref. require ref)).0 ≡ err x)
              × (continue (key, db) (λ ref. require ref >>= λ _. step) ≡ (err x, db)))
            ⊎ ((a : RegisteredAttempt) × ((continue (key, db) (λ ref. require ref)).0 ≡ ok a)
                × IsClosed cmd.command_id
                    (closed_at claim_time cmd)
                    db
                    (continue (key, db) (λ ref. require ref >>= λ _. step)))
      go (err x) = inl (x, refl, refl)
      go (ok ref) = required (require ref db) (require_by_rows ref db db refl)

  -- A pending command that has expired, or whose payment has a terminal event ingested by the claim,
  -- is closed without the executor. Where its provider and registration are found, the call returns
  -- the command as EXPIRED, or as NOT_NEEDED if it has not expired, with the reason and the claim
  -- time, the table has it so, and every other command and table is as it was; where they are not,
  -- the error is raised and nothing changes. With any two executors the call has the same result.
  pub execute_command-barrier :
      (executor executor' : InterventionCommand → ExecutionResult)
      (others : Database W → Database W) (cmd : InterventionCommand)
      (command_id claim_time attempt_id : ℕ) (db : Database W)
      → command_by_id command_id db ≡ some cmd
      → cmd.command_status ≡ pending
      → (leb cmd.expires_at claim_time ≡ true)
        ⊎ ((check_terminal_event_exists_before cmd.payment_attempt_id claim_time none db).0
            ≡ ok true)
      → EndsClosed command_id claim_time cmd db
          (execute_command executor others command_id claim_time attempt_id db)
        × (execute_command executor others command_id claim_time attempt_id db
            ≡ execute_command executor' others command_id claim_time attempt_id db)
  unfolding execute_command execute_found get_command_by_id
  execute_command-barrier executor executor' others cmd command_id claim_time attempt_id db found
        waiting barrier =
      (
        subst
            (λ id.
              EndsClosed id claim_time cmd db
                (execute_command executor others command_id claim_time attempt_id db))
            same (rw found (after_require cmd claim_time db (step executor) closed)),
        rw found (
            same_after (lift (for_key cmd.source_system cmd.payment_attempt_id))
              (λ ref. require ref >>= λ _. step executor)
              (λ ref. require ref >>= λ _. step executor') db refl
              (λ ref.
                same_after (require ref) (λ _. step executor) (λ _. step executor') db
                  (require_by_rows ref db db refl)
                  (λ _. rw pend (
                    attempt_pending-barrier executor executor' others cmd claim_time attempt_id db
                      barrier)))),
      )
    where
      same : cmd.command_id ≡ command_id
      same = found_id command_id db.intervention_commands cmd found

      pend : is_pending cmd.command_status ≡ true
      pend = rw waiting refl

      step : (InterventionCommand → ExecutionResult) → Action (Database W) InterventionCommand
      step run =
          if not (is_pending cmd.command_status)
          then pure cmd
          else attempt_pending run others cmd claim_time attempt_id

      closed : IsClosed cmd.command_id (closed_at claim_time cmd) db (step executor db)
      closed = rw pend (
          attempt_pending-IsClosed executor others cmd claim_time attempt_id db
            (subst (λ id. command_by_id id db ≡ some cmd) (sym same) found) waiting barrier)

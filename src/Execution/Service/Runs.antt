-- ===== src/Execution/Service/Runs.antt =====
-- Runs of the service: commands are created and executed by workers that interleave.
use revenue_degradation_reco.Prelude.{ℕ, ◌≤◌, ◌≡◌, sym, ap, ◌∙◌, find, count_if, arith, inl, inr}
use mathlib.Core.Path.{subst}
use revenue_degradation_reco.Attempts.Registry.{exists}
use revenue_degradation_reco.Execution.Repository.{is_command}
use revenue_degradation_reco.Execution.Repository.Rows.{of_command, NonPending}
use revenue_degradation_reco.Errors.{Result, ok, err}
use revenue_degradation_reco.Action.{transact}
use revenue_degradation_reco.Action.Keeps.{Keeps-transact}
use revenue_degradation_reco.Store.{Database}
use revenue_degradation_reco.Intervention.Models.{InterventionDecision}
use revenue_degradation_reco.Execution.Models.{InterventionCommand, ExecutionResult}
use revenue_degradation_reco.Execution.Service.{CommandNames, create_command, execute_command}
use revenue_degradation_reco.Execution.Service.Dispatch.{OnceAtMost, dispatches}
use revenue_degradation_reco.Execution.Service.Once.{
  create_command-OnceAtMost, execute_command-OnceAtMost,
}

module _ {W A : Type 0} where
  -- A worker's transaction beside others: on an exception only what they committed stays.
  abbrev pub settle : Database W → Result A × Database W → Database W
  settle rolled_back (ok a, db) = db
  settle rolled_back (err e, db) = rolled_back

  settle-OnceAtMost :
      (id : ℕ) (rolled_back : Database W) (r : Result A × Database W)
      → OnceAtMost id rolled_back
      → OnceAtMost id r.1
      → OnceAtMost id (settle rolled_back r)
  settle-OnceAtMost id rolled_back (ok a, db) before h = h
  settle-OnceAtMost id rolled_back (err e, db) before h = before

module _ {W : Type 0} where
  -- What the workers of a deployment do: they create commands, execute them while others run between
  -- the reads and the claim, and write to the other tables.
  pub data Run : Database W → Database W → Type 0 where
    idle : {db : Database W} → Run db db
    create :
        {start db : Database W}
        → (names : CommandNames) → (decision : InterventionDecision W)
        → (expires_in_seconds now : ℕ) → Run start db
        → Run start (transact (create_command names decision expires_in_seconds now) db).1
    execute :
        {start db : Database W}
        → (executor : InterventionCommand → ExecutionResult) → (others : Database W → Database W)
        → (command_id claim_time attempt_id : ℕ)
        → ((between : Database W) → Run between (others between))
        → Run start db
        → Run start (
            settle
              (others db)
              (execute_command executor others command_id claim_time attempt_id db))
    write :
        {start db db' : Database W}
        → db'.intervention_commands ≡ db.intervention_commands
        → db'.intervention_execution_attempts ≡ db.intervention_execution_attempts
        → Run start db
        → Run start db'

  write-OnceAtMost :
      (id : ℕ) (db db' : Database W)
      → db'.intervention_commands ≡ db.intervention_commands
      → db'.intervention_execution_attempts ≡ db.intervention_execution_attempts
      → OnceAtMost id db
      → OnceAtMost id db'
  write-OnceAtMost id db db' same_commands same_attempts h = elim h [
    | inl zero' ↦ inl (ap (count_if (of_command id)) same_attempts ∙ zero')
    | inr (once, taken) ↦ inr (
      ap (count_if (of_command id)) same_attempts ∙ once,
      record {
        nonpending = subst (NonPending id) (sym same_commands) taken.nonpending;
        there = ap (λ cs. exists (find (is_command id) cs)) same_commands ∙ taken.there;
      },
    )
  ]

  Run-OnceAtMost :
      {start db : Database W} (id : ℕ) → Run start db → OnceAtMost id start → OnceAtMost id db
  Run-OnceAtMost id idle h = h
  Run-OnceAtMost id (create {db = db} names decision expires_in_seconds now r) h =
      Keeps-transact (OnceAtMost id) (create_command names decision expires_in_seconds now)
        (create_command-OnceAtMost id names decision expires_in_seconds now) db
        (Run-OnceAtMost id r h)
  Run-OnceAtMost id (execute {db = db} executor others command_id claim_time attempt_id rs r) h =
      settle-OnceAtMost id (others db)
        (execute_command executor others command_id claim_time attempt_id db)
        (Run-OnceAtMost id (rs db) (Run-OnceAtMost id r h))
        (execute_command-OnceAtMost id executor others
          (λ between h'. Run-OnceAtMost id (rs between) h') command_id claim_time attempt_id db
          (Run-OnceAtMost id r h))
  Run-OnceAtMost id (write {db = db} {db' = db'} same_commands same_attempts r) h =
      write-OnceAtMost id db db' same_commands same_attempts (Run-OnceAtMost id r h)

  -- From a database where a command has not been dispatched, no run of workers that create and execute
  -- commands, interleaved at the claim, and no write to other tables makes it dispatched more than
  -- once: it has one execution attempt at most.
  pub dispatched_once :
      {start db : Database W} (id : ℕ)
      → Run start db
      → dispatches id start ≡ 0
      → dispatches id db ≤ 1
  dispatched_once id r fresh = elim (Run-OnceAtMost id r (inl fresh)) [
    | inl zero' ↦ ground (arith, zero')
    | inr (once, _) ↦ ground (arith, once)
  ]

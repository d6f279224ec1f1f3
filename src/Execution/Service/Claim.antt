-- ===== src/Execution/Service/Claim.antt =====
-- The claim of a command (src/core/execution/execution_service.py), with the work that follows it and
-- the commits of other workers before it, dispatches it once at most.
use revenue_degradation_reco.Prelude.{
  ℕ, ◌≡◌, refl, sym, none, some, String, Bool, true, false, ◌&&◌, ◌==◌, arith, ◌⊎◌, inl, inr,
  Bool-cases, Option-cases, ==_iff,
}
use mathlib.Core.Path.{subst}
use revenue_degradation_reco.Errors.{ok}
use revenue_degradation_reco.Action.{continue, ◌>>=◌}
use revenue_degradation_reco.Action.Keeps.{Keeps, Keeps-bind, Keeps-continue}
use revenue_degradation_reco.Store.{Database}
use revenue_degradation_reco.Execution.Models.{
  CommandStatus, pending, executing, InterventionCommand, ExecutionResult,
}
use revenue_degradation_reco.Execution.Transitions.{is_pending, validate_transition}
use revenue_degradation_reco.Execution.Repository.{
  is_command, command_by_id, update_command_status_atomic, get_command_by_id,
}
use revenue_degradation_reco.Execution.Repository.Rows.{find-passes}
use revenue_degradation_reco.Execution.Service.{
  reread, after_claim, others_commit, claim, close, asserted,
}
use revenue_degradation_reco.Execution.Service.Dispatch.{
  dispatches, Taken, OnceAtMost, update-OnceAtMost, dispatch-OnceAtMost, claim-Taken,
}

module _ {W : Type 0} (id : ℕ) where
  reread-OnceAtMost : (cmd : InterventionCommand) → Keeps (OnceAtMost {W = W} id) (reread cmd)
  unfolding get_command_by_id
  reread-OnceAtMost cmd db h = elim (Option-cases (command_by_id cmd.command_id db)) [
    | inl missing ↦ rw missing h
    | inr (c, found) ↦ rw found h
  ]

  -- What the claim's answer says of this command.
  Claimed : InterventionCommand → Bool → Database W → Type 0
  Claimed cmd b db =
      ((cmd.command_id == id && b) ≡ false × OnceAtMost id db)
      ⊎ (dispatches id db ≡ 0 × Taken id db)

  after_claim-OnceAtMost :
      (executor : InterventionCommand → ExecutionResult) (cmd : InterventionCommand)
      (claim_time attempt_id : ℕ) (b : Bool) (db : Database W)
      → Claimed cmd b db
      → OnceAtMost id (after_claim executor cmd claim_time attempt_id b db).1
  unfolding after_claim get_command_by_id asserted Claimed
  after_claim-OnceAtMost executor cmd claim_time attempt_id false db h =
      reread-OnceAtMost cmd db (elim h [ inl (_, before) ↦ before | inr (zero', _) ↦ inl zero' ])
  after_claim-OnceAtMost executor cmd claim_time attempt_id true db h =
      elim (Option-cases (command_by_id cmd.command_id db)) [
        | inl missing ↦
            rw missing (elim h [ inl (_, before) ↦ before | inr (zero', _) ↦ inl zero' ])
        | inr (c, found) ↦ rw found (
            dispatch-OnceAtMost id executor c claim_time attempt_id db (elim h [
              | inl (other, before) ↦ inl (
                ground (
                  arith,
                  other,
                  find-passes (is_command cmd.command_id) db.intervention_commands c found,
                ),
                before,
              )
              | inr taken ↦ inr taken
            ]))
      ]

  claim-Claimed :
      (cmd : InterventionCommand) (now : ℕ) (b : Bool) (db : Database W)
      → OnceAtMost id db
      → (update_command_status_atomic cmd.command_id pending executing none now db).0 ≡ ok b
      → Claimed cmd b (update_command_status_atomic cmd.command_id pending executing none now db).1
  unfolding Claimed update_command_status_atomic
  claim-Claimed cmd now false db h e =
      inl (ground arith, update-OnceAtMost id cmd.command_id pending executing none now refl db h)
  claim-Claimed cmd now true db h e = elim (Bool-cases (cmd.command_id == id)) [
    | inl same ↦ inr (
        subst
          (λ k.
            (update_command_status_atomic k pending executing none now db).0 ≡ ok true
            → dispatches id (update_command_status_atomic k pending executing none now db).1 ≡ 0
              × Taken id (update_command_status_atomic k pending executing none now db).1)
          (sym ((==_iff cmd.command_id id).0 same)) (claim-Taken id now db h) e)
    | inr other ↦ inl (
      ground (arith, other),
      update-OnceAtMost id cmd.command_id pending executing none now refl db h,
    )
  ]

  pub claim-OnceAtMost :
      (executor : InterventionCommand → ExecutionResult) (others : Database W → Database W)
      (cmd : InterventionCommand) (claim_time attempt_id : ℕ)
      → ((db : Database W) → OnceAtMost id db → OnceAtMost id (others db))
      → Keeps (OnceAtMost {W = W} id) (claim executor others cmd claim_time attempt_id)
  unfolding claim others_commit
  claim-OnceAtMost executor others cmd claim_time attempt_id ko db h =
      Keeps-continue (OnceAtMost {W = W} id) (validate_transition cmd.command_status executing, db)
        (λ _ db1.
          continue
            (update_command_status_atomic cmd.command_id pending executing none claim_time
              (others db1))
            (after_claim executor cmd claim_time attempt_id))
        h
        (λ _ _.
          Keeps-continue (OnceAtMost {W = W} id)
            (update_command_status_atomic cmd.command_id pending executing none claim_time
              (others db))
            (after_claim executor cmd claim_time attempt_id)
            (update-OnceAtMost id cmd.command_id pending executing none claim_time refl (others db)
              (ko db h))
            (λ b e.
              after_claim-OnceAtMost executor cmd claim_time attempt_id b
                (update_command_status_atomic cmd.command_id pending executing none claim_time
                  (others db)).1
                (claim-Claimed cmd claim_time b (others db) (ko db h) e)))

  pub close-OnceAtMost :
      (cmd : InterventionCommand) (target : CommandStatus) (reason : String) (claim_time : ℕ)
      → is_pending target ≡ false
      → Keeps (OnceAtMost {W = W} id) (close cmd target reason claim_time)
  unfolding close
  close-OnceAtMost cmd target reason claim_time t db h =
      Keeps-continue (OnceAtMost {W = W} id) (validate_transition cmd.command_status target, db)
        (λ _.
          update_command_status_atomic cmd.command_id pending target (some reason) claim_time
          >>= λ _. reread cmd)
        h
        (λ _ _.
          Keeps-bind (OnceAtMost {W = W} id)
            (update_command_status_atomic cmd.command_id pending target (some reason) claim_time)
            (λ _. reread cmd)
            (update-OnceAtMost id cmd.command_id pending target (some reason) claim_time t)
            (λ _. reread-OnceAtMost cmd) db h)

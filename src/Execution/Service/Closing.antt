-- ===== src/Execution/Service/Closing.antt =====
-- What closing a command before its dispatch (src/core/execution/execution_service.py) does to the table of
-- commands.
use revenue_degradation_reco.Prelude.{
  ℕ, ◌≡◌, ◌≢◌, refl, ap, String, Option, some, List, [], ◌∷◌, true, false, ◌==◌, leb, if◌then◌else◌,
  arith, find, Bool-cases, inl, inr,
}
use revenue_degradation_reco.Errors.{Result, ok}
use revenue_degradation_reco.Store.{Database}
use revenue_degradation_reco.Execution.Models.{
  CommandStatus, pending, expired, not_needed, InterventionCommand,
}
use revenue_degradation_reco.Execution.Transitions.{is_pending, validate_transition}
use revenue_degradation_reco.Execution.Repository.{
  fits, is_command, has_status, set_status, update_where, command_by_id, get_command_by_id,
  update_command_status_atomic,
}
use revenue_degradation_reco.Execution.Service.{close}

-- The command as a barrier closes it: EXPIRED where it has expired, NOT_NEEDED otherwise.
abbrev pub closed_at : ℕ → InterventionCommand → InterventionCommand
closed_at claim_time cmd =
    let late = leb cmd.expires_at claim_time in
    record cmd {
      command_status = if late then expired else not_needed;
      status_reason =
          some (
            if late
            then "COMMAND_EXPIRED_BEFORE_DISPATCH"
            else "TERMINAL_OUTCOME_ALREADY_INGESTED");
      updated_at = claim_time;
    }

pub found_id :
    (id : ℕ) (cs : List InterventionCommand) (cmd : InterventionCommand)
    → find (is_command id) cs ≡ some cmd
    → cmd.command_id ≡ id
found_id id [] cmd h = absurd (ground arith)
found_id id (c ∷ cs) cmd h = elim (Bool-cases (c.command_id == id)) [
  | inl hit ↦ ground (arith, h, hit)
  | inr miss ↦ found_id id cs cmd (rw miss at h)
]

found_updated :
    (id : ℕ) (target : CommandStatus) (reason : Option String) (now : ℕ)
    (cs : List InterventionCommand) (cmd : InterventionCommand)
    → find (is_command id) cs ≡ some cmd
    → is_pending cmd.command_status ≡ true
    → find (is_command id) (update_where (has_status id pending) (set_status target reason now) cs)
      ≡ some (set_status target reason now cmd)
found_updated id target reason now [] cmd h waiting = absurd (ground arith)
found_updated id target reason now (c ∷ cs) cmd h waiting = elim (Bool-cases (c.command_id == id)) [
  | inl hit ↦
      let same : c ≡ cmd = ground (arith, h, hit) in
      let set : has_status id pending c ≡ true =
        ground (arith, hit, waiting, ap (λ (x : InterventionCommand). x.command_status) same) in
      rw (set, hit) (ap (λ x. some (set_status target reason now x)) same)
  | inr miss ↦ rw (miss, miss) (found_updated id target reason now cs cmd (rw miss at h) waiting)
]

other_updated :
    (id other : ℕ) (target : CommandStatus) (reason : Option String) (now : ℕ)
    (cs : List InterventionCommand)
    → other ≢ id
    → find
        (is_command other)
        (update_where (has_status id pending) (set_status target reason now) cs)
      ≡ find (is_command other) cs
other_updated id other target reason now [] apart = refl
other_updated id other target reason now (c ∷ cs) apart = elim (Bool-cases (c.command_id == id)) [
  | inl hit ↦
      let away : (c.command_id == other) ≡ false = ground (arith, hit, apart) in
      ground (arith, away, other_updated id other target reason now cs apart)
  | inr miss ↦ ground (arith, miss, other_updated id other target reason now cs apart)
]

module _ {W : Type 0} where
  -- What a call that closes the command returns and leaves: the command closed, the other commands as
  -- they are, and the other tables as they are.
  abbrev pub IsClosed :
      ℕ → InterventionCommand → Database W → Result InterventionCommand × Database W → Type 0
  IsClosed id closed db r =
      (rows : List InterventionCommand) × (r
        ≡ (ok closed, record db { intervention_commands = rows }))
      × (find (is_command id) rows ≡ some closed)
      × ((other : ℕ)
          → other ≢ id
          → find (is_command other) rows ≡ find (is_command other) db.intervention_commands)

  pub close-IsClosed :
      (cmd : InterventionCommand) (target : CommandStatus) (why : String) (claim_time : ℕ)
      (db : Database W)
      → command_by_id cmd.command_id db ≡ some cmd
      → cmd.command_status ≡ pending
      → fits (some why) 255 ≡ true
      → validate_transition pending target ≡ ok tt
      → IsClosed cmd.command_id
          (set_status target (some why) claim_time cmd)
          db
          (close cmd target why claim_time db)
  unfolding close update_command_status_atomic get_command_by_id
  close-IsClosed cmd target why claim_time db found waiting short legal =
      let id = cmd.command_id in
      let rows =
        update_where (has_status id pending) (set_status target (some why) claim_time)
          db.intervention_commands in
      let updated : find (is_command id) rows ≡ some (set_status target (some why) claim_time cmd) =
        found_updated id target (some why) claim_time db.intervention_commands cmd found
          (rw waiting refl) in
      (
        rows,
        rw (waiting, legal, short, updated) refl,
        updated,
        λ other apart.
            other_updated id other target (some why) claim_time db.intervention_commands apart,
      )

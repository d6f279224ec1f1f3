-- ===== src/Execution/Service/Once.antt =====
-- Creating and executing commands keeps every command dispatched once at most, in any run.
use revenue_degradation_reco.Prelude.{
  ℕ, ◌≡◌, refl, sym, Option, none, some, List, [], ◌∷◌, ◌++◌, Bool, true, not, ◌&&◌, ◌||◌, ◌==◌,
  if◌then◌else◌, find, arith, inl, inr, Bool-cases, ==_iff, ==_refl, leb, All-append, ◌=s=◌,
}
use mathlib.Core.Path.{subst}
use revenue_degradation_reco.Errors.{attempt_provider_conflict}
use revenue_degradation_reco.Action.{Action, pure, raise, lift, gets, ◌>>=◌}
use revenue_degradation_reco.Action.Keeps.{Keeps, Keeps-if, Keeps-bind, Keeps-continue}
use revenue_degradation_reco.Store.{Database}
use revenue_degradation_reco.Attempts.Registry.{exists, require}
use revenue_degradation_reco.Execution.Models.{
  InterventionCommand, ExecutionResult, expired, not_needed,
}
use revenue_degradation_reco.Execution.Transitions.{is_pending}
use revenue_degradation_reco.Execution.Repository.{
  is_command, command_by_id, get_command_by_id, insert_command, clashes, owns, decided,
  get_command_by_decision_id, get_command_by_attempt_and_version, of_version,
}
use revenue_degradation_reco.Execution.Service.{
  attempt_pending, execute_found, execute_command, CommandNames, create_command, new_command,
  executable, insert_new, create_from, existing_or, version_or,
}
use revenue_degradation_reco.Execution.Service.Dispatch.{OnceAtMost}
use revenue_degradation_reco.Execution.Service.Claim.{claim-OnceAtMost, close-OnceAtMost}
use revenue_degradation_reco.Attempts.Registry.Laws.{require_reads}
use revenue_degradation_reco.Attempts.Identity.{for_key, validate_provider}
use revenue_degradation_reco.Execution.Repository.Events.{
  any_event, ingested_by, terminal_by_key, check_terminal_event_exists_before,
}
use revenue_degradation_reco.Intervention.Models.{InterventionDecision}

exists-append {ℓ} :
    {A : Type ℓ} (p : A → Bool) (xs ys : List A)
    → exists (find p xs) ≡ true
    → exists (find p (xs ++ ys)) ≡ true
exists-append p [] ys h = ground arith
exists-append p (x ∷ xs) ys h = elim (Bool-cases (p x)) [
  | inl hit ↦ rw hit refl
  | inr miss ↦ rw miss (exists-append p xs ys (rw miss at h))
]

-- A command of an id that is there already clashes with it.
clashes-by_id :
    (c : InterventionCommand) (cs : List InterventionCommand)
    → exists (find (is_command c.command_id) cs) ≡ true
    → exists (find (clashes c) cs) ≡ true
clashes-by_id c [] h = ground arith
clashes-by_id c (d ∷ ds) h = elim (Bool-cases (d.command_id == c.command_id)) [
  | inl same ↦ ground (arith, same, ==_refl c.command_id)
  | inr other ↦ elim (Bool-cases (clashes c d)) [
    | inl hit ↦ rw hit refl
    | inr miss ↦ rw miss (clashes-by_id c ds (rw other at h))
  ]
]

by_id :
    (id : ℕ) (cs : List InterventionCommand) (c : InterventionCommand)
    → (c.command_id == id) ≡ true
    → exists (find (is_command id) cs) ≡ true
    → exists (find (is_command c.command_id) cs) ≡ true
by_id id cs c same there =
    subst (λ k. exists (find (is_command k) cs) ≡ true) (sym ((==_iff c.command_id id).0 same))
      there

module _ {W : Type 0} (id : ℕ) where
  module _ (executor : InterventionCommand → ExecutionResult) (others : Database W → Database W)
      (others-OnceAtMost : (db : Database W) → OnceAtMost id db → OnceAtMost id (others db)) where
    attempt_pending-OnceAtMost :
        (cmd : InterventionCommand) (claim_time attempt_id : ℕ)
        → Keeps (OnceAtMost id) (attempt_pending executor others cmd claim_time attempt_id)
    unfolding attempt_pending check_terminal_event_exists_before
    attempt_pending-OnceAtMost cmd claim_time attempt_id db h =
        elim (Bool-cases (leb cmd.expires_at claim_time)) [
          | inl late ↦ rw late (
              close-OnceAtMost id cmd expired "COMMAND_EXPIRED_BEFORE_DISPATCH" claim_time refl db
                h)
          | inr early ↦
              rw early
                (elim (Bool-cases (
                  any_event (ingested_by claim_time (terminal_by_key cmd.payment_attempt_id))
                    db.payment_events)) [
                      | inl over ↦ rw over (
                          close-OnceAtMost id cmd not_needed "TERMINAL_OUTCOME_ALREADY_INGESTED"
                            claim_time refl db h)
                      | inr open' ↦ rw open' (
                          claim-OnceAtMost id executor others cmd claim_time attempt_id
                            others-OnceAtMost db h)
                    ])
        ]

    execute_found-OnceAtMost :
        (found : Option InterventionCommand) (claim_time attempt_id : ℕ)
        → Keeps (OnceAtMost id) (execute_found executor others found claim_time attempt_id)
    unfolding execute_found
    execute_found-OnceAtMost none claim_time attempt_id db h = h
    execute_found-OnceAtMost (some cmd) claim_time attempt_id db h =
        Keeps-continue (OnceAtMost id) (for_key cmd.source_system cmd.payment_attempt_id, db)
          (λ ref. require ref >>= λ _. rest) h
          (λ ref _.
            Keeps-bind (OnceAtMost id) (require ref) (λ _. rest)
              (λ db' h'. subst (OnceAtMost id) (sym (require_reads ref db')) h')
              (λ _.
                Keeps-if (OnceAtMost id) (not (is_pending cmd.command_status)) (pure cmd)
                  (attempt_pending executor others cmd claim_time attempt_id) (λ db' h'. h')
                  (attempt_pending-OnceAtMost cmd claim_time attempt_id))
              db h)
      where
        rest : Action (Database W) InterventionCommand
        rest =
            if not (is_pending cmd.command_status)
            then pure cmd
            else attempt_pending executor others cmd claim_time attempt_id

    pub execute_command-OnceAtMost :
        (command_id claim_time attempt_id : ℕ)
        → Keeps (OnceAtMost id) (execute_command executor others command_id claim_time attempt_id)
    unfolding execute_command get_command_by_id
    execute_command-OnceAtMost command_id claim_time attempt_id db h =
        execute_found-OnceAtMost (command_by_id command_id db) claim_time attempt_id db h

  insert_command-OnceAtMost :
      (c : InterventionCommand) → Keeps (OnceAtMost {W = W} id) (insert_command c)
  unfolding insert_command
  insert_command-OnceAtMost c db h =
      elim (Bool-cases (
        exists (find (clashes c) db.intervention_commands)
        || not (
            exists (find (owns c) db.payment_attempts)
            && exists (find (decided c) db.intervention_decisions)))) [
              | inl refused ↦ rw refused h
              | inr fine ↦ rw fine (elim h [
                | inl zero' ↦ inl zero'
                | inr (once, taken) ↦ inr (
                  once,
                  record {
                    nonpending = All-append _ db.intervention_commands (c ∷ []) taken.nonpending (
                      (λ same. absurd (
                          ground (
                            arith,
                            fine,
                            clashes-by_id c db.intervention_commands
                                (by_id id db.intervention_commands c same taken.there),
                          ))),
                      tt,
                    );
                    there =
                        exists-append (is_command id) db.intervention_commands (c ∷ []) taken.there;
                  },
                )
              ])
            ]

  existing_or-OnceAtMost :
      (decision : InterventionDecision W) (existing : Option InterventionCommand)
      (k : Action (Database W) InterventionCommand)
      → Keeps (OnceAtMost id) k
      → Keeps (OnceAtMost id) (existing_or decision existing k)
  unfolding existing_or
  existing_or-OnceAtMost decision none k kk = kk
  existing_or-OnceAtMost decision (some existing) k kk =
      Keeps-if (OnceAtMost id) (existing.source_system =s= decision.source_system) (pure existing)
        (raise attempt_provider_conflict) (λ db h. h) (λ db h. h)

  version_or-OnceAtMost :
      (existing : Option InterventionCommand) (k : Action (Database W) InterventionCommand)
      → Keeps (OnceAtMost id) k
      → Keeps (OnceAtMost id) (version_or existing k)
  unfolding version_or
  version_or-OnceAtMost none k kk db h = kk db h
  version_or-OnceAtMost (some existing) k kk db h = h

  create_from-OnceAtMost :
      (decision : InterventionDecision W) (command : InterventionCommand)
      → Keeps (OnceAtMost id) (create_from decision command)
  unfolding create_from insert_new get_command_by_decision_id get_command_by_attempt_and_version
  create_from-OnceAtMost decision command db h =
      existing_or-OnceAtMost decision
        (find (λ c. c.decision_id == decision.decision_id) db.intervention_commands)
        (get_command_by_attempt_and_version decision.payment_attempt_id decision.decision_version
            (some decision.source_system)
          >>= (λ same. version_or same (insert_new command)))
        (Keeps-bind (OnceAtMost id)
          (get_command_by_attempt_and_version decision.payment_attempt_id decision.decision_version
            (some decision.source_system))
          (λ same. version_or same (insert_new command))
          (λ db' h'.
            Keeps-continue (OnceAtMost id) (validate_provider (some decision.source_system), db')
              (λ _. gets (λ d.
                find
                  (of_version d decision.payment_attempt_id decision.decision_version
                    decision.source_system)
                  d.intervention_commands))
              h' (λ _ _. h'))
          (λ same. version_or-OnceAtMost same (insert_new command) (
            Keeps-bind (OnceAtMost id) (insert_command command) (λ _. pure command)
              (insert_command-OnceAtMost command) (λ _ db' h'. h'))))
        db h

  pub create_command-OnceAtMost :
      (names : CommandNames) (decision : InterventionDecision W) (expires_in_seconds now : ℕ)
      → Keeps (OnceAtMost id) (create_command names decision expires_in_seconds now)
  unfolding create_command
  create_command-OnceAtMost names decision expires_in_seconds now db h =
      Keeps-continue (OnceAtMost id) (executable decision, db)
        (λ route. lift (for_key decision.source_system decision.payment_attempt_id) >>= λ ref.
          require ref >>= λ _.
          create_from decision (new_command names decision route expires_in_seconds now))
        h
        (λ route _.
          Keeps-continue (OnceAtMost id)
            (for_key decision.source_system decision.payment_attempt_id, db)
            (λ ref. require ref >>= λ _.
              create_from decision (new_command names decision route expires_in_seconds now))
            h
            (λ ref _.
              Keeps-bind (OnceAtMost id) (require ref)
                (λ _.
                  create_from decision (new_command names decision route expires_in_seconds now))
                (λ db' h'. subst (OnceAtMost id) (sym (require_reads ref db')) h')
                (λ _.
                  create_from-OnceAtMost decision
                    (new_command names decision route expires_in_seconds now))
                db h))

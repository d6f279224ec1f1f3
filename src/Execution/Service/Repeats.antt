-- ===== src/Execution/Service/Repeats.antt =====
-- create_command (src/core/execution/execution_service.py) called twice for a decision.
use mathlib.Core.Path.{subst}
use revenue_degradation_reco.Prelude.{
  ℕ, ◌≡◌, refl, sym, ap, ◌∙◌, Option, none, some, [], ◌∷◌, ◌++◌, true, not, ◌&&◌, ◌||◌, ◌=s=◌, ◌==◌,
  find, arith, Bool-cases, Option-cases, inl, inr, eq_refl,
}
use revenue_degradation_reco.Errors.{Result, ok, Result-cases}
use revenue_degradation_reco.Action.{lift, ◌>>=◌}
use revenue_degradation_reco.Action.Keeps.{continue_ok}
use revenue_degradation_reco.Store.{Database}
use revenue_degradation_reco.Attempts.Identity.{for_key, validate_provider}
use revenue_degradation_reco.Attempts.Registry.{exists, require}
use revenue_degradation_reco.Attempts.Registry.Laws.{
  require_reads, require_by_rows, find-append_right,
}
use revenue_degradation_reco.Intervention.Models.{InterventionDecision}
use revenue_degradation_reco.Execution.Models.{InterventionCommand}
use revenue_degradation_reco.Execution.Repository.{
  get_command_by_decision_id, get_command_by_attempt_and_version, insert_command, clashes, owns,
  decided,
}
use revenue_degradation_reco.Execution.Service.{
  CommandNames, new_command, executable, create_command, create_from, insert_new, existing_or,
  version_or,
}

module _ {W : Type 0} where
  abbrev pub with_command : InterventionCommand → Database W → Database W
  with_command c db = record db { intervention_commands = db.intervention_commands ++ c ∷ [] }

  insert_command-inv :
      (c b : InterventionCommand) (db db' : Database W)
      → insert_new c db ≡ (ok b, db')
      → (b ≡ c) × (db' ≡ with_command c db)
  unfolding insert_new insert_command
  insert_command-inv c b db db' e =
      elim (Bool-cases (
        exists (find (clashes c) db.intervention_commands)
        || not (
            exists (find (owns c) db.payment_attempts)
            && exists (find (decided c) db.intervention_decisions)))) [
              | inl refused ↦ absurd (ground (arith, (rw refused at e)))
              | inr fine ↦ (ground (arith, (rw fine at e)), ground (arith, (rw fine at e)))
            ]

  -- What is found by its decision is returned.
  found_again :
      (decision : InterventionDecision W) (command c : InterventionCommand) (db : Database W)
      → find
          (λ (d : InterventionCommand). d.decision_id == decision.decision_id)
          db.intervention_commands
        ≡ some c
      → (c.source_system =s= decision.source_system) ≡ true
      → create_from decision command db ≡ (ok c, db)
  unfolding create_from get_command_by_decision_id existing_or
  found_again decision command c db found same = rw (found, same) refl

  -- What is found by its version, when nothing is found by its decision.
  version_again :
      (decision : InterventionDecision W) (command c : InterventionCommand) (db : Database W)
      → find
          (λ (d : InterventionCommand). d.decision_id == decision.decision_id)
          db.intervention_commands
        ≡ none
      → get_command_by_attempt_and_version decision.payment_attempt_id decision.decision_version
          (some decision.source_system)
          db
        ≡ (ok (some c), db)
      → create_from decision command db ≡ (ok c, db)
  unfolding create_from get_command_by_decision_id existing_or version_or
  version_again decision command c db unfound found = rw (unfound, found) refl

  abbrev Repeated : InterventionDecision W → Database W → InterventionCommand → Database W → Type 0
  Repeated decision db c db' =
      (db'.payment_attempts ≡ db.payment_attempts)
      × ((command : InterventionCommand) → create_from decision command db' ≡ (ok c, db'))

  moved :
      (decision : InterventionDecision W) (db db' : Database W) (x c : InterventionCommand)
      → ◌≡◌ {A = Result InterventionCommand × Database W} (ok x, db) (ok c, db')
      → Repeated decision db x db
      → Repeated decision db c db'
  moved decision db db' x c e r =
      let same : x ≡ c = ground (arith, e) in
      subst (λ k. Repeated decision db k db') same
        (subst (λ d. Repeated decision db x d) (ap (λ k. k.1) e) r)

  version_reads :
      (decision : InterventionDecision W) (db : Database W)
      → (get_command_by_attempt_and_version decision.payment_attempt_id decision.decision_version
          (some decision.source_system)
          db).1
        ≡ db
  unfolding get_command_by_attempt_and_version
  version_reads decision db =
      elim (Result-cases (validate_provider (some decision.source_system))) [
        | inr (x, bad) ↦ rw bad refl
        | inl (u, good) ↦ rw good refl
      ]

  version_pair :
      (decision : InterventionDecision W) (db : Database W) (row : Option InterventionCommand)
      → (get_command_by_attempt_and_version decision.payment_attempt_id decision.decision_version
          (some decision.source_system)
          db).0
        ≡ ok row
      → get_command_by_attempt_and_version decision.payment_attempt_id decision.decision_version
          (some decision.source_system)
          db
        ≡ (ok row, db)
  version_pair decision db row got =
      ap
        (λ r. (
          r,
          (get_command_by_attempt_and_version decision.payment_attempt_id decision.decision_version
              (some decision.source_system) db).1,
        ))
        got
      ∙ ap (λ d. (ok row, d)) (version_reads decision db)

  decided_by :
      (decision : InterventionDecision W) (c : InterventionCommand)
      → c.decision_id ≡ decision.decision_id
      → (c.decision_id == decision.decision_id) ≡ true
  decided_by decision c h = ground (arith, h)

  create_from_twice :
      (decision : InterventionDecision W) (command : InterventionCommand) (db db' : Database W)
      (c : InterventionCommand)
      → command.decision_id ≡ decision.decision_id
      → command.source_system ≡ decision.source_system
      → create_from decision command db ≡ (ok c, db')
      → Repeated decision db c db'
  unfolding create_from get_command_by_decision_id existing_or version_or
  create_from_twice decision command db db' c own_decision own_source e =
      elim (Option-cases (
        find (λ (d : InterventionCommand). d.decision_id == decision.decision_id)
          db.intervention_commands)) [
            | inr (x, found) ↦ elim (Bool-cases (x.source_system =s= decision.source_system)) [
              | inr foreign ↦ absurd (ground (arith, (rw (found, foreign) at e)))
              | inl same ↦
                  let e' : (ok x, db) ≡ (ok c, db') = (rw (found, same) at e) in
                  moved decision db db' x c e' (refl, λ k. found_again decision k x db found same)
            ]
            | inl unfound ↦
                let e1 : (get_command_by_attempt_and_version decision.payment_attempt_id
                          decision.decision_version (some decision.source_system)
                        >>= λ same. version_or same (insert_new command))
                      db
                    ≡ (ok c, db') =
                  (rw unfound at e) in
                let version =
                  get_command_by_attempt_and_version decision.payment_attempt_id
                    decision.decision_version (some decision.source_system) in
                let (row, got, e2) =
                  continue_ok (version db) (λ same. version_or same (insert_new command)) c db'
                    e1 in
                let e3 =
                  subst (λ k. version_or row (insert_new command) k ≡ (ok c, db'))
                    (version_reads decision db) e2 in
                elim (Option-cases row) [
                  | inr (x, is_row) ↦ moved decision db db' x c (rw is_row at e3) (
                    refl,
                    λ k.
                        version_again decision k x db unfound
                          (version_pair decision db (some x) (got ∙ ap ok is_row)),
                  )
                  | inl no_row ↦
                      let (own, after) = insert_command-inv command c db db' (rw no_row at e3) in
                      (
                        ap (λ (d : Database W). d.payment_attempts) after,
                        λ k.
                            subst (λ d. create_from decision k d ≡ (ok c, d))
                              (sym (after ∙ ap (λ k. with_command k db) (sym own)))
                              (found_again decision k c (with_command c db)
                                (find-append_right
                                    (λ (d : InterventionCommand).
                                      d.decision_id == decision.decision_id)
                                    db.intervention_commands (c ∷ []) unfound
                                  ∙ rw
                                      (decided_by decision c (
                                        ap (λ (d : InterventionCommand). d.decision_id) own
                                        ∙ own_decision))
                                      refl)
                                (subst (λ t. (t =s= decision.source_system) ≡ true)
                                  (sym (
                                    ap (λ (d : InterventionCommand). d.source_system) own
                                    ∙ own_source))
                                  (eq_refl decision.source_system))),
                      )
                ]
          ]

  -- Creating a command is idempotent: after a successful call, calling it again for the decision, with
  -- any expiry and at any later time, returns the same command and changes nothing.
  pub create_command_twice :
      (names : CommandNames) (decision : InterventionDecision W)
      (expires_in_seconds now again later : ℕ) (db db' : Database W) (c : InterventionCommand)
      → create_command names decision expires_in_seconds now db ≡ (ok c, db')
      → create_command names decision again later db' ≡ (ok c, db')
  unfolding create_command
  create_command_twice names decision expires_in_seconds now again later db db' c e =
      let (route, is_route, e1) =
        continue_ok (executable decision, db)
          (λ route. lift (for_key decision.source_system decision.payment_attempt_id) >>= λ ref.
            require ref >>= λ _.
            create_from decision (new_command names decision route expires_in_seconds now))
          c db' e in
      let (ref, is_ref, e2) =
        continue_ok (for_key decision.source_system decision.payment_attempt_id, db)
          (λ ref. require ref >>= λ _.
            create_from decision (new_command names decision route expires_in_seconds now))
          c db' e1 in
      let (attempt, registered, e3) =
        continue_ok (require ref db)
          (λ _. create_from decision (new_command names decision route expires_in_seconds now)) c
          db' e2 in
      let e4 =
        subst
          (λ k.
            create_from decision (new_command names decision route expires_in_seconds now) k
            ≡ (ok c, db'))
          (require_reads ref db) e3 in
      let (rows, repeated) =
        create_from_twice decision (new_command names decision route expires_in_seconds now) db db'
          c refl refl e4 in
      let required : require ref db' ≡ (ok attempt, db') =
        require_by_rows ref db db' rows ∙ ap (λ r. (r, db')) registered in
      rw (is_route, is_ref, required) (repeated (new_command names decision route again later))

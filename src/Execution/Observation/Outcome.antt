-- ===== src/Execution/Observation/Outcome.antt =====
-- What a successful observation (src/core/execution/observation_service.py) says, and the row that it
-- appends.
use revenue_degradation_reco.Prelude.{
  ℕ, ◌+◌, ◌≤◌, ◌<◌, ◌≡◌, ◌≢◌, refl, sym, ◌∙◌, ap, ◌↔◌, some, List, [], ◌∷◌, ◌++◌, String, Bool,
  true, false, not, ◌&&◌, ◌||◌, leb, ◌==◌, select, find, arith, ◌⊎◌, inl, inr, Bool-cases,
  Option-cases, All,
}
use mathlib.Core.Path.{subst}
use revenue_degradation_reco.Errors.{ok, err, integrity_error, Result-cases}
use revenue_degradation_reco.Action.{Action, ◌>>=◌}
use revenue_degradation_reco.Action.Keeps.{continue_ok}
use revenue_degradation_reco.Events.{PaymentEvent}
use revenue_degradation_reco.Store.{Database}
use revenue_degradation_reco.Attempts.Identity.{for_key, AttemptRef, validate_provider}
use revenue_degradation_reco.Attempts.Registry.{require, RegisteredAttempt, exists}
use revenue_degradation_reco.Attempts.Registry.Laws.{require_reads}
use revenue_degradation_reco.Execution.Models.{
  InterventionCommand, PaymentOutcomeObservation, unknown_in_flight,
}
use revenue_degradation_reco.Execution.Repository.{
  command_by_id, get_command_by_id, max_observation, get_max_observation_version,
  insert_payment_outcome_observation, observation_clashes, is_command_of, observed_attempt,
}
use revenue_degradation_reco.Execution.Repository.Events.{
  get_canonical_terminal_events, ingested_by, order_by_ingested, terminal_of_provider, insert_event,
  any_event, check_terminal_event_exists_before,
}
use revenue_degradation_reco.Execution.Observation.{
  ObservationNames, observe, observe_found, append_observation, new_observation, derive_outcome,
}

insert_event-cons :
    (e : PaymentEvent) (es : List PaymentEvent)
    → (x : PaymentEvent) × (xs : List PaymentEvent) × (insert_event e es ≡ x ∷ xs)
insert_event-cons e [] = (e, [], refl)
insert_event-cons e (x ∷ xs) = elim (Bool-cases (leb e.ingested_at x.ingested_at)) [
  | inl before ↦ rw before (e, x ∷ xs, refl)
  | inr later ↦ rw later (x, insert_event e xs, refl)
]

known_outcome :
    (e : PaymentEvent) (es : List PaymentEvent) → derive_outcome (e ∷ es) ≢ unknown_in_flight
unfolding derive_outcome
known_outcome e es h = ground arith

-- The outcome is unknown exactly where no event passes the test.
derive_outcome-unknown :
    (p : PaymentEvent → Bool) (es : List PaymentEvent)
    → (derive_outcome (order_by_ingested (select p es)) ≡ unknown_in_flight)
      ↔ (any_event p es ≡ false)
unfolding derive_outcome
derive_outcome-unknown p [] = ground arith
derive_outcome-unknown p (e ∷ es) = elim (Bool-cases (p e)) [
  | inl hit ↦
      let (x, xs, first) = insert_event-cons e (order_by_ingested (select p es)) in
      rw (hit, first) ((λ h. absurd (known_outcome x xs h)), (λ h. absurd (ground arith)))
  | inr miss ↦ rw miss (derive_outcome-unknown p es)
]

-- Every version of the command is within a bound on the highest.
pub max_observation-bounds :
    (id n : ℕ) (os : List PaymentOutcomeObservation)
    → max_observation id os ≤ n
    → All
        (λ (o : PaymentOutcomeObservation).
          (o.command_id == id) ≡ true → o.observation_version < n + 1)
        os
max_observation-bounds id n [] h = tt
max_observation-bounds id n (o ∷ os) h =
    ((λ same. ground arith), max_observation-bounds id n os (ground arith))

pub instant_clash :
    (row o : PaymentOutcomeObservation)
    → row.command_id ≡ o.command_id
    → row.as_of_timestamp ≡ o.as_of_timestamp
    → observation_clashes row o ≡ true
instant_clash row o same instant = ground (arith, same, instant)

pub clash_last :
    (row : PaymentOutcomeObservation) (os : List PaymentOutcomeObservation)
    (o : PaymentOutcomeObservation)
    → observation_clashes row o ≡ true
    → exists (find (observation_clashes row) (os ++ o ∷ [])) ≡ true
clash_last row [] o h = rw h refl
clash_last row (x ∷ xs) o h = elim (Bool-cases (observation_clashes row x)) [
  | inl hit ↦ rw hit refl
  | inr miss ↦ rw miss (clash_last row xs o h)
]

module _ {W : Type 0} where
  abbrev pub with_observation : PaymentOutcomeObservation → Database W → Database W
  with_observation o db = record db {
    payment_outcome_observations = db.payment_outcome_observations ++ o ∷ [];
  }

  -- The row of a successful observation, and where its parts come from.
  pub record Observed (names : ObservationNames) (command_id as_of now : ℕ) (db : Database W)
      (o : PaymentOutcomeObservation) (db' : Database W) : Type 0 where
    pub cmd : InterventionCommand
    pub found : command_by_id command_id db ≡ some cmd
    pub ref : AttemptRef
    pub is_ref : for_key cmd.source_system cmd.payment_attempt_id ≡ ok ref
    pub attempt : RegisteredAttempt
    pub registered : (require ref db).0 ≡ ok attempt
    pub provider : String
    pub known : validate_provider (some cmd.source_system) ≡ ok provider
    pub row :
        o
        ≡ new_observation names command_id cmd as_of now
            (max_observation command_id db.payment_outcome_observations + 1)
            (order_by_ingested (
              select
                (ingested_by as_of (terminal_of_provider cmd.source_system cmd.payment_attempt_id))
                db.payment_events))
    pub fresh : exists (find (observation_clashes o) db.payment_outcome_observations) ≡ false
    pub after : db' ≡ with_observation o db

  pub insert_observation-cases :
      (o : PaymentOutcomeObservation) (db : Database W)
      → (insert_payment_outcome_observation o db ≡ (err integrity_error, db))
        ⊎ ((exists (find (observation_clashes o) db.payment_outcome_observations) ≡ false)
            × (insert_payment_outcome_observation o db ≡ (ok tt, with_observation o db)))
  unfolding insert_payment_outcome_observation
  insert_observation-cases o db =
      elim (Bool-cases (
        exists (find (observation_clashes o) db.payment_outcome_observations)
        || not (
            exists (find (is_command_of o.command_id o.source_system) db.intervention_commands)
            && exists (find (observed_attempt o) db.payment_attempts)))) [
              | inl refused ↦ rw refused (inl refl)
              | inr fine ↦ inr (ground (arith, fine), rw fine refl)
            ]

  append_observation-inv :
      (names : ObservationNames) (command_id : ℕ) (cmd : InterventionCommand) (as_of now : ℕ)
      (events : List PaymentEvent) (db db' : Database W) (o : PaymentOutcomeObservation)
      → append_observation names command_id cmd as_of now events db ≡ (ok o, db')
      → (o
          ≡ new_observation names command_id cmd as_of now
              (max_observation command_id db.payment_outcome_observations + 1)
              events)
        × (exists (find (observation_clashes o) db.payment_outcome_observations) ≡ false)
        × (db' ≡ with_observation o db)
  unfolding append_observation get_max_observation_version
  append_observation-inv names command_id cmd as_of now events db db' o e =
      elim (insert_observation-cases row db) [
        | inl refused ↦ absurd (ground (arith, (rw refused at e)))
        | inr (fresh, done) ↦
            let own : o ≡ row = ground (arith, (rw done at e)) in
            let after : db' ≡ with_observation row db = ground (arith, (rw done at e)) in
            (
              own,
              ap (λ k. exists (find (observation_clashes k) db.payment_outcome_observations)) own
                  ∙ fresh,
              after ∙ ap (λ k. with_observation k db) (sym own),
            )
      ]
    where
      row : PaymentOutcomeObservation
      row =
          new_observation names command_id cmd as_of now
            (max_observation command_id db.payment_outcome_observations + 1) events

  pub observe-Observed :
      (names : ObservationNames) (command_id as_of now : ℕ) (db db' : Database W)
      (o : PaymentOutcomeObservation)
      → observe names command_id as_of now db ≡ (ok o, db')
      → Observed names command_id as_of now db o db'
  unfolding observe observe_found get_command_by_id get_canonical_terminal_events
  observe-Observed names command_id as_of now db db' o e =
      elim (Option-cases (command_by_id command_id db)) [
        | inl missing ↦ absurd (ground (arith, (rw missing at e)))
        | inr (cmd, found) ↦
            let (ref, is_ref, e1) =
              continue_ok (for_key cmd.source_system cmd.payment_attempt_id, db) _ o db'
                (rw found at e) in
            let (attempt, registered, e2) = continue_ok (require ref db) _ o db' e1 in
            let e3 =
              subst (λ k. (events cmd >>= after cmd) k ≡ (ok o, db')) (require_reads ref db) e2 in
            elim (Result-cases (validate_provider (some cmd.source_system))) [
              | inr (x, bad) ↦ absurd (ground (arith, (rw bad at e3)))
              | inl (source, known) ↦
                  let (own, fresh, db_after) =
                    append_observation-inv names command_id cmd as_of now _ db db' o
                      (rw known at e3) in
                  record {
                    cmd = cmd;
                    found = found;
                    ref = ref;
                    is_ref = is_ref;
                    attempt = attempt;
                    registered = registered;
                    provider = source;
                    known = known;
                    row = own;
                    fresh = fresh;
                    after = db_after;
                  }
            ]
      ]
    where
      events : InterventionCommand → Action (Database W) (List PaymentEvent)
      events cmd =
          get_canonical_terminal_events cmd.payment_attempt_id as_of (some cmd.source_system)

      after :
          InterventionCommand → List PaymentEvent → Action (Database W) PaymentOutcomeObservation
      after cmd = append_observation names command_id cmd as_of now

  -- A successful observation has the outcome UNKNOWN_IN_FLIGHT exactly when no terminal event of its
  -- attempt and provider was ingested by its `as_of`.
  pub observe-unknown :
      (names : ObservationNames) (command_id as_of now : ℕ) (db db' : Database W)
      (o : PaymentOutcomeObservation)
      → observe names command_id as_of now db ≡ (ok o, db')
      → (o.payment_outcome ≡ unknown_in_flight) ↔ (
          (check_terminal_event_exists_before o.payment_attempt_id as_of
            (some o.source_system)
            db).0
          ≡ ok false)
  unfolding check_terminal_event_exists_before new_observation
  observe-unknown names command_id as_of now db db' o e =
      let seen = observe-Observed names command_id as_of now db db' o e in
      let p =
        ingested_by as_of
          (terminal_of_provider seen.cmd.source_system seen.cmd.payment_attempt_id) in
      let (to, from) = derive_outcome-unknown p db.payment_events in
      subst
        (λ (k : PaymentOutcomeObservation). (k.payment_outcome ≡ unknown_in_flight) ↔ (
          (check_terminal_event_exists_before k.payment_attempt_id as_of (some k.source_system)
            db).0
          ≡ ok false))
        (sym seen.row) (rw seen.known ((λ h. ap ok (to h)), (λ h. from (ground (arith, h)))))

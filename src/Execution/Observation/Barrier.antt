-- ===== src/Execution/Observation/Barrier.antt =====
-- What an observation rests on: the terminal events ingested by its `as_of`, and no later ones.
use revenue_degradation_reco.Prelude.{
  ℕ, ◌<◌, ◌≡◌, refl, sym, ◌∙◌, ap, Option, none, some, List, [], ◌∷◌, ◌++◌, String, Bool, false,
  select, arith, inl, inr,
}
use revenue_degradation_reco.Errors.{Result, ok, err, Result-cases}
use revenue_degradation_reco.Action.{Action, continue, lift, ◌>>=◌}
use revenue_degradation_reco.Events.{PaymentEvent}
use revenue_degradation_reco.Store.{Database}
use revenue_degradation_reco.Attempts.Identity.{for_key, validate_provider}
use revenue_degradation_reco.Attempts.Registry.{require}
use revenue_degradation_reco.Attempts.Registry.Laws.{require_by_rows}
use revenue_degradation_reco.Execution.Models.{InterventionCommand, PaymentOutcomeObservation}
use revenue_degradation_reco.Execution.Repository.{
  command_by_id, get_command_by_id, get_max_observation_version, insert_payment_outcome_observation,
}
use revenue_degradation_reco.Execution.Repository.Events.{
  get_canonical_terminal_events, ingested_by, terminal_of_provider,
}
use revenue_degradation_reco.Execution.Observation.{
  ObservationNames, observe, observe_found, append_observation,
}

select-append_out {ℓ} :
    {A : Type ℓ} (p : A → Bool) (xs : List A) (y : A)
    → p y ≡ false
    → select p (xs ++ y ∷ []) ≡ select p xs
select-append_out p [] y out = ground (arith, out)
select-append_out p (x ∷ xs) y out = ground (arith, select-append_out p xs y out)

module _ {W : Type 0} where
  abbrev pub with_event : PaymentEvent → Database W → Database W
  with_event e db = record db { payment_events = db.payment_events ++ e ∷ [] }

  canonical_barrier :
      (attempt source : String) (as_of : ℕ) (e : PaymentEvent) (db : Database W)
      → as_of < e.ingested_at
      → get_canonical_terminal_events attempt as_of (some source) (with_event e db)
        ≡ ((get_canonical_terminal_events attempt as_of (some source) db).0, with_event e db)
  unfolding get_canonical_terminal_events
  canonical_barrier attempt source as_of e db late =
      elim (Result-cases (validate_provider (some source))) [
        | inr (x, bad) ↦ rw bad refl
        | inl (u, good) ↦
            rw
              (
                good,
                select-append_out (ingested_by as_of (terminal_of_provider source attempt))
                    db.payment_events e (ground arith),
              )
              refl
      ]

  append_barrier :
      (names : ObservationNames) (command_id : ℕ) (cmd : InterventionCommand) (as_of now : ℕ)
      (events : List PaymentEvent) (e : PaymentEvent) (db : Database W)
      → (append_observation names command_id cmd as_of now events (with_event e db)).0
        ≡ (append_observation names command_id cmd as_of now events db).0
  unfolding append_observation get_max_observation_version insert_payment_outcome_observation
  append_barrier names command_id cmd as_of now events e db = ground arith

  canonical_reads :
      (attempt source : String) (as_of : ℕ) (db : Database W)
      → get_canonical_terminal_events attempt as_of (some source) db
        ≡ ((get_canonical_terminal_events attempt as_of (some source) db).0, db)
  unfolding get_canonical_terminal_events
  canonical_reads attempt source as_of db = elim (Result-cases (validate_provider (some source))) [
    | inr (x, bad) ↦ rw bad refl
    | inl (u, good) ↦ rw good refl
  ]

  -- Two runs of a step that reads give one answer, if what follows does.
  same_answer :
      {A B : Type 0} (m : Action (Database W) A) (f : A → Action (Database W) B)
      (db db' : Database W)
      → m db' ≡ ((m db).0, db')
      → m db ≡ ((m db).0, db)
      → ((a : A) → (f a db').0 ≡ (f a db).0)
      → ((m >>= f) db').0 ≡ ((m >>= f) db).0
  same_answer {A = A} m f db db' e e' k =
      ap (λ x. (continue x f).0) e ∙ go (m db).0 ∙ sym (ap (λ x. (continue x f).0) e')
    where
      go : (r : Result A) → (continue (r, db') f).0 ≡ (continue (r, db) f).0
      go (ok a) = k a
      go (err x) = refl

  observe_found_barrier :
      (names : ObservationNames) (command_id : ℕ) (found : Option InterventionCommand)
      (as_of now : ℕ) (e : PaymentEvent) (db : Database W)
      → as_of < e.ingested_at
      → (observe_found names command_id found as_of now (with_event e db)).0
        ≡ (observe_found names command_id found as_of now db).0
  unfolding observe_found
  observe_found_barrier names command_id none as_of now e db late = refl
  observe_found_barrier names command_id (some cmd) as_of now e db late =
      same_answer (lift (for_key cmd.source_system cmd.payment_attempt_id))
        (λ ref. require ref >>= λ _. events >>= after) db (with_event e db) refl refl
        (λ ref.
          same_answer (require ref) (λ _. events >>= after) db (with_event e db)
            (require_by_rows ref db (with_event e db) refl) (require_by_rows ref db db refl)
            (λ _.
              same_answer events after db (with_event e db)
                (canonical_barrier cmd.payment_attempt_id cmd.source_system as_of e db late)
                (canonical_reads cmd.payment_attempt_id cmd.source_system as_of db)
                (λ es. append_barrier names command_id cmd as_of now es e db)))
    where
      events : Action (Database W) (List PaymentEvent)
      events = get_canonical_terminal_events cmd.payment_attempt_id as_of (some cmd.source_system)

      after : List PaymentEvent → Action (Database W) PaymentOutcomeObservation
      after = append_observation names command_id cmd as_of now

  -- The information barrier: a payment event that is ingested after `as_of` changes nothing in the
  -- observation that is returned for that instant, nor in the error that is raised.
  pub observe-with_event :
      (names : ObservationNames) (command_id as_of now : ℕ) (e : PaymentEvent) (db : Database W)
      → as_of < e.ingested_at
      → (observe names command_id as_of now (with_event e db)).0
        ≡ (observe names command_id as_of now db).0
  unfolding observe get_command_by_id
  observe-with_event names command_id as_of now e db late =
      observe_found_barrier names command_id (command_by_id command_id db) as_of now e db late

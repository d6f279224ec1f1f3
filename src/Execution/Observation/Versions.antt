-- ===== src/Execution/Observation/Versions.antt =====
-- The versions of the observations (src/core/execution/observation_service.py) of one command.
use revenue_degradation_reco.Prelude.{
  ℕ, ◌+◌, ◌<◌, ◌≡◌, refl, sym, ap, List, [], ◌∷◌, ◌++◌, true, ◌==◌, arith, inl, inr, All,
}
use mathlib.Core.Path.{subst}
use revenue_degradation_reco.Errors.{ok, err, integrity_error}
use revenue_degradation_reco.Events.{PaymentEvent}
use revenue_degradation_reco.Store.{Database}
use revenue_degradation_reco.Attempts.Registry.Laws.{require_by_rows}
use revenue_degradation_reco.Execution.Models.{InterventionCommand, PaymentOutcomeObservation}
use revenue_degradation_reco.Execution.Repository.{
  get_command_by_id, max_observation, get_max_observation_version,
}
use revenue_degradation_reco.Execution.Repository.Events.{get_canonical_terminal_events}
use revenue_degradation_reco.Execution.Observation.{
  ObservationNames, observe, observe_found, append_observation, new_observation,
}
use revenue_degradation_reco.Execution.Observation.Outcome.{
  Observed, max_observation-bounds, instant_clash, clash_last, with_observation,
  insert_observation-cases, observe-Observed,
}

module _ {W : Type 0} where
  -- A second row of the instant is refused.
  refused_again :
      (names : ObservationNames) (command_id : ℕ) (cmd : InterventionCommand) (as_of later : ℕ)
      (events : List PaymentEvent) (o : PaymentOutcomeObservation) (db : Database W)
      → o.command_id ≡ command_id
      → o.as_of_timestamp ≡ as_of
      → append_observation names command_id cmd as_of later events (with_observation o db)
        ≡ (err integrity_error, with_observation o db)
  unfolding append_observation get_max_observation_version new_observation
  refused_again names command_id cmd as_of later events o db same instant =
      let row =
        new_observation names command_id cmd as_of later
          (max_observation command_id (db.payment_outcome_observations ++ o ∷ []) + 1) events in
      elim (insert_observation-cases row (with_observation o db)) [
        | inl refused ↦ rw refused refl
        | inr (fresh, done) ↦ absurd (
            ground (
              arith,
              fresh,
              clash_last row db.payment_outcome_observations o
                  (instant_clash row o (sym same) (sym instant)),
            ))
      ]

  again :
      (names : ObservationNames) (command_id as_of now later : ℕ) (db db' : Database W)
      (o : PaymentOutcomeObservation)
      → Observed names command_id as_of now db o db'
      → observe names command_id as_of later (with_observation o db)
        ≡ (err integrity_error, with_observation o db)
  unfolding observe observe_found get_command_by_id get_canonical_terminal_events new_observation
  again names command_id as_of now later db db' o seen =
      let required = require_by_rows seen.ref db (with_observation o db) refl in
      rw (seen.found, seen.is_ref, required, seen.registered, seen.known)
        (refused_again names command_id seen.cmd as_of later _ o db
          (ap (λ (k : PaymentOutcomeObservation). k.command_id) seen.row)
          (ap (λ (k : PaymentOutcomeObservation). k.as_of_timestamp) seen.row))

  -- Observations are append-only and versioned: a successful one leaves the earlier rows as they are and
  -- adds a row whose version is above every earlier one of its command, and once it is stored, observing
  -- the command again as of the same instant is refused and changes nothing.
  pub observe-versions :
      (names : ObservationNames) (command_id as_of now later : ℕ) (db db' : Database W)
      (o : PaymentOutcomeObservation)
      → observe names command_id as_of now db ≡ (ok o, db')
      → (db'.payment_outcome_observations ≡ db.payment_outcome_observations ++ o ∷ [])
        × All
            (λ (p : PaymentOutcomeObservation).
              (p.command_id == command_id) ≡ true → p.observation_version < o.observation_version)
            db.payment_outcome_observations
        × (observe names command_id as_of later db' ≡ (err integrity_error, db'))
  unfolding new_observation
  observe-versions names command_id as_of now later db db' o e =
      let seen = observe-Observed names command_id as_of now db db' o e in
      (
        ap (λ (d : Database W). d.payment_outcome_observations) seen.after,
        subst
            (λ v.
              All
                (λ (p : PaymentOutcomeObservation).
                  (p.command_id == command_id) ≡ true → p.observation_version < v)
                db.payment_outcome_observations)
            (sym (ap (λ (k : PaymentOutcomeObservation). k.observation_version) seen.row))
            (max_observation-bounds command_id
              (max_observation command_id db.payment_outcome_observations)
              db.payment_outcome_observations (ground arith)),
        subst (λ d. observe names command_id as_of later d ≡ (err integrity_error, d))
            (sym seen.after) (again names command_id as_of now later db db' o seen),
      )

-- ===== src/Attribution/Repository.antt =====
-- src/infrastructure/attribution_repository.py: reads and appends of Stage 8.
pub mod Latest
pub mod Histories
use revenue_degradation_reco.Prelude.{
  ℕ, Option, none, some, List, [], ◌∷◌, ◌++◌, String, Bool, true, not, ◌&&◌, ◌||◌, ◌==◌, ◌=s=◌, leb,
  ltb, if◌then◌else◌, find,
}
use revenue_degradation_reco.Prelude.Int.{ℤ}
use revenue_degradation_reco.Errors.{ok, err, attempt_provider_conflict, integrity_error}
use revenue_degradation_reco.Action.{Action, pure, lift, gets, ◌>>=◌}
use revenue_degradation_reco.Events.{PaymentEvent}
use revenue_degradation_reco.Store.{RegistryRow, FailurePrediction, Database}
use revenue_degradation_reco.Attempts.Identity.{
  paypal_source_system, paypal_order_id, validate_provider,
}
use revenue_degradation_reco.Attempts.Registry.{exists}
use revenue_degradation_reco.Intervention.Models.{InterventionDecision}
use revenue_degradation_reco.Execution.Models.{
  InterventionCommand, ExecutionAttempt, PaymentOutcomeObservation,
}
use revenue_degradation_reco.Execution.Repository.{is_command_of, command_by_id}
use revenue_degradation_reco.Execution.Repository.Events.{not_excluded}
use revenue_degradation_reco.Attribution.Models.{CounterfactualAttribution}

-- `ORDER BY version DESC LIMIT 1` over the rows that pass the test.
abbrev pub newer {ℓ} : {A : Type ℓ} → (A → ℕ) → A → Option A → A
newer version x none = x
newer version x (some y) = if ltb (version x) (version y) then y else x

abbrev pub latest {ℓ} : {A : Type ℓ} → (A → ℕ) → (A → Bool) → List A → Option A
latest version p [] = none
latest version p (x ∷ xs) =
    let rest = latest version p xs in if p x then some (newer version x rest) else rest

abbrev pub attribution_of : ℕ → CounterfactualAttribution → Bool
attribution_of id a = a.command_id == id

abbrev pub attribution_at : ℕ → ℕ → CounterfactualAttribution → Bool
attribution_at id as_of a = a.command_id == id && a.as_of_timestamp == as_of

-- uq_attribution_version, uq_attribution_temporal and the primary key
abbrev pub attribution_clashes : CounterfactualAttribution → CounterfactualAttribution → Bool
attribution_clashes a b =
    a.attribution_id == b.attribution_id
    || (a.command_id == b.command_id
        && (a.attribution_version == b.attribution_version
            || a.as_of_timestamp == b.as_of_timestamp))

-- fk_counterfactual_attributions_payment_attempt
abbrev pub attributed_attempt : CounterfactualAttribution → RegistryRow → Bool
attributed_attempt a row =
    row.payment_attempt_id =s= a.payment_attempt_id && row.source_system =s= a.source_system

abbrev pub attempt_by : ℕ → ℕ → ExecutionAttempt → Bool
attempt_by id as_of a = a.command_id == id && leb a.created_at as_of

abbrev pub observation_by : ℕ → ℕ → PaymentOutcomeObservation → Bool
observation_by id as_of o = o.command_id == id && leb o.as_of_timestamp as_of

-- `paypal_trigger_events`
unfoldable pub paypal_trigger : String → PaymentEvent → Bool
paypal_trigger order e =
    e.source_system =s= paypal_source_system
    && (e.event_type =s= "order.approved" && e.payment_id =s= order)

unfoldable pub authorized : (String → Bool) → String → PaymentEvent → Bool
authorized source_ok attempt e =
    e.payment_id =s= attempt && (e.event_type =s= "payment.authorized" && source_ok e.source_system)

-- The amount of the latest of these events by the cutoff.
abbrev pub by_cutoff : ℕ → (PaymentEvent → Bool) → PaymentEvent → Bool
by_cutoff as_of p e = p e && leb e.ingested_at as_of

abbrev pub latest_amount : ℕ → (PaymentEvent → Bool) → List PaymentEvent → Option ℤ
latest_amount as_of p events =
    elim (latest (λ (e : PaymentEvent). e.ingested_at) (by_cutoff as_of p) events) [
      | none ↦ none
      | some e ↦ some e.amount_minor_units
    ]

abbrev pub amount_of_order : ℕ → Option String → List PaymentEvent → Option ℤ
amount_of_order as_of none events = none
amount_of_order as_of (some order) events = latest_amount as_of (paypal_trigger order) events

abbrev pub of_command : CounterfactualAttribution → Option InterventionCommand → Bool
of_command a none = true
of_command a (some c) = a.source_system =s= c.source_system

abbrev pub as_asked : CounterfactualAttribution → Option String → Bool
as_asked a none = true
as_asked a (some s) = a.source_system =s= s

module _ {W : Type 0} where
  -- fk_attribution_decision
  abbrev pub decision_of : CounterfactualAttribution → InterventionDecision W → Bool
  decision_of a d = d.decision_id == a.decision_id && d.source_system =s= a.source_system

  -- A row that is found must have the provider of its command, and the one asked for.
  unfoldable pub checked :
      ℕ
      → Option String
      → Option CounterfactualAttribution
      → Action (Database W) (Option CounterfactualAttribution)
  checked command_id source none db = (ok none, db)
  checked command_id source (some a) db =
      if of_command a (command_by_id command_id db) && as_asked a source
      then (ok (some a), db)
      else (err attempt_provider_conflict, db)

  -- `if source_system is not None: validate_provider(source_system)`
  abbrev pub validated : Option String → Action (Database W) (Option String)
  validated none = pure none
  validated (some s) = do p ← lift (validate_provider (some s)); pure (some p)

  unfoldable pub get_latest_attribution :
      ℕ → Option String → Action (Database W) (Option CounterfactualAttribution)
  unfolding checked
  get_latest_attribution command_id source = do
    s ← validated source
    row ← gets (λ (db : Database W).
        latest (λ (a : CounterfactualAttribution). a.attribution_version)
          (attribution_of command_id) db.counterfactual_attributions)
    checked command_id source row

  unfoldable pub get_attribution_by_as_of :
      ℕ → ℕ → Option String → Action (Database W) (Option CounterfactualAttribution)
  unfolding checked
  get_attribution_by_as_of command_id as_of source = do
    s ← validated source
    row ←
        gets (λ (db : Database W).
          find (attribution_at command_id as_of) db.counterfactual_attributions)
    checked command_id source row

  unfoldable pub append_attribution :
      CounterfactualAttribution → Action (Database W) CounterfactualAttribution
  append_attribution a db =
      if exists (find (attribution_clashes a) db.counterfactual_attributions)
        || not (
            exists (find (attributed_attempt a) db.payment_attempts)
            && (exists (find (is_command_of a.command_id a.source_system) db.intervention_commands)
                && exists (find (decision_of a) db.intervention_decisions)))
      then (err integrity_error, db)
      else (
        ok a,
        record db { counterfactual_attributions = db.counterfactual_attributions ++ a ∷ [] },
      )

  unfoldable pub get_latest_execution_attempt :
      ℕ → ℕ → Action (Database W) (Option ExecutionAttempt)
  get_latest_execution_attempt command_id as_of = gets (λ db.
      latest (λ (a : ExecutionAttempt). a.attempt_number) (attempt_by command_id as_of)
        db.intervention_execution_attempts)

  unfoldable pub get_latest_outcome_observation :
      ℕ → ℕ → Action (Database W) (Option PaymentOutcomeObservation)
  get_latest_outcome_observation command_id as_of = gets (λ db.
      latest (λ (o : PaymentOutcomeObservation). o.observation_version)
        (observation_by command_id as_of) db.payment_outcome_observations)

  unfoldable pub get_decision : ℕ → Action (Database W) (Option (InterventionDecision W))
  get_decision id =
      gets
        (λ db. find (λ (d : InterventionDecision W). d.decision_id == id) db.intervention_decisions)

  unfoldable pub get_prediction : ℕ → Action (Database W) (Option (FailurePrediction W))
  get_prediction id =
      gets (λ db. find (λ (p : FailurePrediction W). p.prediction_id == id) db.failure_predictions)

  unfoldable pub get_canonical_payment_amount :
      String → ℕ → Option String → Action (Database W) (Option ℤ)
  get_canonical_payment_amount attempt as_of (some source) = do
    s ← lift (validate_provider (some source))
    gets (λ (db : Database W).
        if source =s= paypal_source_system
        then amount_of_order as_of (paypal_order_id attempt) db.payment_events
        else latest_amount as_of (authorized (λ s. s =s= source) attempt) db.payment_events)
  get_canonical_payment_amount attempt as_of none = gets (λ (db : Database W).
      elim (paypal_order_id attempt) [
        | some order ↦ latest_amount as_of (paypal_trigger order) db.payment_events
        | none ↦ latest_amount as_of (authorized not_excluded attempt) db.payment_events
      ])

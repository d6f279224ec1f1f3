-- ===== src/Attribution/Service.antt =====
-- src/core/attribution/attribution_service.py: attributions are evaluated and appended.
pub mod Laws
pub mod Twice
use revenue_degradation_reco.Prelude.{
  ℕ, ◌+◌, Option, none, some, List, [], ◌∷◌, ◌++◌, String, Bool, true, false, not, ◌=s=◌,
  if◌then◌else◌,
}
use revenue_degradation_reco.Prelude.Int.{ℤ}
use revenue_degradation_reco.Errors.{
  Result, ok, err, missing_upstream_data, attempt_provider_conflict, guard,
}
use revenue_degradation_reco.Action.{Action, pure, raise, lift, gets, ◌>>=◌, ◌>>◌}
use revenue_degradation_reco.Store.{FailurePrediction, Database}
use revenue_degradation_reco.Attempts.Identity.{for_key}
use revenue_degradation_reco.Attempts.Registry.{require}
use revenue_degradation_reco.Intervention.Models.{InterventionDecision}
use revenue_degradation_reco.Execution.Models.{
  InterventionCommand, ExecutionAttempt, PaymentOutcomeObservation,
}
use revenue_degradation_reco.Execution.Repository.{get_command_by_id}
use revenue_degradation_reco.Execution.Service.{is_act}
use revenue_degradation_reco.Attribution.Models.{CounterfactualAttribution, TreatmentStatus}
use revenue_degradation_reco.Attribution.Calculator.{
  calculate_attribution, AttributionCalculationResult,
}
use revenue_degradation_reco.Attribution.Evidence.{
  AttributionNames, PredictionEvidence, prediction_evidence, treatment_of, observed_outcome,
  timing_delta, attempt_provider, observation_provider, prediction_provider, same_providers,
  same_attempt, or_zero, next_version, is_simulated, smaller,
}
use revenue_degradation_reco.Attribution.Repository.{
  get_latest_attribution, get_attribution_by_as_of, append_attribution,
  get_latest_execution_attempt, get_latest_outcome_observation, get_decision, get_prediction,
  get_canonical_payment_amount,
}

abbrev pub methodology_name : String
methodology_name = "COUNTERFACTUAL_RISK_WEIGHTED_V1"

abbrev pub methodology_version : String
methodology_version = "1.0.0"

-- The records that an attribution rests on.
pub record Upstream (W : Type 0) : Type 0 where
  pub command : InterventionCommand
  pub attempt : Option ExecutionAttempt
  pub observation : Option PaymentOutcomeObservation
  pub decision : InterventionDecision W
  pub prediction : Option (FailurePrediction W)

module _ {W : Type 0} where
  abbrev pub treatment : Upstream W → TreatmentStatus
  treatment up =
      treatment_of (is_act up.decision.decision_type) up.command.command_status up.attempt
        up.observation

  -- Steps 5 to 9.
  unfoldable pub evaluate : AttributionNames W → Upstream W → ℤ → AttributionCalculationResult
  evaluate names up amount =
      let evidence = prediction_evidence names up.prediction in
      calculate_attribution amount evidence.p0 (treatment up) (observed_outcome up.observation)
        evidence.provenance evidence.prediction_status up.decision.diagnosis_confidence
        (timing_delta up.attempt up.observation)

  unfoldable pub new_attribution :
      AttributionNames W → Upstream W → ℤ → ℕ → ℕ → ℕ → CounterfactualAttribution
  unfolding evaluate
  new_attribution names up amount version as_of now =
      let evidence = prediction_evidence names up.prediction in
      let result = evaluate names up amount in
      record {
        attribution_id = names.make_attribution_id up.command.command_id version;
        command_id = up.command.command_id;
        payment_attempt_id = up.command.payment_attempt_id;
        source_system = up.command.source_system;
        decision_id = up.decision.decision_id;
        attribution_version = version;
        attributed_at = now;
        as_of_timestamp = as_of;
        attribution_status = result.attribution_status;
        methodology_name = methodology_name;
        methodology_version = methodology_version;
        treatment_status = treatment up;
        observed_payment_outcome = observed_outcome up.observation;
        payment_amount_minor_units = amount;
        counterfactual_failure_probability = evidence.p0;
        counterfactual_loss_exposure_minor_units = result.counterfactual_loss_exposure_minor_units;
        counterfactual_natural_success_gmv_minor_units =
            result.counterfactual_natural_success_gmv_minor_units;
        attributed_protected_gmv_minor_units = result.attributed_protected_gmv_minor_units;
        attribution_confidence = result.attribution_confidence;
        is_synthetic_baseline = evidence.is_synthetic;
        is_simulated_execution = is_simulated up.attempt;
        created_at = now;
      }

  -- A row that must be there.
  found_or_missing : {A : Type 0} → Option A → Action (Database W) A
  found_or_missing none = raise missing_upstream_data
  found_or_missing (some a) = pure a

  prediction_of : Option ℕ → Action (Database W) (Option (FailurePrediction W))
  prediction_of none = pure none
  prediction_of (some id) = get_prediction id

  -- Step 4: the upstream records as of the cutoff.
  unfoldable pub fetch_upstream : ℕ → ℕ → Action (Database W) (Upstream W)
  unfolding found_or_missing prediction_of
  fetch_upstream command_id as_of = do
    row ← get_command_by_id command_id
    command ← found_or_missing row
    attempt ← get_latest_execution_attempt command_id as_of
    observation ← get_latest_outcome_observation command_id as_of
    decided ← get_decision command.decision_id
    decision ← found_or_missing decided
    prediction ← prediction_of decision.stage5_prediction_id
    pure (record {
      command = command;
      attempt = attempt;
      observation = observation;
      decision = decision;
      prediction = prediction;
    })

  -- The providers and the attempts of the upstream records.
  unfoldable pub check_upstream : Upstream W → Action (Database W) Unit
  check_upstream up = do
    ref ← lift (for_key up.command.source_system up.command.payment_attempt_id)
    require ref
    lift (
        same_providers up.command.source_system (
          up.decision.source_system
          ∷ (prediction_provider up.prediction
              ++ attempt_provider up.attempt
              ++ observation_provider up.observation)))
    lift (
        guard (up.decision.payment_attempt_id =s= up.command.payment_attempt_id)
          attempt_provider_conflict)
    lift (
        guard (same_attempt up.command.payment_attempt_id up.observation) attempt_provider_conflict)

  attribute_new : AttributionNames W → ℕ → ℕ → ℕ → ℕ → Action (Database W) CounterfactualAttribution
  attribute_new names command_id as_of now version = do
    up ← fetch_upstream command_id as_of
    check_upstream up
    amount ←
        get_canonical_payment_amount up.command.payment_attempt_id
          (smaller up.decision.decided_at as_of) (some up.command.source_system)
    append_attribution (new_attribution names up (or_zero amount) version as_of now)

  -- Steps 2 and 3. The advisory lock of step 1 makes the calls for one command run one after another.
  unless_attributed :
      AttributionNames W
      → ℕ
      → ℕ
      → ℕ
      → Option CounterfactualAttribution
      → Action (Database W) CounterfactualAttribution
  unfolding attribute_new
  unless_attributed names command_id as_of now (some existing) db = (ok existing, db)
  unless_attributed names command_id as_of now none db =
      (get_latest_attribution command_id none >>= λ latest.
      attribute_new names command_id as_of now (next_version latest))
        db

  unfoldable pub attribute_payment_intervention :
      AttributionNames W → ℕ → ℕ → ℕ → Action (Database W) CounterfactualAttribution
  unfolding unless_attributed
  attribute_payment_intervention names command_id as_of now = do
    existing ← get_attribution_by_as_of command_id as_of none
    unless_attributed names command_id as_of now existing

-- ===== src/Attribution/Service/Laws.antt =====
-- What the service's attributions (src/core/attribution/attribution_service.py) rest on.
use revenue_degradation_reco.Prelude.{
  ℕ, ◌≡◌, ◌≢◌, refl, Option, none, some, String, Bool, true, false, arith,
}
use revenue_degradation_reco.Prelude.Int.{ℤ}
use revenue_degradation_reco.Store.{FailurePrediction}
use revenue_degradation_reco.Execution.Models.{
  CommandStatus, success, ExecutionAttempt, PaymentOutcomeObservation,
}
use revenue_degradation_reco.Execution.Service.{is_act}
use revenue_degradation_reco.Attribution.Models.{
  attributed, treated, ModelProvenance, empirical_production, synthetic_development, unknown,
}
use revenue_degradation_reco.Attribution.Calculator.Gates.{calculate_attribution-attributed}
use revenue_degradation_reco.Attribution.Evidence.{
  AttributionNames, classify_model_provenance, prediction_evidence, treatment_of, is_not_empirical,
  is_undispatched, precedes, observed_at_time, observed_outcome, timing_delta,
}
use revenue_degradation_reco.Attribution.Service.{Upstream, treatment, evaluate, new_attribution}

classify-not_empirical :
    (name version : String) → classify_model_provenance name version ≢ empirical_production
unfolding classify_model_provenance
classify-not_empirical name version h = ground arith

-- What TREATED says of the execution.
pub record Delivered (status : CommandStatus) (attempt : Option ExecutionAttempt)
    (observation : Option PaymentOutcomeObservation) : Type 0 where
  pub run : ExecutionAttempt
  pub is_run : attempt ≡ some run
  pub succeeded' : run.execution_status ≡ success
  pub dispatched : is_undispatched status ≡ false
  pub in_order : precedes (observed_at_time observation) run.completed_at ≡ false

treatment_of-Delivered :
    (acted : Bool) (status : CommandStatus) (attempt : Option ExecutionAttempt)
    (observation : Option PaymentOutcomeObservation)
    → treatment_of acted status attempt observation ≡ treated
    → (acted ≡ true) × Delivered status attempt observation
unfolding treatment_of
treatment_of-Delivered acted status none observation h = absurd (ground arith)
treatment_of-Delivered acted status (some a) observation h = (
  ground arith,
  record {
    run = a;
    is_run = refl;
    succeeded' = ground arith;
    dispatched = ground arith;
    in_order = ground arith;
  },
)

not_empirical : (p : ModelProvenance) → p ≢ empirical_production → is_not_empirical p ≡ true
not_empirical empirical_production n = absurd (n refl)
not_empirical synthetic_development n = refl
not_empirical unknown n = refl

module _ {W : Type 0} where
  prediction-synthetic :
      (names : AttributionNames W) (p : Option (FailurePrediction W))
      → (prediction_evidence names p).is_synthetic ≡ true
  unfolding prediction_evidence
  prediction-synthetic names none = refl
  prediction-synthetic names (some p) =
      not_empirical (classify_model_provenance p.model_name p.model_version)
        (classify-not_empirical p.model_name p.model_version)

  -- No attribution claims empirical evidence: with the registry of validated models that the code has,
  -- every new attribution is marked as a synthetic baseline.
  pub new_attribution-synthetic :
      (names : AttributionNames W) (up : Upstream W) (amount : ℤ) (version as_of now : ℕ)
      → (new_attribution names up amount version as_of now).is_synthetic_baseline ≡ true
  unfolding new_attribution
  new_attribution-synthetic names up amount version as_of now =
      prediction-synthetic names up.prediction

  -- Money is credited only to a delivered intervention: an attribution that is ATTRIBUTED comes from an
  -- ACT decision and a command that was dispatched, with an execution attempt that succeeded and was
  -- completed no later than the terminal event of the observation, where it has one.
  pub new_attribution-Delivered :
      (names : AttributionNames W) (up : Upstream W) (amount : ℤ) (version as_of now : ℕ)
      → (new_attribution names up amount version as_of now).attribution_status ≡ attributed
      → (is_act up.decision.decision_type ≡ true)
        × Delivered up.command.command_status up.attempt up.observation
  unfolding new_attribution evaluate
  new_attribution-Delivered names up amount version as_of now h =
      let evidence = prediction_evidence names up.prediction in
      let e =
        (calculate_attribution-attributed amount evidence.p0 (treatment up)
            (observed_outcome up.observation) evidence.provenance evidence.prediction_status
            up.decision.diagnosis_confidence (timing_delta up.attempt up.observation)).0
          h in
      treatment_of-Delivered (is_act up.decision.decision_type) up.command.command_status up.attempt
        up.observation e.is_treated

-- ===== src/Attribution/Examples.antt =====
-- The theorems on attributions at a concrete payment.
use revenue_degradation_reco.Prelude.{◌+◌, ◌*◌, ◌≡◌, refl, none, some, [], ◌∷◌, true, false}
use revenue_degradation_reco.Prelude.Int.{ℤ, pos, ◌*ℤ◌}
use revenue_degradation_reco.Prelude.Decimal.{ten_thousandths, round_half_even}
use revenue_degradation_reco.Errors.{ok}
use revenue_degradation_reco.Store.{FailurePrediction, Database}
use revenue_degradation_reco.Attempts.Identity.{
  for_key, attempt_ref, valid_identity, is_pipeline_provider, paypal_order_id, validate_provider,
}
use revenue_degradation_reco.Attempts.Registry.{require}
use revenue_degradation_reco.Execution.Models.{
  succeeded, success, captured, InterventionCommand, ExecutionAttempt, PaymentOutcomeObservation,
}
use revenue_degradation_reco.Execution.Repository.{get_command_by_id}
use revenue_degradation_reco.Execution.Service.{is_act}
use revenue_degradation_reco.Execution.Examples.{decision_7, command_107, commanded}
use revenue_degradation_reco.Attribution.Models.{
  CounterfactualAttribution, attributed, treated, unknown, synthetic_development,
}
use revenue_degradation_reco.Attribution.Calculator.{
  calculate_attribution, treatment_gate, weigh, alpha_confidence, prediction_confidence,
  diagnosis_weight, compute_timing_confidence,
}
use revenue_degradation_reco.Attribution.Calculator.Bounds.{Sound, calculate_attribution-Sound}
use revenue_degradation_reco.Attribution.Evidence.{
  AttributionNames, prediction_evidence, treatment_of, observed_outcome, timing_delta,
  same_providers, same_attempt, classify_model_provenance,
}
use revenue_degradation_reco.Attribution.Repository.{
  get_attribution_by_as_of, get_latest_attribution, checked, get_latest_execution_attempt,
  get_latest_outcome_observation, get_decision, get_prediction, get_canonical_payment_amount,
  authorized, append_attribution,
}
use revenue_degradation_reco.Attribution.Service.{
  Upstream, evaluate, new_attribution, fetch_upstream, check_upstream,
  attribute_payment_intervention,
}
use revenue_degradation_reco.Attribution.Service.Laws.{Delivered, new_attribution-Delivered}
use revenue_degradation_reco.Attribution.Service.Twice.{attribute_twice, with_attribution}

calculate_attribution-Sound_example : Sound (pos 50_000) (
    calculate_attribution
      (pos 50_000)
      (some (ten_thousandths 8_000))
      treated
      "CAPTURED"
      synthetic_development
      "PREDICTED"
      (some "STRONG")
      (some (pos 30_000_000)))
calculate_attribution-Sound_example =
    calculate_attribution-Sound (pos 50_000) (some (ten_thousandths 8_000)) treated "CAPTURED"
      synthetic_development "PREDICTED" (some "STRONG") (some (pos 30_000_000))

credited :
    (calculate_attribution
      (pos 50_000)
      (some (ten_thousandths 8_000))
      treated
      "CAPTURED"
      unknown
      "PREDICTED"
      (some "STRONG")
      (some (pos 90_000_000))).attribution_status
    ≡ attributed
unfolding calculate_attribution treatment_gate weigh alpha_confidence prediction_confidence
    diagnosis_weight compute_timing_confidence ◌*ℤ◌ round_half_even
credited = refl

abbrev attributing : AttributionNames ℤ
attributing = record {
  make_attribution_id = λ c v. c * 10 + v;
  decimal_of = λ w. record { coefficient = w; places = 4 };
}

abbrev attempt_1 : ExecutionAttempt
attempt_1 = record {
  attempt_id = 1;
  command_id = 107;
  source_system = "razorpay";
  attempt_number = 1;
  started_at = 3_000;
  completed_at = 4_000;
  duration_ms = 1;
  execution_status = success;
  executor_name = "SIMULATOR_V1";
  is_simulation = true;
  provider_action_type = "GATEWAY_REROUTE";
  provider_response_code = none;
  provider_response_payload = "{}";
  error_message = none;
  created_at = 4_000;
}

abbrev observation_1 : PaymentOutcomeObservation
observation_1 = record {
  observation_id = 1;
  command_id = 107;
  payment_attempt_id = "pay_1";
  source_system = "razorpay";
  observation_version = 1;
  observed_at = 10_000;
  as_of_timestamp = 10_000;
  payment_outcome = captured;
  terminal_event_id = some 2;
  terminal_event_type = some "payment.captured";
  terminal_event_timestamp = some 8_500;
  time_to_outcome_ms = some 6;
  observation_audit_payload = record {
    terminal_event_count = 1;
    conflict_detected = false;
    conflicting_events = [];
  };
  created_at = 10_000;
}

abbrev pub prediction_5 : FailurePrediction ℤ
prediction_5 = record {
  prediction_id = 5;
  payment_attempt_id = "pay_1";
  source_system = "razorpay";
  failure_probability = some (pos 8_000);
  prediction_status = "PREDICTED";
  model_name = "DeterministicBaselineModel";
  model_version = "1";
  prediction_version = 1;
  predicted_at = 900;
  rca_candidate_matches_payment_segment = some true;
}

abbrev finished : InterventionCommand
finished = record command_107 { command_status = succeeded }

abbrev settled : Database ℤ
settled = record commanded {
  intervention_commands = finished ∷ [];
  intervention_execution_attempts = attempt_1 ∷ [];
  payment_outcome_observations = observation_1 ∷ [];
  failure_predictions = prediction_5 ∷ [];
}

abbrev upstream : Upstream ℤ
upstream = record {
  command = finished;
  attempt = some attempt_1;
  observation = some observation_1;
  decision = decision_7;
  prediction = some prediction_5;
}

attributed_upstream :
    (new_attribution attributing upstream (pos 50_000) 1 20_000 30_000).attribution_status
    ≡ attributed
unfolding new_attribution evaluate prediction_evidence treatment_of observed_outcome timing_delta
    classify_model_provenance calculate_attribution treatment_gate weigh alpha_confidence
    prediction_confidence diagnosis_weight compute_timing_confidence ◌*ℤ◌ round_half_even
attributed_upstream = refl

new_attribution-Delivered_example :
    (is_act upstream.decision.decision_type ≡ true)
    × Delivered upstream.command.command_status upstream.attempt upstream.observation
new_attribution-Delivered_example =
    new_attribution-Delivered attributing upstream (pos 50_000) 1 20_000 30_000 attributed_upstream

abbrev attribution_1 : CounterfactualAttribution
attribution_1 = new_attribution attributing upstream (pos 50_000) 1 20_000 30_000

attributed_once :
    attribute_payment_intervention attributing 107 20_000 30_000 settled
    ≡ (ok attribution_1, with_attribution attribution_1 settled)
unfolding attribute_payment_intervention get_attribution_by_as_of get_latest_attribution checked
    fetch_upstream check_upstream get_command_by_id get_latest_execution_attempt
    get_latest_outcome_observation get_decision get_prediction for_key attempt_ref valid_identity
    is_pipeline_provider paypal_order_id require same_providers same_attempt
    get_canonical_payment_amount validate_provider authorized append_attribution new_attribution
attributed_once = refl

attribute_twice_example :
    attribute_payment_intervention attributing 107 20_000 40_000
      (with_attribution attribution_1 settled)
    ≡ (ok attribution_1, with_attribution attribution_1 settled)
attribute_twice_example =
    attribute_twice attributing 107 20_000 30_000 40_000 settled
      (with_attribution attribution_1 settled) attribution_1 attributed_once

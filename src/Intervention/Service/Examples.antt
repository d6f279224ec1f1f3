-- ===== src/Intervention/Service/Examples.antt =====
-- Examples for the service of Stage 6 (src/core/intervention/service.py).
use revenue_degradation_reco.Prelude.{◌≡◌, refl, some, none, [], ◌∷◌}
use revenue_degradation_reco.Prelude.Int.{ℤ, pos, ◌*ℤ◌, ◌-ℤ◌}
use revenue_degradation_reco.Prelude.Decimal.{round_half_even}
use revenue_degradation_reco.Prelude.Float.{fixed_float}
use revenue_degradation_reco.Errors.{ok}
use revenue_degradation_reco.Action.{transact}
use revenue_degradation_reco.Store.{Database}
use revenue_degradation_reco.Attempts.Identity.{
  validate_provider, is_pipeline_provider, paypal_order_id, valid_identity, has_paypal_prefix,
  is_paypal_identifier, is_terminal_type, paypal_attempt_id,
}
use revenue_degradation_reco.Attempts.Registry.{require, judge_row}
use revenue_degradation_reco.Attempts.Examples.{pay_1, registered}
use revenue_degradation_reco.Attribution.Repository.{authorized, paypal_trigger}
use revenue_degradation_reco.Attribution.Examples.{prediction_5}
use revenue_degradation_reco.Features.Repository.{
  get_payment_event_by_id, get_most_severe_active_episode, trigger_at, most_severe_active,
  active_episode,
}
use revenue_degradation_reco.Intervention.Models.{
  InterventionDecision, act, fallback_payment_link, passed,
}
use revenue_degradation_reco.Intervention.Policy.{get_default_policy}
use revenue_degradation_reco.Intervention.Context.{
  DecisionNames, gather, hard_gates, diagnose, diagnose_episode,
}
use revenue_degradation_reco.Intervention.Repository.{
  get_latest_decision, get_max_decision_version, check_terminal_event_exists,
  get_stage5_prediction_as_of, append_decision, ends_attempt, has_recent_route_decision,
  count_recent_act_decisions,
}
use revenue_degradation_reco.Intervention.History.{IsRateLimited, IsCooledDown}
use revenue_degradation_reco.Intervention.Service.{
  decide, unless_unchanged, decide_new, score_routes, score_route, choose, admit, persist, scored,
}
use revenue_degradation_reco.Intervention.Calculator.{
  determine_verdict, at_least, calculate_policy_utility, calculate_act_confidence,
  calculate_route_alignment, matches_diagnosis, clamp, monitor_or_ignore,
}
use revenue_degradation_reco.Intervention.Ranking.{ranks_before}
use revenue_degradation_reco.Intervention.Gates.{
  evaluate_kill_switch, evaluate_amount_and_currency, evaluate_pre_terminal_invariance,
  evaluate_stage5_prediction_validity, evaluate_episode_and_traffic_shift,
  evaluate_policy_cost_currency, evaluate_route_eligibility, is_applicable,
}
use revenue_degradation_reco.Execution.Repository.Events.{payment_terminal, paypal_terminal}
use revenue_degradation_reco.Intervention.Service.Steps.{Steps, decide-Steps}
use revenue_degradation_reco.Intervention.Service.Served.{
  Serves, begun, decided, decide-IsRateLimited, decide-IsCooledDown,
}
use revenue_degradation_reco.Intervention.Service.Twice.{decide-settled}

abbrev naming : DecisionNames ℤ
naming = record {
  make_decision_id = λ attempt version. version;
  compute_decision_fingerprint = λ inputs. inputs.prediction_status;
  rounded_decimal = λ p. record { coefficient = p; places = 4 };
}

abbrev predicted : Database ℤ
predicted = record registered { failure_predictions = prediction_5 ∷ [] }

abbrev decision_1 : InterventionDecision ℤ
decision_1 = record {
  decision_id = 1;
  payment_attempt_id = "pay_1";
  source_system = "razorpay";
  decision_version = 1;
  decided_at = 1_000;
  decision_type = act;
  selected_route_id = some fallback_payment_link;
  failure_probability = some (pos 8_000);
  stage5_prediction_id = some 5;
  diagnosis_confidence = none;
  decision_confidence = pos 6_166;
  gate_verdict = passed;
  policy_id = "default-recovery-v1";
  policy_version = "1.0.0";
  input_fingerprint = "PREDICTED";
  created_at = 2_000;
}

abbrev after : Database ℤ
after = record predicted { intervention_decisions = decision_1 ∷ [] }

decided_once : decide naming get_default_policy 2_000 pay_1 1_000 predicted ≡ (ok decision_1, after)
unfolding decide gather require get_payment_event_by_id check_terminal_event_exists
    get_stage5_prediction_as_of diagnose get_most_severe_active_episode diagnose_episode
    get_latest_decision unless_unchanged decide_new hard_gates score_routes score_route choose admit
    persist append_decision get_max_decision_version validate_provider is_pipeline_provider
    paypal_order_id valid_identity authorized trigger_at ends_attempt scored determine_verdict
    has_recent_route_decision count_recent_act_decisions most_severe_active evaluate_kill_switch
    evaluate_amount_and_currency evaluate_pre_terminal_invariance
    evaluate_stage5_prediction_validity evaluate_episode_and_traffic_shift
    evaluate_policy_cost_currency evaluate_route_eligibility ranks_before at_least ◌*ℤ◌
    calculate_policy_utility ◌-ℤ◌ round_half_even calculate_act_confidence calculate_route_alignment
    matches_diagnosis has_paypal_prefix is_paypal_identifier is_terminal_type paypal_attempt_id
    judge_row paypal_trigger payment_terminal paypal_terminal active_episode clamp monitor_or_ignore
    is_applicable
decided_once = refl

decide-settled_example :
    decide naming get_default_policy 9_000 pay_1 1_000 after ≡ (ok decision_1, after)
decide-settled_example =
    decide-settled naming get_default_policy pay_1 1_000 2_000 9_000 predicted decision_1 after
      decided_once

decide-Steps_example :
    Steps naming get_default_policy 2_000 pay_1 1_000 predicted
      (decide naming get_default_policy 2_000 pay_1 1_000 predicted).1
decide-Steps_example = decide-Steps naming get_default_policy 2_000 pay_1 1_000 predicted

abbrev served : Database ℤ
served = (transact (decide naming get_default_policy 2_000 pay_1 1_000) predicted).1

served-Serves : Serves naming get_default_policy predicted served
served-Serves = decided 2_000 pay_1 1_000 begun

decide-IsRateLimited_example : IsRateLimited 100 served.intervention_decisions
decide-IsRateLimited_example =
    decide-IsRateLimited naming get_default_policy predicted served refl served-Serves

decide-IsCooledDown_example :
    IsCooledDown (get_default_policy {W = ℤ}).routes served.intervention_decisions
decide-IsCooledDown_example =
    decide-IsCooledDown naming get_default_policy predicted served refl served-Serves

-- ===== src/Intervention/Policy.antt =====
-- src/core/intervention/policy.py: the decision policy and its catalogue of routes. W is the type of
-- Python's floats.
use revenue_degradation_reco.Prelude.{ℕ, String, List, [], ◌∷◌, Bool, true, false, ◌||◌, ◌=s=◌}
use revenue_degradation_reco.Prelude.Int.{pos}
use revenue_degradation_reco.Prelude.Decimal.{Decimal}
use revenue_degradation_reco.Prelude.Float.{Float}
use revenue_degradation_reco.Intervention.Models.{
  InterventionRouteKey, retry_secondary_gateway, prompt_payment_method_switch,
  dynamic_retry_backoff, degradation_circuit_bypass, fallback_payment_link,
}

pub record RoutePolicyDefinition : Type 0 where
  pub route_key : InterventionRouteKey
  pub target_dimensions : List String
  pub policy_recovery_rate : Decimal
  pub policy_cost_minor_units : ℕ
  pub cooldown_seconds : ℕ
  pub requires_diagnosis : Bool
  pub requires_strong_rca : Bool
  pub enabled : Bool

-- The routes are the values of the dictionary, in its order.
pub record InterventionPolicy (W : Type 0) : Type 0 where
  pub policy_id : String
  pub policy_version : String
  pub kill_switch_enabled : Bool
  pub act_risk_threshold : W
  pub monitor_risk_threshold : W
  pub min_policy_utility_threshold : Decimal
  pub global_rate_limit_per_minute : ℕ
  pub routes : List RoutePolicyDefinition
  pub cost_currency : String

abbrev pub hundredths : ℕ → Decimal
hundredths n = record { coefficient = pos n; places = 2 }

-- `dimension in route.target_dimensions`
abbrev pub targets : String → List String → Bool
targets d [] = false
targets d (x ∷ xs) = d =s= x || targets d xs

abbrev pub retry_route : RoutePolicyDefinition
retry_route = record {
  route_key = retry_secondary_gateway;
  target_dimensions = "BANK" ∷ "GLOBAL" ∷ [];
  policy_recovery_rate = hundredths 55;
  policy_cost_minor_units = 150;
  cooldown_seconds = 300;
  requires_diagnosis = true;
  requires_strong_rca = false;
  enabled = true;
}

abbrev pub switch_route : RoutePolicyDefinition
switch_route = record {
  route_key = prompt_payment_method_switch;
  target_dimensions = "PAYMENT_METHOD" ∷ [];
  policy_recovery_rate = hundredths 65;
  policy_cost_minor_units = 300;
  cooldown_seconds = 600;
  requires_diagnosis = true;
  requires_strong_rca = true;
  enabled = true;
}

abbrev pub backoff_route : RoutePolicyDefinition
backoff_route = record {
  route_key = dynamic_retry_backoff;
  target_dimensions = "GLOBAL" ∷ "BANK" ∷ "PAYMENT_METHOD" ∷ [];
  policy_recovery_rate = hundredths 35;
  policy_cost_minor_units = 50;
  cooldown_seconds = 180;
  requires_diagnosis = false;
  requires_strong_rca = false;
  enabled = true;
}

abbrev pub bypass_route : RoutePolicyDefinition
bypass_route = record {
  route_key = degradation_circuit_bypass;
  target_dimensions = "BANK" ∷ "PAYMENT_METHOD" ∷ [];
  policy_recovery_rate = hundredths 75;
  policy_cost_minor_units = 500;
  cooldown_seconds = 900;
  requires_diagnosis = true;
  requires_strong_rca = true;
  enabled = true;
}

abbrev pub link_route : RoutePolicyDefinition
link_route = record {
  route_key = fallback_payment_link;
  target_dimensions = "GLOBAL" ∷ [];
  policy_recovery_rate = hundredths 45;
  policy_cost_minor_units = 200;
  cooldown_seconds = 1_800;
  requires_diagnosis = false;
  requires_strong_rca = false;
  enabled = true;
}

module _ {W : Type 0} ⦃f : Float W⦄ where
  abbrev pub get_default_policy : InterventionPolicy W
  get_default_policy = record {
    policy_id = "default-recovery-v1";
    policy_version = "1.0.0";
    kill_switch_enabled = false;
    act_risk_threshold = f.lit 70 100;
    monitor_risk_threshold = f.lit 35 100;
    min_policy_utility_threshold = record { coefficient = pos 50; places = 0 };
    global_rate_limit_per_minute = 100;
    routes = retry_route ∷ switch_route ∷ backoff_route ∷ bypass_route ∷ link_route ∷ [];
    cost_currency = "INR";
  }

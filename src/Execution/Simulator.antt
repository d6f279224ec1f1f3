-- ===== src/Execution/Simulator.antt =====
-- src/core/execution/simulator.py: the deterministic executor of development and tests.
use revenue_degradation_reco.Prelude.{ℕ, String, Option, none, some, List, [], ◌∷◌, Bool, true}
use revenue_degradation_reco.Intervention.Models.{
  InterventionRouteKey, retry_secondary_gateway, prompt_payment_method_switch,
  dynamic_retry_backoff, degradation_circuit_bypass, fallback_payment_link,
}
use revenue_degradation_reco.Execution.Models.{
  ExecutionResultStatus, success, failure, timeout, InterventionCommand, ExecutionResult,
}

pub data SimulatorMode : Type 0 where
  always_succeed always_fail simulate_timeout route_specific : SimulatorMode

abbrev pub mode_value : SimulatorMode → String
mode_value always_succeed = "ALWAYS_SUCCEED"
mode_value always_fail = "ALWAYS_FAIL"
mode_value simulate_timeout = "SIMULATE_TIMEOUT"
mode_value route_specific = "ROUTE_SPECIFIC"

abbrev pub route_value : InterventionRouteKey → String
route_value retry_secondary_gateway = "RETRY_SECONDARY_GATEWAY"
route_value prompt_payment_method_switch = "PROMPT_PAYMENT_METHOD_SWITCH"
route_value dynamic_retry_backoff = "DYNAMIC_RETRY_BACKOFF"
route_value degradation_circuit_bypass = "DEGRADATION_CIRCUIT_BYPASS"
route_value fallback_payment_link = "FALLBACK_PAYMENT_LINK"

abbrev pub action_type : InterventionRouteKey → String
action_type retry_secondary_gateway = "GATEWAY_REROUTE"
action_type prompt_payment_method_switch = "METHOD_SWITCH_PROMPT"
action_type dynamic_retry_backoff = "BACKOFF_RETRY_SCHEDULE"
action_type degradation_circuit_bypass = "CIRCUIT_BYPASS"
action_type fallback_payment_link = "PAYMENT_LINK_DISPATCH"

-- A value of a payload, and how Python writes UUIDs and payloads.
pub data Json : Type 0 where
  text : String → Json
  number : ℕ → Json
  boolean : Bool → Json

abbrev pub Field : Type 0
Field = String × Json

pub record Writing : Type 0 where
  pub str_uuid : ℕ → String
  pub dumps : List Field → String

pub record Simulator : Type 0 where
  pub mode : SimulatorMode
  pub simulated_duration_ms : ℕ
  pub route_status_map : InterventionRouteKey → Option ExecutionResultStatus

-- What all results have in common.
abbrev pub simulated :
    Simulator
    → InterventionCommand
    → ExecutionResultStatus
    → String
    → String
    → Option String
    → ExecutionResult
simulated sim command status response payload message = record {
  status = status;
  executor_name = "SIMULATOR_V1";
  is_simulation = true;
  provider_action_type = action_type command.route_key;
  provider_response_code = some response;
  provider_response_payload = payload;
  error_message = message;
  duration_ms = sim.simulated_duration_ms;
}

unfoldable pub payload_of : Writing → Simulator → InterventionCommand → Field → String
payload_of w sim command last = w.dumps (
    ("simulator_mode", text (mode_value sim.mode))
    ∷ ("command_id", text (w.str_uuid command.command_id))
    ∷ ("route_key", text (route_value command.route_key))
    ∷ last
    ∷ [])

unfoldable pub route_payload : Writing → InterventionCommand → String
route_payload w command = w.dumps (("route_key", text (route_value command.route_key)) ∷ [])

unfoldable pub build_success_result : Writing → Simulator → InterventionCommand → ExecutionResult
build_success_result w sim command =
    simulated sim command success "SIMULATED_ACK"
      (payload_of w sim command ("acknowledged", boolean true)) none

unfoldable pub route_result :
    Writing → Simulator → InterventionCommand → Option ExecutionResultStatus → ExecutionResult
route_result w sim command none = build_success_result w sim command
route_result w sim command (some success) = build_success_result w sim command
route_result w sim command (some timeout) =
    simulated sim command timeout "SIMULATED_TIMEOUT" (route_payload w command)
      (some "Simulated route-specific timeout.")
route_result w sim command (some failure) =
    simulated sim command failure "SIMULATED_ROUTE_FAILURE" (route_payload w command)
      (some "Simulated route-specific execution failure.")

abbrev pub by_mode : Writing → Simulator → InterventionCommand → SimulatorMode → ExecutionResult
by_mode w sim command simulate_timeout =
    simulated sim command timeout "SIMULATED_TIMEOUT"
      (payload_of w sim command ("timeout_ms", number sim.simulated_duration_ms))
      (some "Simulated executor transport timeout: no confirmed result from provider.")
by_mode w sim command always_fail =
    simulated sim command failure "SIMULATED_PROVIDER_REJECTION"
      (payload_of w sim command ("error_code", text "GATEWAY_SWITCH_UNAVAILABLE"))
      (some "Simulated provider rejected intervention route instruction.")
by_mode w sim command route_specific =
    route_result w sim command (sim.route_status_map command.route_key)
by_mode w sim command always_succeed = build_success_result w sim command

unfoldable pub simulate : Writing → Simulator → InterventionCommand → ExecutionResult
simulate w sim command = by_mode w sim command sim.mode

-- ===== src/Attribution/Evidence.antt =====
-- src/core/attribution/attribution_service.py: what the service reads off the upstream records.
use Prim.Native.String.{String}
use Prim.Native.Char.{code}
use revenue_degradation_reco.Prelude.{
  ℕ, ◌+◌, Option, none, some, List, [], ◌∷◌, Bool, true, false, not, ◌&&◌, ◌||◌, ◌==◌, ◌=s=◌, leb,
  ltb, if◌then◌else◌,
}
use revenue_degradation_reco.Prelude.Int.{ℤ, pos, sub_ℕ}
use revenue_degradation_reco.Prelude.Decimal.{Decimal, quantize}
use revenue_degradation_reco.Errors.{Result, ok, attempt_provider_conflict, guard, ◌>>◌}
use revenue_degradation_reco.Store.{FailurePrediction}
use revenue_degradation_reco.Execution.Models.{
  CommandStatus, pending, executing, succeeded, failed, expired, not_needed, ExecutionResultStatus,
  success, failure, timeout, PaymentOutcome, captured, payment_failed, unknown_in_flight,
  ExecutionAttempt, PaymentOutcomeObservation,
}
use revenue_degradation_reco.Attribution.Models.{
  TreatmentStatus, treated, execution_failed, untreated, ModelProvenance, empirical_production,
  synthetic_development, unknown, CounterfactualAttribution,
}

-- `word in text.lower()`, for an ASCII text.
abbrev pub lower_code : ℕ → ℕ
lower_code c = if leb b'A' c && leb c b'Z' then c + 32 else c

abbrev pub lower_starts : String → String → Bool
lower_starts String.[] text = true
lower_starts (String.◌∷◌ w ws) String.[] = false
lower_starts (String.◌∷◌ w ws) (String.◌∷◌ c s) = lower_code (code c) == code w && lower_starts ws s

abbrev pub lower_contains : String → String → Bool
lower_contains word String.[] = lower_starts word String.[]
lower_contains word (String.◌∷◌ c s) = lower_starts word (String.◌∷◌ c s) || lower_contains word s

-- VERIFIED_EMPIRICAL_MODELS, which has no entry.
abbrev pub ModelKey : Type 0
ModelKey = String × String

abbrev pub verified_empirical_models : List ModelKey
verified_empirical_models = []

abbrev pub is_verified : List ModelKey → String → String → Bool
is_verified [] name version = false
is_verified ((n, v) ∷ rest) name version =
    (n =s= name && v =s= version) || is_verified rest name version

unfoldable pub classify_model_provenance : String → String → ModelProvenance
classify_model_provenance name version =
    if name =s= "DeterministicBaselineModel" || lower_contains "synthetic" name
    then synthetic_development
    else if is_verified verified_empirical_models name version
    then empirical_production
    else unknown

-- The texts that the observations table holds.
abbrev pub outcome_value : PaymentOutcome → String
outcome_value captured = "CAPTURED"
outcome_value payment_failed = "FAILED"
outcome_value unknown_in_flight = "UNKNOWN_IN_FLIGHT"

abbrev pub is_success : ExecutionResultStatus → Bool
is_success success = true
is_success failure = false
is_success timeout = false

-- `command_status in ("NOT_NEEDED", "EXPIRED", "PENDING")`
abbrev pub is_undispatched : CommandStatus → Bool
is_undispatched not_needed = true
is_undispatched expired = true
is_undispatched pending = true
is_undispatched executing = false
is_undispatched succeeded = false
is_undispatched failed = false

-- The terminal event of an observation, if it has one.
abbrev pub observed_at_time : Option PaymentOutcomeObservation → Option ℕ
observed_at_time none = none
observed_at_time (some o) = o.terminal_event_timestamp

abbrev pub precedes : Option ℕ → ℕ → Bool
precedes none completed = false
precedes (some t) completed = ltb t completed

-- Step 5.
unfoldable pub treatment_of :
    Bool
    → CommandStatus
    → Option ExecutionAttempt
    → Option PaymentOutcomeObservation
    → TreatmentStatus
treatment_of acted status none observation = untreated
treatment_of acted status (some attempt) observation =
    if not acted || is_undispatched status
    then untreated
    else if not (is_success attempt.execution_status)
    then execution_failed
    else if precedes (observed_at_time observation) attempt.completed_at
    then untreated
    else treated

-- Step 6.
unfoldable pub observed_outcome : Option PaymentOutcomeObservation → String
observed_outcome none = "UNKNOWN_IN_FLIGHT"
observed_outcome (some o) = outcome_value o.payment_outcome

-- Step 8, in microseconds.
abbrev pub delta_of : Option ℕ → ℕ → Option ℤ
delta_of none completed = none
delta_of (some t) completed = some (sub_ℕ t completed)

unfoldable pub timing_delta : Option ExecutionAttempt → Option PaymentOutcomeObservation → Option ℤ
timing_delta none observation = none
timing_delta (some attempt) observation =
    delta_of (observed_at_time observation) attempt.completed_at

abbrev pub attempt_provider : Option ExecutionAttempt → List String
attempt_provider none = []
attempt_provider (some a) = a.source_system ∷ []

abbrev pub observation_provider : Option PaymentOutcomeObservation → List String
observation_provider none = []
observation_provider (some o) = o.source_system ∷ []

-- Every upstream record has the provider of the command.
unfoldable pub same_providers : String → List String → Result (Unit {0})
same_providers source [] = ok tt
same_providers source (p ∷ ps) =
    guard (p =s= source) attempt_provider_conflict >> same_providers source ps

unfoldable pub same_attempt : String → Option PaymentOutcomeObservation → Bool
same_attempt key none = true
same_attempt key (some o) = o.payment_attempt_id =s= key

abbrev pub or_zero : Option ℤ → ℤ
or_zero none = pos 0
or_zero (some n) = n

abbrev pub next_version : Option CounterfactualAttribution → ℕ
next_version none = 1
next_version (some a) = a.attribution_version + 1

abbrev pub is_simulated : Option ExecutionAttempt → Bool
is_simulated none = true
is_simulated (some a) = a.is_simulation

abbrev pub smaller : ℕ → ℕ → ℕ
smaller a b = if ltb b a then b else a

-- `uuid5` on a command and a version, and `Decimal(str(x))`.
pub record AttributionNames (W : Type 0) : Type 0 where
  pub make_attribution_id : ℕ → ℕ → ℕ
  pub decimal_of : W → Decimal

-- Step 7: what the prediction says.
pub record PredictionEvidence : Type 0 where
  pub provenance : ModelProvenance
  pub prediction_status : String
  pub p0 : Option Decimal
  pub is_synthetic : Bool

abbrev pub is_not_empirical : ModelProvenance → Bool
is_not_empirical empirical_production = false
is_not_empirical synthetic_development = true
is_not_empirical unknown = true

module _ {W : Type 0} where
  abbrev pub risk_of : AttributionNames W → Option W → Option Decimal
  risk_of names none = none
  risk_of names (some x) = some (quantize 4 (names.decimal_of x))

  unfoldable pub prediction_evidence :
      AttributionNames W → Option (FailurePrediction W) → PredictionEvidence
  prediction_evidence names none = record {
    provenance = unknown;
    prediction_status = "NOT_ELIGIBLE";
    p0 = none;
    is_synthetic = true;
  }
  prediction_evidence names (some p) = record {
    provenance = classify_model_provenance p.model_name p.model_version;
    prediction_status = p.prediction_status;
    p0 = risk_of names p.failure_probability;
    is_synthetic = is_not_empirical (classify_model_provenance p.model_name p.model_version);
  }

  abbrev pub prediction_provider : Option (FailurePrediction W) → List String
  prediction_provider none = []
  prediction_provider (some p) = p.source_system ∷ []

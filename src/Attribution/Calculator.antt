-- ===== src/Attribution/Calculator.antt =====
-- src/core/attribution/calculator.py: the risk-weighted attribution of one payment.
pub mod Bounds
pub mod Gates
pub mod Unknown
pub mod Exact
use Prim.Native.String.{String}
use Prim.Native.Char.{code}
use revenue_degradation_reco.Prelude.{
  ℕ, ◌-◌, Option, none, some, Bool, true, false, not, ◌&&◌, ◌||◌, leb, ◌==◌, if◌then◌else◌,
}
use revenue_degradation_reco.Prelude.Int.{ℤ, pos, ◌-ℤ◌, leb_ℤ, ltb_ℤ, min_ℤ, max_ℤ}
use revenue_degradation_reco.Prelude.Decimal.{
  Decimal, times, quantize, rounded, ten_thousandths, of_int,
}
use revenue_degradation_reco.Prelude.Texts.{is_empty}
use revenue_degradation_reco.Attribution.Models.{
  AttributionStatus, attributed, unattributed_payment_failed, unattributed_execution_failed,
  unattributed_untreated, unresolved_in_flight, indeterminate_insufficient_evidence,
  TreatmentStatus, treated, execution_failed, untreated, ModelProvenance, empirical_production,
  synthetic_development, unknown,
}

-- `text.upper() == word`, for an ASCII text.
abbrev pub upper_code : ℕ → ℕ
upper_code c = if leb b'a' c && leb c b'z' then c - 32 else c

abbrev pub upper_is : String → String → Bool
upper_is String.[] String.[] = true
upper_is String.[] (String.◌∷◌ d t) = false
upper_is (String.◌∷◌ c s) String.[] = false
upper_is (String.◌∷◌ c s) (String.◌∷◌ d t) = upper_code (code c) == code d && upper_is s t

-- PROVENANCE_WEIGHTS and DIAGNOSIS_WEIGHTS, in ten-thousandths.
abbrev pub provenance_weight : ModelProvenance → ℕ
provenance_weight empirical_production = 10_000
provenance_weight synthetic_development = 6_000
provenance_weight unknown = 3_000

-- `(diagnosis_confidence or "NONE").upper()`, looked up.
unfoldable pub diagnosis_weight : Option String → ℕ
diagnosis_weight none = 6_000
diagnosis_weight (some d) =
    if upper_is d "STRONG"
    then 10_000
    else if upper_is d "MODERATE"
    then 8_500
    else if upper_is d "WEAK"
    then 7_000
    else 6_000

-- The delta in microseconds.
unfoldable pub compute_timing_confidence : Option ℤ → ℕ
compute_timing_confidence none = 6_000
compute_timing_confidence (some delta) =
    if leb_ℤ delta (pos 60_000_000)
    then 10_000
    else if leb_ℤ delta (pos 300_000_000)
    then 8_500
    else 6_000

abbrev pub confidence_floor : ℕ
confidence_floor = 2_500

pub record AttributionCalculationResult : Type 0 where
  pub attribution_status : AttributionStatus
  pub counterfactual_loss_exposure_minor_units : ℤ
  pub counterfactual_natural_success_gmv_minor_units : ℤ
  pub attributed_protected_gmv_minor_units : ℤ
  pub attribution_confidence : Decimal

-- A result without money.
abbrev pub nothing : AttributionStatus → Decimal → AttributionCalculationResult
nothing status confidence = record {
  attribution_status = status;
  counterfactual_loss_exposure_minor_units = pos 0;
  counterfactual_natural_success_gmv_minor_units = pos 0;
  attributed_protected_gmv_minor_units = pos 0;
  attribution_confidence = confidence;
}

abbrev pub is_captured : String → Bool
is_captured outcome = upper_is outcome "CAPTURED" || upper_is outcome "PAYMENT.CAPTURED"

abbrev pub is_in_flight : String → Bool
is_in_flight outcome = upper_is outcome "UNKNOWN_IN_FLIGHT" || upper_is outcome "IN_FLIGHT"

-- Steps 4 and 5: the two quantized products.
unfoldable pub prediction_confidence : ModelProvenance → Bool → Decimal
prediction_confidence provenance predicted = quantize 4 (
    times (ten_thousandths (provenance_weight provenance))
      (ten_thousandths (if predicted then 10_000 else 0)))

unfoldable pub alpha_confidence : ModelProvenance → Bool → Option String → Option ℤ → Decimal
unfolding prediction_confidence
alpha_confidence provenance predicted diagnosis delta = quantize 4 (
    times
      (times (prediction_confidence provenance predicted)
        (ten_thousandths (diagnosis_weight diagnosis)))
      (ten_thousandths (compute_timing_confidence delta)))

-- Step 7, with the clamps.
unfoldable pub loss_exposure : ℤ → Decimal → ℤ
loss_exposure amount p0 =
    max_ℤ (pos 0) (min_ℤ (rounded (times (of_int amount) (quantize 4 p0))) amount)

unfoldable pub natural_success : ℤ → Decimal → ℤ
unfolding loss_exposure
natural_success amount p0 = max_ℤ (pos 0) (amount -ℤ loss_exposure amount p0)

unfoldable pub protected_gmv : ℤ → Decimal → Decimal → ℤ
unfolding loss_exposure
protected_gmv amount p0 alpha = max_ℤ (pos 0) (
    min_ℤ
      (min_ℤ (rounded (times (times (of_int amount) (quantize 4 p0)) alpha))
        (loss_exposure amount p0))
      amount)

-- `alpha_confidence < CONFIDENCE_FLOOR`, both of four places.
abbrev pub below_floor : Decimal → Bool
below_floor alpha = ltb_ℤ alpha.coefficient (pos confidence_floor)

abbrev pub risk_weighted : ℤ → Decimal → Decimal → AttributionCalculationResult
risk_weighted amount p0 alpha = record {
  attribution_status = attributed;
  counterfactual_loss_exposure_minor_units = loss_exposure amount p0;
  counterfactual_natural_success_gmv_minor_units = natural_success amount p0;
  attributed_protected_gmv_minor_units = protected_gmv amount p0 alpha;
  attribution_confidence = alpha;
}

-- Steps 4 to 7.
unfoldable pub weigh :
    ℤ
    → Option Decimal
    → ModelProvenance
    → Bool
    → Option String
    → Option ℤ
    → AttributionCalculationResult
weigh amount none provenance predicted diagnosis delta =
    nothing indeterminate_insufficient_evidence (ten_thousandths 0)
weigh amount (some p0) provenance predicted diagnosis delta =
    if not predicted
    then nothing indeterminate_insufficient_evidence (ten_thousandths 0)
    else let alpha = alpha_confidence provenance predicted diagnosis delta in
      if below_floor alpha
      then nothing indeterminate_insufficient_evidence alpha
      else risk_weighted amount p0 alpha

unfoldable pub treatment_gate :
    TreatmentStatus → AttributionCalculationResult → AttributionCalculationResult
treatment_gate untreated rest = nothing unattributed_untreated (ten_thousandths 0)
treatment_gate execution_failed rest = nothing unattributed_execution_failed (ten_thousandths 0)
treatment_gate treated rest = rest

unfoldable pub calculate_attribution :
    ℤ
    → Option Decimal
    → TreatmentStatus
    → String
    → ModelProvenance
    → String
    → Option String
    → Option ℤ
    → AttributionCalculationResult
calculate_attribution amount p0 treatment outcome provenance prediction_status diagnosis delta =
    if is_in_flight outcome
    then nothing unresolved_in_flight (ten_thousandths 0)
    else treatment_gate treatment (
        if not (is_captured outcome)
        then nothing unattributed_payment_failed (ten_thousandths 0)
        else weigh amount p0 provenance (upper_is prediction_status "PREDICTED") diagnosis delta)

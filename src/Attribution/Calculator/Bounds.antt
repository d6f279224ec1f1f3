-- ===== src/Attribution/Calculator/Bounds.antt =====
-- Bounds of the attributed money, and when money is attributed at all.
use revenue_degradation_reco.Prelude.{
  ◌≡◌, Option, none, some, Bool, true, false, not, if◌then◌else◌, arith, Bool-cases, inl, inr,
  String,
}
use revenue_degradation_reco.Prelude.Int.{ℤ, pos, ◌≤ℤ◌, ◌+ℤ◌, ◌-ℤ◌, max_ℤ, min_ℤ}
use revenue_degradation_reco.Prelude.Decimal.{
  Decimal, ten_thousandths, times, quantize, rounded, of_int,
}
use revenue_degradation_reco.Attribution.Models.{
  AttributionStatus, attributed, unattributed_payment_failed, unattributed_execution_failed,
  unattributed_untreated, unresolved_in_flight, indeterminate_insufficient_evidence,
  TreatmentStatus, treated, execution_failed, untreated, ModelProvenance,
}
use revenue_degradation_reco.Attribution.Calculator.{
  upper_is, is_captured, is_in_flight, AttributionCalculationResult, calculate_attribution, weigh,
  treatment_gate, nothing, risk_weighted, alpha_confidence, below_floor, loss_exposure,
  natural_success, protected_gmv,
}

-- What a result promises of the money.
pub record Sound (amount : ℤ) (r : AttributionCalculationResult) : Type 0 where
  pub protected_ge : pos 0 ≤ℤ r.attributed_protected_gmv_minor_units
  pub protected_le :
      r.attributed_protected_gmv_minor_units ≤ℤ r.counterfactual_loss_exposure_minor_units
  pub loss_le : r.counterfactual_loss_exposure_minor_units ≤ℤ max_ℤ (pos 0) amount
  pub sum :
      r.attribution_status ≡ attributed
      → r.counterfactual_loss_exposure_minor_units
          +ℤ r.counterfactual_natural_success_gmv_minor_units
        ≡ max_ℤ (pos 0) amount

nothing-Sound :
    (amount : ℤ) (s : AttributionStatus) (c : Decimal)
    → (s ≡ attributed → ⊥)
    → Sound amount (nothing s c)
nothing-Sound amount s c n = record {
  protected_ge = ground arith;
  protected_le = ground arith;
  loss_le = ground arith;
  sum = λ e. absurd (n e);
}

clamp_ge : (x : ℤ) → pos 0 ≤ℤ max_ℤ (pos 0) x
clamp_ge x = ground arith

clamp_protected :
    (raw loss amount : ℤ) → pos 0 ≤ℤ loss → max_ℤ (pos 0) (min_ℤ (min_ℤ raw loss) amount) ≤ℤ loss
clamp_protected raw loss amount h = ground arith

clamp_loss : (raw amount : ℤ) → max_ℤ (pos 0) (min_ℤ raw amount) ≤ℤ max_ℤ (pos 0) amount
clamp_loss raw amount = ground arith

clamp_sum :
    (loss amount : ℤ)
    → pos 0 ≤ℤ loss
    → loss ≤ℤ max_ℤ (pos 0) amount
    → loss +ℤ max_ℤ (pos 0) (amount -ℤ loss) ≡ max_ℤ (pos 0) amount
unfolding ◌+ℤ◌ ◌-ℤ◌
clamp_sum loss amount h k = ground arith

risk_weighted-Sound :
    (amount : ℤ) (p0 alpha : Decimal) → Sound amount (risk_weighted amount p0 alpha)
unfolding loss_exposure natural_success protected_gmv
risk_weighted-Sound amount p0 alpha =
    let raw = min_ℤ (rounded (times (of_int amount) (quantize 4 p0))) amount in
    let credit = rounded (times (times (of_int amount) (quantize 4 p0)) alpha) in
    let loss = loss_exposure amount p0 in
    record {
      protected_ge = clamp_ge (min_ℤ (min_ℤ credit loss) amount);
      protected_le = clamp_protected credit loss amount (clamp_ge raw);
      loss_le = clamp_loss (rounded (times (of_int amount) (quantize 4 p0))) amount;
      sum = λ _.
          clamp_sum loss amount (clamp_ge raw)
            (clamp_loss (rounded (times (of_int amount) (quantize 4 p0))) amount);
    }

weigh-Sound :
    (amount : ℤ) (p0 : Option Decimal) (provenance : ModelProvenance) (predicted : Bool)
    (diagnosis : Option String) (delta : Option ℤ)
    → Sound amount (weigh amount p0 provenance predicted diagnosis delta)
unfolding weigh
weigh-Sound amount none provenance predicted diagnosis delta =
    nothing-Sound amount _ _ (λ e. ground arith)
weigh-Sound amount (some p0) provenance false diagnosis delta =
    nothing-Sound amount _ _ (λ e. ground arith)
weigh-Sound amount (some p0) provenance true diagnosis delta =
    let alpha = alpha_confidence provenance true diagnosis delta in
    elim (Bool-cases (below_floor alpha)) [
      | inl low ↦
          rw low
            (nothing-Sound amount indeterminate_insufficient_evidence alpha (λ e. ground arith))
      | inr high ↦ rw high (risk_weighted-Sound amount p0 alpha)
    ]

-- Whatever the evidence, the money of a result satisfies 0 <= protected <= loss exposure <= max(0,
-- amount), and if it is ATTRIBUTED, loss exposure and natural success add up to max(0, amount).
pub calculate_attribution-Sound :
    (amount : ℤ) (p0 : Option Decimal) (treatment : TreatmentStatus) (outcome : String)
    (provenance : ModelProvenance) (prediction_status : String) (diagnosis : Option String)
    (delta : Option ℤ)
    → Sound amount (
        calculate_attribution amount p0 treatment outcome provenance prediction_status diagnosis
          delta)
unfolding calculate_attribution treatment_gate
calculate_attribution-Sound amount p0 treatment outcome provenance prediction_status diagnosis
      delta =
    elim (Bool-cases (is_in_flight outcome)) [
      | inl flying ↦
          rw flying
            (nothing-Sound amount unresolved_in_flight (ten_thousandths 0) (λ e. ground arith))
      | inr landed ↦ rw landed (gate treatment)
    ]
  where
    gate :
        (t : TreatmentStatus)
        → Sound amount (
            treatment_gate t (
              if not (is_captured outcome)
              then nothing unattributed_payment_failed (ten_thousandths 0)
              else weigh amount p0 provenance
                  (upper_is prediction_status "PREDICTED")
                  diagnosis
                  delta))
    gate untreated =
        nothing-Sound amount unattributed_untreated (ten_thousandths 0) (λ e. ground arith)
    gate execution_failed =
        nothing-Sound amount unattributed_execution_failed (ten_thousandths 0) (λ e. ground arith)
    gate treated = elim (Bool-cases (is_captured outcome)) [
      | inl paid ↦ rw paid (
          weigh-Sound amount p0 provenance (upper_is prediction_status "PREDICTED") diagnosis delta)
      | inr unpaid ↦
          rw unpaid (
            nothing-Sound amount unattributed_payment_failed (ten_thousandths 0)
              (λ e. ground arith))
    ]

-- ===== src/Attribution/Calculator/Gates.antt =====
-- When money is attributed (src/core/attribution/calculator.py).
use revenue_degradation_reco.Prelude.{
  ◌≡◌, refl, ◌↔◌, Option, none, some, true, false, arith, Bool-cases, inl, inr, String,
}
use revenue_degradation_reco.Prelude.Int.{ℤ}
use revenue_degradation_reco.Prelude.Decimal.{Decimal}
use revenue_degradation_reco.Attribution.Models.{
  attributed, TreatmentStatus, treated, execution_failed, untreated, ModelProvenance,
}
use revenue_degradation_reco.Attribution.Calculator.{
  upper_is, is_captured, is_in_flight, calculate_attribution, weigh, treatment_gate,
  alpha_confidence, below_floor,
}

-- All that an attribution asks for.
pub record Evidence (p0 : Option Decimal) (treatment : TreatmentStatus) (outcome : String)
    (provenance : ModelProvenance) (prediction_status : String) (diagnosis : Option String)
    (delta : Option ℤ) : Type 0 where
  pub landed : is_in_flight outcome ≡ false
  pub is_treated : treatment ≡ treated
  pub captured : is_captured outcome ≡ true
  pub predicted : upper_is prediction_status "PREDICTED" ≡ true
  pub risk : Decimal
  pub has_risk : p0 ≡ some risk
  pub confident : below_floor (alpha_confidence provenance true diagnosis delta) ≡ false

-- A payment is ATTRIBUTED exactly when its outcome is a capture and not in flight, the treatment was
-- delivered, Stage 5 predicted a risk, and the confidence reaches the floor; it then gets the
-- risk-weighted amounts of that risk and confidence.
pub calculate_attribution-attributed :
    (amount : ℤ) (p0 : Option Decimal) (treatment : TreatmentStatus) (outcome : String)
    (provenance : ModelProvenance) (prediction_status : String) (diagnosis : Option String)
    (delta : Option ℤ)
    → ((calculate_attribution amount p0 treatment outcome provenance prediction_status diagnosis
          delta).attribution_status
        ≡ attributed)
      ↔ Evidence p0 treatment outcome provenance prediction_status diagnosis delta
unfolding calculate_attribution treatment_gate weigh
calculate_attribution-attributed amount p0 treatment outcome provenance prediction_status diagnosis
      delta =
    (to p0 treatment, from)
  where
    to :
        (p0 : Option Decimal) (treatment : TreatmentStatus)
        → (calculate_attribution amount p0 treatment outcome provenance prediction_status diagnosis
            delta).attribution_status
          ≡ attributed
        → Evidence p0 treatment outcome provenance prediction_status diagnosis delta
    to p0 untreated h = absurd (ground arith)
    to p0 execution_failed h = absurd (ground arith)
    to none treated h = absurd (ground arith)
    to (some q) treated h =
        let landed : is_in_flight outcome ≡ false = ground arith in
        let captured : is_captured outcome ≡ true = ground arith in
        let predicted : upper_is prediction_status "PREDICTED" ≡ true = ground arith in
        record {
          landed = landed;
          is_treated = refl;
          captured = captured;
          predicted = predicted;
          risk = q;
          has_risk = refl;
          confident =
              elim (Bool-cases (below_floor (alpha_confidence provenance true diagnosis delta))) [
                | inl low ↦ absurd (ground (arith, (rw (landed, captured, predicted, low) at h)))
                | inr high ↦ high
              ];
        }

    from :
        Evidence p0 treatment outcome provenance prediction_status diagnosis delta
        → (calculate_attribution amount p0 treatment outcome provenance prediction_status diagnosis
            delta).attribution_status
          ≡ attributed
    from e = rw (e.landed, e.is_treated, e.captured, e.has_risk, e.predicted, e.confident) refl

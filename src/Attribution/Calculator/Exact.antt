-- ===== src/Attribution/Calculator/Exact.antt =====
-- How much money is attributed (src/core/attribution/calculator.py), to the unit.
use revenue_degradation_reco.Prelude.{ℕ, ◌*◌, ◌-◌, ◌≤◌, ◌≡◌, refl, ap, ◌∙◌, arith}
use native.Mathlib.Nat.{mul-one, mul-le-mul_left}
use revenue_degradation_reco.Prelude.Int.{pos, ◌-ℤ◌, ◌*ℤ◌, max_ℤ, min_ℤ}
use revenue_degradation_reco.Prelude.Decimal.{
  round_half_even, round_bounded, round_shrinks, ten_thousandths, times, quantize, rounded, of_int,
}
use revenue_degradation_reco.Attribution.Calculator.{
  risk_weighted, loss_exposure, natural_success, protected_gmv,
}

pos_times : (a b : ℕ) → pos a *ℤ pos b ≡ pos (a * b)
unfolding ◌*ℤ◌
pos_times a b = ground arith

quantized : (k : ℕ) → quantize 4 (ten_thousandths k) ≡ ten_thousandths k
quantized k = rw (pos_times k 1, mul-one k) refl

raw_loss :
    (a k : ℕ)
    → rounded (times (of_int (pos a)) (quantize 4 (ten_thousandths k)))
      ≡ pos (round_half_even (a * k) 10_000)
raw_loss a k = ap (λ q. rounded (times (of_int (pos a)) q)) (quantized k) ∙ rw (pos_times a k) refl

raw_credit :
    (a k alpha : ℕ)
    → rounded
        (times (times (of_int (pos a)) (quantize 4 (ten_thousandths k))) (ten_thousandths alpha))
      ≡ pos (round_half_even (a * k * alpha) 100_000_000)
raw_credit a k alpha =
    ap (λ q. rounded (times (times (of_int (pos a)) q) (ten_thousandths alpha))) (quantized k)
    ∙ rw (pos_times a k, pos_times (a * k) alpha) refl

-- The clamps on what is within its bounds.
clamp_idle :
    (loss credit a : ℕ)
    → loss ≤ a
    → credit ≤ loss
    → (max_ℤ (pos 0) (min_ℤ (pos loss) (pos a)) ≡ pos loss)
      × (max_ℤ (pos 0) (min_ℤ (min_ℤ (pos credit) (pos loss)) (pos a)) ≡ pos credit)
      × (max_ℤ (pos 0) (pos a -ℤ pos loss) ≡ pos (a - loss))
unfolding ◌-ℤ◌
clamp_idle loss credit a h k = (ground arith, ground arith, ground arith)

-- For an amount that is not negative and a risk of at most 1, the clamps never bind: loss exposure and
-- protected money are the products of the amount, the risk and the confidence, each rounded half to
-- even once, and natural success is the rest of the amount.
pub risk_weighted_exact :
    (a k alpha : ℕ)
    → k ≤ 10_000
    → alpha ≤ 10_000
    → let r = risk_weighted (pos a) (ten_thousandths k) (ten_thousandths alpha) in
      (r.counterfactual_loss_exposure_minor_units ≡ pos (round_half_even (a * k) 10_000))
      × (r.attributed_protected_gmv_minor_units ≡ pos (round_half_even (a * k * alpha) 100_000_000))
      × (r.counterfactual_natural_success_gmv_minor_units
          ≡ pos (a - round_half_even (a * k) 10_000))
unfolding loss_exposure natural_success protected_gmv
risk_weighted_exact a k alpha hk ha =
    let below_amount = round_bounded (a * k) a (mul-le-mul_left a hk) in
    let below_loss = round_shrinks (a * k) (a * k * alpha) (mul-le-mul_left (a * k) ha) in
    let (loss, credit, rest) =
      clamp_idle (round_half_even (a * k) 10_000) (round_half_even (a * k * alpha) 100_000_000) a
        below_amount below_loss in
    let own : loss_exposure (pos a) (ten_thousandths k) ≡ pos (round_half_even (a * k) 10_000) =
      ap (λ x. max_ℤ (pos 0) (min_ℤ x (pos a))) (raw_loss a k) ∙ loss in
    (
      own,
      ap (λ x. max_ℤ (pos 0) (min_ℤ (min_ℤ x (loss_exposure (pos a) (ten_thousandths k))) (pos a)))
            (raw_credit a k alpha)
          ∙ ap
              (λ x.
                max_ℤ (pos 0)
                  (min_ℤ (min_ℤ (pos (round_half_even (a * k * alpha) 100_000_000)) x) (pos a)))
              own
          ∙ credit,
      ap (λ x. max_ℤ (pos 0) (pos a -ℤ x)) own ∙ rest,
    )

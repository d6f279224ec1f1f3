-- ===== src/Rca/Calculator.antt =====
-- src/core/rca/calculator.py. W is the type of Python's floats; the audit payloads are left out.
pub mod Starts
use revenue_degradation_reco.Prelude.{
  ℕ, zero, suc, ◌+◌, ◌-◌, ◌*◌, ◌/◌, String, Option, none, some, List, [], ◌∷◌, ◌++◌, Bool, true,
  false, not, ◌&&◌, ◌||◌, ◌==◌, ◌=s=◌, leb, ltb, if◌then◌else◌,
}
use revenue_degradation_reco.Prelude.Float.{Float}
use revenue_degradation_reco.Errors.{Result, ok, err, value_error}
use revenue_degradation_reco.Degradation.Models.{EpisodeStatus, active, recovered, invalidated}
use revenue_degradation_reco.Rca.Models.{
  EvidenceStrength, strong, moderate, weak, historical_weeks_back, min_failures_for_rca_evaluation,
  strong_failure_count_multiplier,
}
use revenue_degradation_reco.Analytics.Repository.{a_week, is_one_of}

abbrev pub window_length : ℕ
window_length = 5 * 60_000_000

-- The window that the status asks for.
unfoldable pub compute_analysis_window : ℕ → Option ℕ → Option ℕ → EpisodeStatus → Result (ℕ × ℕ)
compute_analysis_window started ended latest_bad recovered = elim ended [
  | none ↦ err value_error
  | some t ↦ ok (started, t)
]
compute_analysis_window started ended latest_bad active = elim latest_bad [
  | none ↦ err value_error
  | some t ↦ ok (started, t + window_length)
]
compute_analysis_window started ended latest_bad invalidated = ok (started, started + window_length)

-- `[current - timedelta(weeks=i) for i in range(i, ...)]`, n of them.
abbrev pub weeks_from : ℕ → ℕ → ℕ → List ℕ
weeks_from current i zero = []
weeks_from current i (suc n) = (current - i * a_week) ∷ weeks_from current (suc i) n

-- `while current < end`, on fuel.
unfoldable pub historical_window_starts : ℕ → ℕ → ℕ → ℕ → List (ℕ × List ℕ)
historical_window_starts zero current analysis_end weeks_back = []
historical_window_starts (suc fuel) current analysis_end weeks_back =
    let rest = historical_window_starts fuel (current + window_length) analysis_end weeks_back in
    if ltb current analysis_end then (current, weeks_from current 1 weeks_back) ∷ rest else []

-- As many windows as fit, and one more.
abbrev pub get_historical_window_starts : ℕ → ℕ → ℕ → List (ℕ × List ℕ)
get_historical_window_starts analysis_start analysis_end weeks_back =
    historical_window_starts (suc ((analysis_end - analysis_start) / window_length)) analysis_start
      analysis_end weeks_back

-- Those not seen before.
abbrev pub add_unseen : List ℕ → List ℕ → List ℕ
add_unseen seen [] = seen
add_unseen seen (s ∷ starts) = add_unseen (if is_one_of s seen then seen else seen ++ s ∷ []) starts

abbrev pub add_slots : List ℕ → List (ℕ × List ℕ) → List ℕ
add_slots seen [] = seen
add_slots seen ((slot, starts) ∷ slots) = add_slots (add_unseen seen starts) slots

unfoldable pub get_all_historical_starts : ℕ → ℕ → ℕ → List ℕ
get_all_historical_starts analysis_start analysis_end weeks_back =
    add_slots [] (get_historical_window_starts analysis_start analysis_end weeks_back)

abbrev pub sum : List ℕ → ℕ
sum [] = 0
sum (n ∷ ns) = n + sum ns

module _ {W : Type 0} ⦃f : Float W⦄ where
  unfoldable pub compute_volume_weighted_failure_rate : List ℕ → List ℕ → Option W
  compute_volume_weighted_failure_rate failures transactions =
      if sum transactions == 0 then none else some (f.lit (sum failures) (sum transactions))

  -- The expected and the excess failures of a segment.
  unfoldable pub compute_candidate_metrics : ℕ → ℕ → W → W × W
  compute_candidate_metrics transactions failures rate =
      let expected = f.mul (f.lit transactions 1) rate in
      (expected, f.sub (f.lit failures 1) expected)

  -- `max(0.0, x)`
  abbrev pub at_least_zero : W → W
  at_least_zero x = if f.lt (f.lit 0 1) x then x else f.lit 0 1

  unfoldable pub compute_episode_total_excess_failures : ℕ → W → W
  compute_episode_total_excess_failures actual expected =
      at_least_zero (f.sub (f.lit actual 1) expected)

  unfoldable pub compute_excess_failure_contribution : W → W → Option W
  compute_excess_failure_contribution excess total =
      if f.le total (f.lit 0 1) then none else some (f.div excess total)

  unfoldable pub assign_evidence_strength : W → ℕ → EvidenceStrength
  assign_evidence_strength contribution failures =
      if f.le (f.lit 70 100) contribution
        && leb (strong_failure_count_multiplier * min_failures_for_rca_evaluation) failures
      then strong
      else if f.le (f.lit 40 100) contribution
      then moderate
      else weak

-- ===== src/Rca/Calculator/Starts.antt =====
-- The loop over the windows of an analysis (src/core/rca/calculator.py) ends, and visits each of them.
use revenue_degradation_reco.Prelude.{
  ℕ, zero, suc, ◌+◌, ◌-◌, ◌*◌, ◌/◌, ◌≤◌, ◌≡◌, refl, ap, ◌∙◌, Option, none, some, List, true, inl,
  inr, arith, Bool-cases, if◌then◌else◌, ltb, get_elem?,
}
use revenue_degradation_reco.Rca.Calculator.{
  window_length, weeks_from, historical_window_starts, get_historical_window_starts,
}

-- The k-th window from an instant, with its anchors in the weeks before, if it starts before the end.
abbrev pub slot : ℕ → ℕ → ℕ → ℕ → Option (ℕ × List ℕ)
slot current analysis_end weeks_back k =
    let t = current + k * window_length in
    if ltb t analysis_end then some (t, weeks_from t 1 weeks_back) else none

slot_past :
    (current analysis_end weeks_back k : ℕ)
    → analysis_end ≤ current
    → none ≡ slot current analysis_end weeks_back k
slot_past current analysis_end weeks_back k h = ground arith

slot_here :
    (current analysis_end weeks_back : ℕ)
    → ltb current analysis_end ≡ true
    → some (current, weeks_from current 1 weeks_back) ≡ slot current analysis_end weeks_back 0
slot_here current analysis_end weeks_back h =
    let open_at : some (current, weeks_from current 1 weeks_back) ≡ (
        if ltb current analysis_end
        then some (current, weeks_from current 1 weeks_back)
        else none) =
      rw h refl in
    let same : current ≡ current + 0 * window_length = omega arith in
    open_at
    ∙ ap (λ t. if ltb t analysis_end then some (t, weeks_from t 1 weeks_back) else none) same

slot-suc :
    (current analysis_end weeks_back k : ℕ)
    → slot (current + window_length) analysis_end weeks_back k
      ≡ slot current analysis_end weeks_back (suc k)
slot-suc current analysis_end weeks_back k =
    let same : current + window_length + k * window_length ≡ current + suc k * window_length =
      omega arith in
    ap (λ t. if ltb t analysis_end then some (t, weeks_from t 1 weeks_back) else none) same

starts_slot :
    (fuel current analysis_end weeks_back k : ℕ)
    → analysis_end ≤ current + fuel * window_length
    → get_elem? (historical_window_starts fuel current analysis_end weeks_back) k
      ≡ slot current analysis_end weeks_back k
unfolding historical_window_starts
starts_slot zero current analysis_end weeks_back k enough =
    slot_past current analysis_end weeks_back k (omega arith)
starts_slot (suc fuel) current analysis_end weeks_back zero enough =
    elim (Bool-cases (ltb current analysis_end)) [
      | inl here ↦ rw here (slot_here current analysis_end weeks_back here)
      | inr past ↦ rw past (slot_past current analysis_end weeks_back zero (ground arith))
    ]
starts_slot (suc fuel) current analysis_end weeks_back (suc k) enough =
    elim (Bool-cases (ltb current analysis_end)) [
      | inl here ↦ rw here (
          starts_slot fuel (current + window_length) analysis_end weeks_back k (omega arith)
          ∙ slot-suc current analysis_end weeks_back k)
      | inr past ↦ rw past (slot_past current analysis_end weeks_back (suc k) (ground arith))
    ]

-- With more fuel than the windows that fit, the loop ends by its own test: its k-th entry is the k-th window
-- of five minutes from the start with the same instants of the weeks before it, while that window starts
-- before the end, and there is none after.
pub get_historical_window_starts-slot :
    (analysis_start analysis_end weeks_back k : ℕ)
    → get_elem? (get_historical_window_starts analysis_start analysis_end weeks_back) k
      ≡ slot analysis_start analysis_end weeks_back k
get_historical_window_starts-slot analysis_start analysis_end weeks_back k =
    starts_slot (suc ((analysis_end - analysis_start) / window_length)) analysis_start analysis_end
      weeks_back k (omega arith)

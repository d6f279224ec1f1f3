-- ===== src/Rca/Segments.antt =====
-- src/core/rca/service.py: the measurement of the segments of an episode, and the supporting evidence.
use revenue_degradation_reco.Prelude.{
  ℕ, ◌+◌, String, Option, none, some, List, [], ◌∷◌, ◌++◌, map, Bool, true, false, not, ◌&&◌, ◌||◌,
  ◌==◌, ◌=s=◌, leb, ltb, if◌then◌else◌, select, count_if, length,
}
use revenue_degradation_reco.Prelude.Float.{Float}
use revenue_degradation_reco.Events.{PaymentEvent}
use revenue_degradation_reco.Degradation.Models.{PaymentHealthSnapshot}
use revenue_degradation_reco.Execution.Repository.Events.{not_excluded}
use revenue_degradation_reco.Analytics.Calculator.{attribute, is_captured, is_failed}
use revenue_degradation_reco.Analytics.Repository.{snapshot_at}
use revenue_degradation_reco.Rca.Models.{min_baseline_volume, min_valid_historical_windows}
use revenue_degradation_reco.Rca.Calculator.{
  window_length, sum, compute_volume_weighted_failure_rate, compute_candidate_metrics,
}
use revenue_degradation_reco.Rca.Ranking.{HistTuple, StructuralResult, text_lt}

-- The columns of the dimensions, by their names.
abbrev pub column : String → PaymentEvent → Option String
column field e =
    if field =s= "error_code"
    then e.error_code
    else if field =s= "error_step"
    then e.error_step
    else attribute field e

-- STRUCTURAL_DIMENSION_FIELD_MAP and SUPPORTING_DIMENSION_FIELD_MAP
abbrev pub structural_dimensions : List (String × String)
structural_dimensions =
    ("BANK", "bank")
    ∷ ("CURRENCY", "currency")
    ∷ ("PAYMENT_METHOD", "payment_method")
    ∷ ("WALLET", "wallet")
    ∷ []

abbrev pub supporting_dimensions : List (String × String)
supporting_dimensions =
    ("ERROR_CODE", "error_code")
    ∷ ("ERROR_SOURCE", "error_source")
    ∷ ("ERROR_STEP", "error_step")
    ∷ []

abbrev pub is_terminal : PaymentEvent → Bool
is_terminal e = is_captured e || is_failed e

abbrev pub has_value : String → String → PaymentEvent → Bool
has_value field value e = elim (column field e) [ none ↦ false | some v ↦ v =s= value ]

-- `sorted(set(...))`
abbrev pub add_value : String → List String → List String
add_value v [] = v ∷ []
add_value v (w ∷ ws) =
    let rest = add_value v ws in
    if v =s= w then w ∷ ws else if text_lt v w then v ∷ w ∷ ws else w ∷ rest

abbrev pub values_of : String → (PaymentEvent → Bool) → List PaymentEvent → List String
values_of field p [] = []
values_of field p (e ∷ events) =
    let rest = values_of field p events in
    if p e then elim (column field e) [ none ↦ rest | some v ↦ add_value v rest ] else rest

-- A window of five minutes from one of the starts, in the event store without PayPal.
abbrev pub in_hist_window : List ℕ → PaymentEvent → Bool
in_hist_window [] e = false
in_hist_window (s ∷ starts) e =
    (leb s e.timestamp && ltb e.timestamp (s + window_length)) || in_hist_window starts e

abbrev pub hist_failure : List ℕ → PaymentEvent → Bool
hist_failure starts e = in_hist_window starts e && (is_failed e && not_excluded e.source_system)

-- `_get_hist_events_for_dim`: failures and transactions of the value.
unfoldable pub hist_events_for_dim : List ℕ → String → String → List PaymentEvent → ℕ × ℕ
hist_events_for_dim starts field value events = (
  count_if (λ e. hist_failure starts e && has_value field value e) events,
  count_if
      (λ e.
        in_hist_window starts e
        && (is_terminal e && (has_value field value e && not_excluded e.source_system)))
      events,
)

-- `_get_hist_error_counts`: failures with the value, and all failures.
unfoldable pub hist_error_counts : List ℕ → String → String → List PaymentEvent → ℕ × ℕ
hist_error_counts starts field value events = (
  count_if (λ e. hist_failure starts e && has_value field value e) events,
  count_if (hist_failure starts) events,
)

abbrev pub is_some {ℓ} : {A : Type ℓ} → Option A → Bool
is_some none = false
is_some (some a) = true

module _ {W : Type 0} ⦃f : Float W⦄ where
  -- A count over a count, zero where there is nothing to divide by.
  abbrev pub share : ℕ → ℕ → W
  share part whole = if ltb 0 whole then f.lit part whole else f.lit 0 1

  abbrev pub has_volume : PaymentHealthSnapshot W → Bool
  has_volume s = not (s.insufficient_volume || ltb s.transaction_count min_baseline_volume)

  abbrev pub tuple_of : String → String → PaymentHealthSnapshot W → HistTuple
  tuple_of dimension value s = record {
    window_start = s.window_start;
    failures = s.failed_transaction_count;
    transactions = s.transaction_count;
    dimension = dimension;
    value = value;
  }

  abbrev pub failed_counts : List (PaymentHealthSnapshot W) → List ℕ
  failed_counts = map (λ s. s.failed_transaction_count)

  abbrev pub transaction_counts : List (PaymentHealthSnapshot W) → List ℕ
  transaction_counts = map (λ s. s.transaction_count)

  -- The rate of the windows with volume, where they are enough.
  unfoldable pub baseline_rate : List (PaymentHealthSnapshot W) → Option W
  baseline_rate valid =
      if leb min_valid_historical_windows (length valid)
      then compute_volume_weighted_failure_rate (failed_counts valid) (transaction_counts valid)
      else none

  abbrev pub metrics_by : ℕ → ℕ → Option W → W × W
  metrics_by transactions failures none = (f.lit 0 1, f.lit 0 1)
  metrics_by transactions failures (some rate) =
      compute_candidate_metrics transactions failures rate

  -- `_evaluate_structural_candidate`, on the rows of the table of snapshots.
  unfoldable pub evaluate_structural_candidate :
      List PaymentEvent
      → ℕ
      → ℕ
      → String
      → String
      → String
      → List ℕ
      → List (PaymentHealthSnapshot W)
      → StructuralResult W
  evaluate_structural_candidate events episode_transactions episode_failures dimension field value
        starts rows =
      let segment = select (λ e. has_value field value e && is_terminal e) events in
      let transactions = length segment in
      let failures = count_if is_failed segment in
      let valid = select has_volume (select (snapshot_at starts field value) rows) in
      let rate = baseline_rate valid in
      let (expected, excess) = metrics_by transactions failures rate in
      record {
        dimension = dimension;
        value = value;
        episode_segment_transaction_count = transactions;
        historical_segment_transaction_count = sum (transaction_counts valid);
        historical_segment_failures_total = sum (failed_counts valid);
        historical_segment_failure_rate = rate;
        expected_segment_failures = expected;
        actual_segment_failures = failures;
        excess_segment_failures = excess;
        traffic_share = share transactions episode_transactions;
        failure_share = share failures episode_failures;
        excess_failure_contribution = f.lit 0 1;
        evidence_strength = none;
        qualified_as_candidate = false;
        baseline_sufficient = is_some rate;
        hist_tuples = map (tuple_of dimension value) valid;
      }

  abbrev pub results_for :
      List PaymentEvent
      → ℕ
      → ℕ
      → String
      → String
      → List ℕ
      → List (PaymentHealthSnapshot W)
      → List String
      → List (StructuralResult W)
  results_for events transactions failures dimension field starts rows values =
      map
        (λ value.
          evaluate_structural_candidate events transactions failures dimension field value starts
            rows)
        values

  -- The loop over the structural dimensions and their values.
  unfoldable pub structural_results :
      List PaymentEvent
      → ℕ
      → ℕ
      → List ℕ
      → List (PaymentHealthSnapshot W)
      → List (String × String)
      → List (StructuralResult W)
  structural_results events transactions failures starts rows [] = []
  structural_results events transactions failures starts rows ((dimension, field) ∷ rest) =
      results_for events transactions failures dimension field starts rows
        (values_of field is_terminal events)
      ++ structural_results events transactions failures starts rows rest

-- A finding of `_evaluate_supporting_dimension`.
pub record SupportingEvidence (W : Type 0) : Type 0 where
  pub dimension : String
  pub value : String
  pub episode_error_frequency : W
  pub baseline_error_frequency : W
  pub error_deviation : W

module _ {W : Type 0} ⦃f : Float W⦄ where
  abbrev pub evidence_for :
      List PaymentEvent
      → ℕ
      → String
      → String
      → List ℕ
      → List PaymentEvent
      → String
      → SupportingEvidence W
  evidence_for failed episode_failures dimension field starts history value =
      let (errors, total) = hist_error_counts starts field value history in
      let frequency = f.lit (count_if (has_value field value) failed) episode_failures in
      let baseline = share errors total in
      record {
        dimension = dimension;
        value = value;
        episode_error_frequency = frequency;
        baseline_error_frequency = baseline;
        error_deviation = f.sub frequency baseline;
      }

  abbrev pub deviates : SupportingEvidence W → Bool
  deviates s = f.le (f.lit 20 100) s.error_deviation

  -- `_evaluate_supporting_dimension`, on the event store.
  unfoldable pub evaluate_supporting_dimension :
      List PaymentEvent
      → ℕ
      → String
      → String
      → List ℕ
      → List PaymentEvent
      → List (SupportingEvidence W)
  evaluate_supporting_dimension events episode_failures dimension field starts history =
      let failed = select is_failed events in
      if episode_failures == 0
      then []
      else select deviates (
          map (evidence_for failed episode_failures dimension field starts history)
            (values_of field (λ e. true) failed))

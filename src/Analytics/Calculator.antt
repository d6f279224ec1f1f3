-- ===== src/Analytics/Calculator.antt =====
-- src/core/analytics/calculator.py: the snapshots of one window, and the baseline. W is the type of
-- Python's floats.
pub mod Partition
pub mod Labels
use revenue_degradation_reco.Prelude.{
  ℕ, suc, ◌+◌, ◌-◌, ◌/◌, ◌%◌, String, Option, none, some, List, [], ◌∷◌, ◌++◌, map, Bool, true,
  false, not, ◌&&◌, ◌=s=◌, ◌==◌, leb, ltb, if◌then◌else◌, length, get_elem?,
}
use revenue_degradation_reco.Prelude.Int.{ℤ, pos, ◌+ℤ◌}
use revenue_degradation_reco.Prelude.Float.{Float}
use revenue_degradation_reco.Events.{PaymentEvent}
use revenue_degradation_reco.Degradation.Models.{PaymentHealthSnapshot}

abbrev pub min_transaction_threshold : ℕ
min_transaction_threshold = 50

-- `getattr(event, dimension, None)`, for the dimensions in use.
abbrev pub attribute : String → PaymentEvent → Option String
attribute dimension e =
    if dimension =s= "currency"
    then some e.currency
    else if dimension =s= "payment_method"
    then e.payment_method
    else if dimension =s= "bank"
    then e.bank
    else if dimension =s= "wallet"
    then e.wallet
    else if dimension =s= "error_source"
    then e.error_source
    else none

abbrev pub or_null : Option String → String
or_null none = "NULL"
or_null (some value) = value

unfoldable pub get_segment_value : PaymentEvent → String → String
get_segment_value e dimension =
    if dimension =s= "GLOBAL" then "ALL" else or_null (attribute dimension e)

abbrev pub dimensions : List String
dimensions = "GLOBAL" ∷ "currency" ∷ "payment_method" ∷ "bank" ∷ "wallet" ∷ "error_source" ∷ []

abbrev pub in_window : ℕ → ℕ → PaymentEvent → Bool
in_window window_start window_end e = leb window_start e.timestamp && ltb e.timestamp window_end

abbrev pub Segment : Type 0
Segment = String × List PaymentEvent

-- `segments[val].append(event)`, in a dictionary that keeps the order in which the keys came.
abbrev pub add_event : String → PaymentEvent → List Segment → List Segment
add_event value e [] = (value, e ∷ []) ∷ []
add_event value e ((v, events) ∷ rest) =
    let later = add_event value e rest in
    if value =s= v then (v, events ++ e ∷ []) ∷ rest else (v, events) ∷ later

abbrev pub no_segments : String → List PaymentEvent → List Segment
no_segments dimension [] = if dimension =s= "GLOBAL" then ("ALL", []) ∷ [] else []
no_segments dimension (e ∷ events) = []

abbrev pub collect : ℕ → ℕ → String → List Segment → List PaymentEvent → List Segment
collect window_start window_end dimension segments [] = segments
collect window_start window_end dimension segments (e ∷ events) =
    collect window_start window_end dimension
      (if in_window window_start window_end e
        then add_event (get_segment_value e dimension) e segments
        else segments)
      events

unfoldable pub segments_of : ℕ → ℕ → String → List PaymentEvent → List Segment
segments_of window_start window_end dimension events =
    collect window_start window_end dimension (no_segments dimension events) events

-- `event.event_type == ...`
abbrev pub is_captured : PaymentEvent → Bool
is_captured e = e.event_type =s= "payment.captured"

abbrev pub is_failed : PaymentEvent → Bool
is_failed e = e.event_type =s= "payment.failed"

-- The four counters of a segment, as the loop leaves them.
pub record Totals : Type 0 where
  pub successful_count : ℕ
  pub failed_count : ℕ
  pub successful_gmv : ℤ
  pub failed_gmv : ℤ

abbrev pub tally : Totals → PaymentEvent → Totals
tally t e =
    if is_captured e
    then record t {
      successful_count = t.successful_count + 1;
      successful_gmv = t.successful_gmv +ℤ e.amount_minor_units;
    }
    else if is_failed e
    then record t {
      failed_count = t.failed_count + 1;
      failed_gmv = t.failed_gmv +ℤ e.amount_minor_units;
    }
    else t

abbrev pub totals_from : Totals → List PaymentEvent → Totals
totals_from t [] = t
totals_from t (e ∷ events) = totals_from (tally t e) events

abbrev pub nothing_counted : Totals
nothing_counted = record {
  successful_count = 0;
  failed_count = 0;
  successful_gmv = pos 0;
  failed_gmv = pos 0;
}

-- The `uuid4` of each snapshot, and the clock.
pub record SnapshotNames : Type 0 where
  pub snapshot_id : String → String → ℕ
  pub calculated_at : ℕ

module _ {W : Type 0} ⦃f : Float W⦄ where
  abbrev pub snapshot_of : SnapshotNames → ℕ → ℕ → ℕ → String → Segment → PaymentHealthSnapshot W
  snapshot_of names window_start window_end threshold dimension (value, events) =
      let t = totals_from nothing_counted events in
      let total_count = t.successful_count + t.failed_count in
      record {
        snapshot_id = names.snapshot_id dimension value;
        window_start = window_start;
        window_end = window_end;
        segment_dimension = dimension;
        segment_value = value;
        transaction_count = total_count;
        successful_transaction_count = t.successful_count;
        failed_transaction_count = t.failed_count;
        success_rate =
            if ltb 0 total_count then some (f.lit t.successful_count total_count) else none;
        failure_rate = if ltb 0 total_count then some (f.lit t.failed_count total_count) else none;
        total_gmv_minor_units = t.successful_gmv +ℤ t.failed_gmv;
        successful_gmv_minor_units = t.successful_gmv;
        failed_gmv_minor_units = t.failed_gmv;
        baseline_success_rate = none;
        insufficient_volume = ltb total_count threshold;
        calculated_at = names.calculated_at;
      }

  abbrev pub snapshots_in :
      SnapshotNames → ℕ → ℕ → ℕ → List PaymentEvent → List String → List (PaymentHealthSnapshot W)
  snapshots_in names window_start window_end threshold events [] = []
  snapshots_in names window_start window_end threshold events (dimension ∷ rest) =
      map (snapshot_of names window_start window_end threshold dimension)
        (segments_of window_start window_end dimension events)
      ++ snapshots_in names window_start window_end threshold events rest

  unfoldable pub calculate_health_metrics_for_window :
      SnapshotNames → ℕ → ℕ → ℕ → List PaymentEvent → List (PaymentHealthSnapshot W)
  calculate_health_metrics_for_window names window_start window_end threshold events =
      snapshots_in names window_start window_end threshold events dimensions

  abbrev pub rates : List (PaymentHealthSnapshot W) → List W
  rates [] = []
  rates (s ∷ rest) = elim s.success_rate [ none ↦ rates rest | some r ↦ r ∷ rates rest ]

  -- `statistics.median`: `sorted`, then the middle one, or half the sum of the two.
  abbrev pub insert_rate : W → List W → List W
  insert_rate x [] = x ∷ []
  insert_rate x (y ∷ ys) = let rest = insert_rate x ys in if f.lt y x then y ∷ rest else x ∷ y ∷ ys

  abbrev pub sorted_rates : List W → List W
  sorted_rates [] = []
  sorted_rates (x ∷ xs) = insert_rate x (sorted_rates xs)

  abbrev pub half_sum : Option W → Option W → Option W
  half_sum none y = none
  half_sum (some x) none = none
  half_sum (some x) (some y) = some (f.div (f.add x y) (f.lit 2 1))

  unfoldable pub calculate_baseline : List (PaymentHealthSnapshot W) → Option W
  calculate_baseline historical_snapshots =
      let ordered = sorted_rates (rates historical_snapshots) in
      let n = length ordered in
      if n == 0
      then none
      else if n % 2 == 1
      then get_elem? ordered (n / 2)
      else half_sum (get_elem? ordered (n / 2 - 1)) (get_elem? ordered (n / 2))

-- ===== src/Analytics/Calculator/Partition.antt =====
-- The snapshots of src/core/analytics/calculator.py count each event of the window once per dimension.
use mathlib.Core.Path.{subst}
use revenue_degradation_reco.Prelude.{
  ℕ, ◌+◌, ◌*◌, ◌≡◌, refl, ap, ◌∙◌, String, List, [], ◌∷◌, ◌++◌, map, Bool, true, false, ◌&&◌, ◌=s=◌,
  inl, inr, arith, eq_iff, eq_refl, Bool-cases, if◌then◌else◌, count_if, All,
}
use revenue_degradation_reco.Prelude.Float.{Float}
use revenue_degradation_reco.Events.{PaymentEvent}
use revenue_degradation_reco.Degradation.Models.{PaymentHealthSnapshot}
use revenue_degradation_reco.Execution.Repository.Rows.{count-append}
use revenue_degradation_reco.Analytics.Calculator.{
  Segment, add_event, no_segments, collect, segments_of, get_segment_value, in_window, is_captured,
  is_failed, Totals, tally, totals_from, nothing_counted, SnapshotNames, snapshot_of, snapshots_in,
  dimensions, calculate_health_metrics_for_window,
}

-- The events of all segments that pass a test.
abbrev in_segments : (PaymentEvent → Bool) → List Segment → ℕ
in_segments p [] = 0
in_segments p ((value, events) ∷ rest) = count_if p events + in_segments p rest

in_segments-add_event :
    (p : PaymentEvent → Bool) (value : String) (e : PaymentEvent) (segments : List Segment)
    → in_segments p (add_event value e segments) ≡ in_segments p segments + count_if p (e ∷ [])
in_segments-add_event p value e [] = omega arith
in_segments-add_event p value e ((v, events) ∷ rest) = elim (Bool-cases (value =s= v)) [
  | inl same ↦ rw same (ground (arith, count-append p events e))
  | inr other ↦ rw other (ground (arith, in_segments-add_event p value e rest))
]

module _ (window_start window_end : ℕ) where
  abbrev pub inside : (PaymentEvent → Bool) → PaymentEvent → Bool
  inside p e = in_window window_start window_end e && p e

  in_segments-collect :
      (p : PaymentEvent → Bool) (dimension : String) (segments : List Segment)
      (events : List PaymentEvent)
      → in_segments p (collect window_start window_end dimension segments events)
        ≡ in_segments p segments + count_if (inside p) events
  in_segments-collect p dimension segments [] = omega arith
  in_segments-collect p dimension segments (e ∷ events) =
      elim (Bool-cases (in_window window_start window_end e)) [
        | inl here ↦ rw here (
            ground (
              arith,
              in_segments-collect p dimension (add_event (get_segment_value e dimension) e segments)
                  events,
              in_segments-add_event p (get_segment_value e dimension) e segments,
            ))
        | inr away ↦ rw away (in_segments-collect p dimension segments events)
      ]

  none_yet :
      (p : PaymentEvent → Bool) (dimension : String) (events : List PaymentEvent)
      → in_segments p (no_segments dimension events) ≡ 0
  none_yet p dimension [] = ground arith
  none_yet p dimension (e ∷ events) = refl

  in_segments-segments_of :
      (p : PaymentEvent → Bool) (dimension : String) (events : List PaymentEvent)
      → in_segments p (segments_of window_start window_end dimension events)
        ≡ count_if (inside p) events
  unfolding segments_of
  in_segments-segments_of p dimension events = omega (
    arith,
    in_segments-collect p dimension (no_segments dimension events) events,
    none_yet p dimension events,
  )

-- The counters of the loop.
kinds_apart : (s : String) → (s =s= "payment.captured") ≡ true → (s =s= "payment.failed") ≡ false
kinds_apart s h = let same = (eq_iff s "payment.captured").0 h in rw same refl

totals_count :
    (t : Totals) (events : List PaymentEvent)
    → ((totals_from t events).successful_count ≡ t.successful_count + count_if is_captured events)
      × ((totals_from t events).failed_count ≡ t.failed_count + count_if is_failed events)
totals_count t [] = (omega arith, omega arith)
totals_count t (e ∷ events) =
    let later = totals_count (tally t e) events in
    elim (Bool-cases (is_captured e)) [
      | inl captured ↦
          let unfailed = kinds_apart e.event_type captured in
          (later.0 ∙ ground arith, later.1 ∙ ground arith)
      | inr other ↦ elim (Bool-cases (is_failed e)) [
        | inl failed ↦ (later.0 ∙ ground arith, later.1 ∙ ground arith)
        | inr neither ↦ (later.0 ∙ ground arith, later.1 ∙ ground arith)
      ]
    ]

module _ {W : Type 0} where
  abbrev pub of_dimension : String → PaymentHealthSnapshot W → Bool
  of_dimension dimension s = s.segment_dimension =s= dimension

  -- The sum of a counter over the snapshots of a dimension.
  abbrev pub total : (PaymentHealthSnapshot W → ℕ) → String → List (PaymentHealthSnapshot W) → ℕ
  total count dimension [] = 0
  total count dimension (s ∷ rest) =
      let later = total count dimension rest in
      if of_dimension dimension s then count s + later else later

  total-append :
      (count : PaymentHealthSnapshot W → ℕ) (dimension : String)
      (xs ys : List (PaymentHealthSnapshot W))
      → total count dimension (xs ++ ys) ≡ total count dimension xs + total count dimension ys
  total-append count dimension [] ys = omega arith
  total-append count dimension (x ∷ xs) ys = ground (arith, total-append count dimension xs ys)

module _ {W : Type 0} ⦃f : Float W⦄ (names : SnapshotNames)
    (window_start window_end threshold : ℕ) where
  -- A counter of snapshots that counts the events of the segment that pass a test.
  Counts : (PaymentHealthSnapshot W → ℕ) → (PaymentEvent → Bool) → Type 0
  Counts count p =
      (dimension : String) (segment : Segment)
      → count (snapshot_of names window_start window_end threshold dimension segment)
        ≡ count_if p segment.1

  total_same :
      (count : PaymentHealthSnapshot W → ℕ) (p : PaymentEvent → Bool) (dimension : String)
      (segments : List Segment)
      → Counts count p
      → total count dimension
          (map (snapshot_of names window_start window_end threshold dimension) segments)
        ≡ in_segments p segments
  unfolding Counts
  total_same count p dimension [] k = refl
  total_same count p dimension ((value, events) ∷ rest) k =
      ground
        (arith, eq_refl dimension, k dimension (value, events), total_same count p dimension rest k)

  total_other :
      (count : PaymentHealthSnapshot W → ℕ) (asked dimension : String) (segments : List Segment)
      → (dimension =s= asked) ≡ false
      → total count asked
          (map (snapshot_of names window_start window_end threshold dimension) segments)
        ≡ 0
  total_other count asked dimension [] h = refl
  total_other count asked dimension ((value, events) ∷ rest) h =
      ground (arith, total_other count asked dimension rest h)

  total-snapshots_in :
      (count : PaymentHealthSnapshot W → ℕ) (p : PaymentEvent → Bool) (events : List PaymentEvent)
      (asked : String) (ds : List String)
      → Counts count p
      → total count asked (snapshots_in names window_start window_end threshold events ds)
        ≡ count_if (λ d. d =s= asked) ds * count_if (inside window_start window_end p) events
  total-snapshots_in count p events asked [] k = omega arith
  total-snapshots_in count p events asked (d ∷ ds) k =
      let later = total-snapshots_in count p events asked ds k in
      let split =
        total-append count asked
          (map (snapshot_of names window_start window_end threshold d)
            (segments_of window_start window_end d events))
          (snapshots_in names window_start window_end threshold events ds) in
      elim (Bool-cases (d =s= asked)) [
        | inl same ↦
            let equal = (eq_iff d asked).0 same in
            let here : total count asked (
                  map (snapshot_of names window_start window_end threshold d)
                    (segments_of window_start window_end d events))
                ≡ count_if (inside window_start window_end p) events =
              subst
                (λ x.
                  total count x (
                    map (snapshot_of names window_start window_end threshold d)
                      (segments_of window_start window_end d events))
                  ≡ count_if (inside window_start window_end p) events)
                equal
                (total_same count p d (segments_of window_start window_end d events) k
                  ∙ in_segments-segments_of window_start window_end p d events) in
            rw same (split ∙ grind (arith, here, later))
        | inr other ↦
            let here =
              total_other count asked d (segments_of window_start window_end d events) other in
            rw other (split ∙ grind (arith, here, later))
      ]

module _ (W : Type 0) ⦃f : Float W⦄ (names : SnapshotNames)
    (window_start window_end threshold : ℕ) where
  successes-Counts :
      Counts {W = W} names window_start window_end threshold
        (λ (s : PaymentHealthSnapshot W). s.successful_transaction_count)
        is_captured
  unfolding Counts
  successes-Counts dimension (value, events) = (totals_count nothing_counted events).0 ∙ omega arith

  failures-Counts :
      Counts {W = W} names window_start window_end threshold
        (λ (s : PaymentHealthSnapshot W). s.failed_transaction_count)
        is_failed
  unfolding Counts
  failures-Counts dimension (value, events) = (totals_count nothing_counted events).1 ∙ omega arith

  -- What the snapshots of a dimension count together.
  abbrev pub IsPartition : List PaymentEvent → String → Type 0
  IsPartition events dimension =
      let snapshots =
        calculate_health_metrics_for_window {W = W} names window_start window_end threshold
          events in
      (total (λ s. s.successful_transaction_count) dimension snapshots
        ≡ count_if (inside window_start window_end is_captured) events)
      × (total (λ s. s.failed_transaction_count) dimension snapshots
          ≡ count_if (inside window_start window_end is_failed) events)

  IsPartition-once :
      (events : List PaymentEvent) (dimension : String)
      → count_if (λ d. d =s= dimension) dimensions ≡ 1
      → IsPartition events dimension
  unfolding calculate_health_metrics_for_window
  IsPartition-once events dimension once =
      let good =
        total-snapshots_in {W = W} names window_start window_end threshold
          (λ s. s.successful_transaction_count) is_captured events dimension dimensions
          successes-Counts in
      let bad =
        total-snapshots_in {W = W} names window_start window_end threshold
          (λ s. s.failed_transaction_count) is_failed events dimension dimensions failures-Counts in
      (
        good
            ∙ ap (λ n. n * count_if (inside window_start window_end is_captured) events) once
            ∙ omega arith,
        bad
            ∙ ap (λ n. n * count_if (inside window_start window_end is_failed) events) once
            ∙ omega arith,
      )

  -- In each of the six dimensions, every captured and every failed payment with a timestamp in the window
  -- is counted in exactly one snapshot: the counts of the snapshots add up to those of the events.
  pub calculate_health_metrics-IsPartition :
      (events : List PaymentEvent) → All (IsPartition events) dimensions
  calculate_health_metrics-IsPartition events = (
    IsPartition-once events "GLOBAL" refl,
    (
      IsPartition-once events "currency" refl,
      (
        IsPartition-once events "payment_method" refl,
        (
          IsPartition-once events "bank" refl,
          (
            IsPartition-once events "wallet" refl,
            (IsPartition-once events "error_source" refl, tt),
          ),
        ),
      ),
    ),
  )

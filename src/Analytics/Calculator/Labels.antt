-- ===== src/Analytics/Calculator/Labels.antt =====
-- How src/core/analytics names the segment of all payments, in the snapshots that it calculates and in
-- those that it stores.
use revenue_degradation_reco.Prelude.{
  ℕ, ◌≡◌, refl, String, List, [], ◌∷◌, map, true, ◌=s=◌, inl, inr, Bool-cases, All, All-append,
}
use revenue_degradation_reco.Prelude.Float.{Float}
use revenue_degradation_reco.Events.{PaymentEvent}
use revenue_degradation_reco.Degradation.Models.{PaymentHealthSnapshot}
use revenue_degradation_reco.Analytics.Calculator.{
  Segment, add_event, no_segments, collect, segments_of, get_segment_value, in_window,
  SnapshotNames, snapshot_of, snapshots_in, dimensions, calculate_health_metrics_for_window,
}

-- In the dimension GLOBAL the value is ALL.
abbrev pub IsAll : String → String → Type 0
IsAll dimension value = (dimension =s= "GLOBAL") ≡ true → value ≡ "ALL"

abbrev IsNamed : String → Segment → Type 0
IsNamed dimension segment = IsAll dimension segment.0

value-IsAll :
    (dimension : String) (e : PaymentEvent) → IsAll dimension (get_segment_value e dimension)
unfolding get_segment_value
value-IsAll dimension e global = rw global refl

add_event-IsNamed :
    (dimension value : String) (e : PaymentEvent) (segments : List Segment)
    → IsAll dimension value
    → All (IsNamed dimension) segments
    → All (IsNamed dimension) (add_event value e segments)
add_event-IsNamed dimension value e [] p q = (p, tt)
add_event-IsNamed dimension value e ((v, events) ∷ rest) p q = elim (Bool-cases (value =s= v)) [
  | inl same ↦ rw same q
  | inr other ↦ rw other (q.0, add_event-IsNamed dimension value e rest p q.1)
]

module _ (window_start window_end : ℕ) where
  collect-IsNamed :
      (dimension : String) (segments : List Segment) (events : List PaymentEvent)
      → All (IsNamed dimension) segments
      → All (IsNamed dimension) (collect window_start window_end dimension segments events)
  collect-IsNamed dimension segments [] q = q
  collect-IsNamed dimension segments (e ∷ events) q =
      elim (Bool-cases (in_window window_start window_end e)) [
        | inl here ↦ rw here (
            collect-IsNamed dimension (add_event (get_segment_value e dimension) e segments) events
              (add_event-IsNamed dimension (get_segment_value e dimension) e segments
                (value-IsAll dimension e) q))
        | inr away ↦ rw away (collect-IsNamed dimension segments events q)
      ]

  none-IsNamed :
      (dimension : String) (events : List PaymentEvent)
      → All (IsNamed dimension) (no_segments dimension events)
  none-IsNamed dimension [] = elim (Bool-cases (dimension =s= "GLOBAL")) [
    | inl global ↦ rw global ((λ g. refl), tt)
    | inr other ↦ rw other tt
  ]
  none-IsNamed dimension (e ∷ events) = tt

  segments_of-IsNamed :
      (dimension : String) (events : List PaymentEvent)
      → All (IsNamed dimension) (segments_of window_start window_end dimension events)
  unfolding segments_of
  segments_of-IsNamed dimension events =
      collect-IsNamed dimension (no_segments dimension events) events
        (none-IsNamed dimension events)

module _ {W : Type 0} where
  abbrev pub IsLabelled : PaymentHealthSnapshot W → Type 0
  IsLabelled s = IsAll s.segment_dimension s.segment_value

module _ (W : Type 0) ⦃f : Float W⦄ (names : SnapshotNames)
    (window_start window_end threshold : ℕ) where
  map-IsLabelled :
      (dimension : String) (segments : List Segment)
      → All (IsNamed dimension) segments
      → All
          (IsLabelled {W = W})
          (map (snapshot_of names window_start window_end threshold dimension) segments)
  map-IsLabelled dimension [] q = tt
  map-IsLabelled dimension ((value, events) ∷ rest) q = (q.0, map-IsLabelled dimension rest q.1)

  snapshots_in-IsLabelled :
      (events : List PaymentEvent) (ds : List String)
      → All (IsLabelled {W = W}) (snapshots_in names window_start window_end threshold events ds)
  snapshots_in-IsLabelled events [] = tt
  snapshots_in-IsLabelled events (d ∷ ds) =
      All-append IsLabelled
        (map (snapshot_of names window_start window_end threshold d)
          (segments_of window_start window_end d events))
        (snapshots_in names window_start window_end threshold events ds)
        (map-IsLabelled d (segments_of window_start window_end d events)
          (segments_of-IsNamed window_start window_end d events))
        (snapshots_in-IsLabelled events ds)

  pub calculate-IsLabelled :
      (events : List PaymentEvent)
      → All
          (IsLabelled {W = W})
          (calculate_health_metrics_for_window names window_start window_end threshold events)
  unfolding calculate_health_metrics_for_window
  calculate-IsLabelled events = snapshots_in-IsLabelled events dimensions

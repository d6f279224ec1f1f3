-- ===== src/Analytics/Service.antt =====
-- src/core/analytics/service.py. Instants count from an instant at the full hour.
pub mod Windows
pub mod Saved
use revenue_degradation_reco.Prelude.{
  ℕ, ◌+◌, ◌-◌, ◌*◌, ◌/◌, ◌%◌, List, [], ◌∷◌, ◌++◌, Bool, false, ◌||◌, ◌&&◌, ◌==◌, if◌then◌else◌,
}
use revenue_degradation_reco.Prelude.Float.{Float}
use revenue_degradation_reco.Action.{Action, pure, ◌>>=◌}
use revenue_degradation_reco.Events.{PaymentEvent}
use revenue_degradation_reco.Store.{Database}
use revenue_degradation_reco.Degradation.Models.{PaymentHealthSnapshot}
use revenue_degradation_reco.Analytics.Calculator.{
  SnapshotNames, min_transaction_threshold, calculate_health_metrics_for_window, calculate_baseline,
}
use revenue_degradation_reco.Analytics.Repository.{
  get_events_in_window, get_events_ingested_after, get_historical_snapshots, upsert_snapshots,
}

-- `dt.replace(minute=(dt.minute // 5) * 5, second=0, microsecond=0)`, and five minutes later.
unfoldable pub get_window_boundaries : ℕ → ℕ × ℕ
get_window_boundaries dt =
    let minute = dt / 60_000_000 % 60 in
    let window_start_minute = minute / 5 * 5 in
    let window_start = dt - dt % 3_600_000_000 + window_start_minute * 60_000_000 in
    (window_start, window_start + 300_000_000)

abbrev pub is_window_in : ℕ × ℕ → List (ℕ × ℕ) → Bool
is_window_in w [] = false
is_window_in w (v ∷ rest) = (w.0 == v.0 && w.1 == v.1) || is_window_in w rest

-- The windows of the events, each once; the order of the set is left open.
unfoldable pub affected_windows : List PaymentEvent → List (ℕ × ℕ)
affected_windows [] = []
affected_windows (e ∷ events) =
    let rest = affected_windows events in
    let window = get_window_boundaries e.timestamp in
    if is_window_in window rest then rest else window ∷ rest

module _ {W : Type 0} ⦃f : Float W⦄ where
  -- Each snapshot with its baseline in its place.
  unfoldable pub with_baselines :
      ℕ → List (PaymentHealthSnapshot W) → Action (Database W) (List (PaymentHealthSnapshot W))
  with_baselines window_start [] = pure []
  with_baselines window_start (s ∷ snapshots) =
      let rest = with_baselines window_start snapshots in
      get_historical_snapshots window_start s.segment_dimension s.segment_value 4 >>= λ historical.
      rest >>= λ updated.
      pure (record s { baseline_success_rate = calculate_baseline historical } ∷ updated)

  unfoldable pub calculate_and_save_window : SnapshotNames → ℕ → ℕ → Action (Database W) (Unit {0})
  calculate_and_save_window names window_start window_end = do
    events ← get_events_in_window window_start window_end
    snapshots ← with_baselines window_start (
        calculate_health_metrics_for_window names window_start window_end min_transaction_threshold
          events)
    upsert_snapshots snapshots

  unfoldable pub save_windows :
      (ℕ × ℕ → SnapshotNames) → List (ℕ × ℕ) → Action (Database W) (Unit {0})
  save_windows names [] = pure tt
  save_windows names ((window_start, window_end) ∷ windows) =
      let rest = save_windows names windows in
      calculate_and_save_window (names (window_start, window_end)) window_start window_end
      >>= λ saved. rest

  unfoldable pub recalculate_late_events :
      (ℕ × ℕ → SnapshotNames) → ℕ → Action (Database W) (Unit {0})
  recalculate_late_events names since = do
    events ← get_events_ingested_after since
    save_windows names (affected_windows events)

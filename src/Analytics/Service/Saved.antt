-- ===== src/Analytics/Service/Saved.antt =====
-- What the writes of src/core/analytics/service.py keep of the table of snapshots.
use revenue_degradation_reco.Prelude.{
  ℕ, ◌≡◌, refl, List, [], ◌∷◌, false, inl, inr, Bool-cases, All, select,
}
use revenue_degradation_reco.Prelude.Float.{Float}
use revenue_degradation_reco.Errors.{Result, ok}
use revenue_degradation_reco.Action.Keeps.{Keeps, Keeps-bind}
use revenue_degradation_reco.Store.{Database}
use revenue_degradation_reco.Degradation.Models.{PaymentHealthSnapshot}
use revenue_degradation_reco.Analytics.Calculator.{
  SnapshotNames, min_transaction_threshold, calculate_health_metrics_for_window, calculate_baseline,
}
use revenue_degradation_reco.Analytics.Calculator.Labels.{IsLabelled, calculate-IsLabelled}
use revenue_degradation_reco.Analytics.Repository.{
  arrived_after, between, snapshot_at, weeks_before, same_identity, upsert, upsert_all,
  get_events_in_window, get_events_ingested_after, get_historical_snapshots, upsert_snapshots,
}
use revenue_degradation_reco.Analytics.Service.{
  with_baselines, calculate_and_save_window, save_windows, recalculate_late_events,
  affected_windows,
}

module _ {W : Type 0} where
  -- No two rows have one identity.
  abbrev pub IsUnique : List (PaymentHealthSnapshot W) → Type 0
  IsUnique [] = Unit
  IsUnique (s ∷ rest) = All (λ r. same_identity s r ≡ false) rest × IsUnique rest

  -- What the table keeps: one row for each identity, and ALL in the dimension GLOBAL.
  abbrev pub IsKept : Database W → Type 0
  IsKept db = IsUnique db.payment_health_snapshots × All IsLabelled db.payment_health_snapshots

  upsert-IsLabelled :
      (s : PaymentHealthSnapshot W) (rows : List (PaymentHealthSnapshot W))
      → IsLabelled s
      → All IsLabelled rows
      → All IsLabelled (upsert s rows)
  upsert-IsLabelled s [] p q = (p, tt)
  upsert-IsLabelled s (row ∷ rows) p q = elim (Bool-cases (same_identity row s)) [
    | inl same ↦ rw same (q.0, q.1)
    | inr other ↦ rw other (q.0, upsert-IsLabelled s rows p q.1)
  ]

  -- A row that has another identity than the new one and than all rows, has another than all rows after.
  upsert_apart :
      (a s : PaymentHealthSnapshot W) (rows : List (PaymentHealthSnapshot W))
      → same_identity a s ≡ false
      → All (λ r. same_identity a r ≡ false) rows
      → All (λ r. same_identity a r ≡ false) (upsert s rows)
  upsert_apart a s [] p q = (p, tt)
  upsert_apart a s (row ∷ rows) p q = elim (Bool-cases (same_identity row s)) [
    | inl same ↦ rw same (q.0, q.1)
    | inr other ↦ rw other (q.0, upsert_apart a s rows p q.1)
  ]

  upsert-IsUnique :
      (s : PaymentHealthSnapshot W) (rows : List (PaymentHealthSnapshot W))
      → IsUnique rows
      → IsUnique (upsert s rows)
  upsert-IsUnique s [] q = (tt, tt)
  upsert-IsUnique s (row ∷ rows) q = elim (Bool-cases (same_identity row s)) [
    | inl same ↦ rw same (q.0, q.1)
    | inr other ↦ rw other (upsert_apart row s rows other q.0, upsert-IsUnique s rows q.1)
  ]

  upsert_all-IsLabelled :
      (new rows : List (PaymentHealthSnapshot W))
      → All IsLabelled new
      → All IsLabelled rows
      → All IsLabelled (upsert_all new rows)
  upsert_all-IsLabelled [] rows p q = q
  upsert_all-IsLabelled (s ∷ rest) rows p q =
      upsert_all-IsLabelled rest (upsert s rows) p.1 (upsert-IsLabelled s rows p.0 q)

  upsert_all-IsUnique :
      (new rows : List (PaymentHealthSnapshot W)) → IsUnique rows → IsUnique (upsert_all new rows)
  upsert_all-IsUnique [] rows q = q
  upsert_all-IsUnique (s ∷ rest) rows q =
      upsert_all-IsUnique rest (upsert s rows) (upsert-IsUnique s rows q)

module _ {W : Type 0} ⦃f : Float W⦄ where
  -- The baselines change no label, and nothing is written for them.
  IsUpdate : Database W → Result (List (PaymentHealthSnapshot W)) × Database W → Type 0
  IsUpdate db r =
      (updated : List (PaymentHealthSnapshot W)) × (r ≡ (ok updated, db)) × All IsLabelled updated

  with_baselines-IsUpdate :
      (window_start : ℕ) (snapshots : List (PaymentHealthSnapshot W)) (db : Database W)
      → All IsLabelled snapshots
      → IsUpdate db (with_baselines window_start snapshots db)
  unfolding with_baselines get_historical_snapshots IsUpdate
  with_baselines-IsUpdate window_start [] db p = ([], refl, tt)
  with_baselines-IsUpdate window_start (s ∷ snapshots) db p =
      let (updated, e, q) = with_baselines-IsUpdate window_start snapshots db p.1 in
      let historical =
        select (snapshot_at (weeks_before window_start 4) s.segment_dimension s.segment_value)
          db.payment_health_snapshots in
      (
        record s { baseline_success_rate = calculate_baseline historical } ∷ updated,
        rw e refl,
        (p.0, q),
      )

  calculate_and_save_window-IsKept :
      (names : SnapshotNames) (window_start window_end : ℕ)
      → Keeps (IsKept {W = W}) (calculate_and_save_window names window_start window_end)
  unfolding calculate_and_save_window get_events_in_window upsert_snapshots IsUpdate
  calculate_and_save_window-IsKept names window_start window_end db kept =
      let snapshots =
        calculate_health_metrics_for_window {W = W} names window_start window_end
          min_transaction_threshold (select (between window_start window_end) db.payment_events) in
      let (updated, e, labelled) =
        with_baselines-IsUpdate window_start snapshots db
          (calculate-IsLabelled W names window_start window_end min_transaction_threshold _) in
      rw e (
        upsert_all-IsUnique updated db.payment_health_snapshots kept.0,
        upsert_all-IsLabelled updated db.payment_health_snapshots labelled kept.1,
      )

  save_windows-IsKept :
      (names : ℕ × ℕ → SnapshotNames) (windows : List (ℕ × ℕ))
      → Keeps (IsKept {W = W}) (save_windows names windows)
  unfolding save_windows
  save_windows-IsKept names [] db kept = kept
  save_windows-IsKept names ((window_start, window_end) ∷ windows) db kept =
      Keeps-bind IsKept
        (calculate_and_save_window (names (window_start, window_end)) window_start window_end)
        (λ saved. save_windows names windows)
        (calculate_and_save_window-IsKept (names (window_start, window_end)) window_start
          window_end)
        (λ saved. save_windows-IsKept names windows) db kept

  -- Where the table has one row for each window and segment and names the segment of all payments ALL, a
  -- recalculation of the windows of late events leaves it so.
  pub recalculate_late_events-IsKept :
      (names : ℕ × ℕ → SnapshotNames) (since : ℕ) (db : Database W)
      → IsKept db
      → IsKept (recalculate_late_events names since db).1
  unfolding recalculate_late_events get_events_ingested_after
  recalculate_late_events-IsKept names since db kept =
      save_windows-IsKept names (affected_windows (select (arrived_after since) db.payment_events))
        db kept

-- ===== src/Analytics/Repository.antt =====
-- src/infrastructure/analytics_repository.py. A table has its rows in the order of insertion, which SQL
-- leaves open.
use revenue_degradation_reco.Prelude.{
  ℕ, zero, suc, ◌-◌, ◌*◌, String, List, [], ◌∷◌, Bool, ◌&&◌, ◌||◌, false, ◌==◌, ◌=s=◌, leb, ltb,
  if◌then◌else◌, select,
}
use revenue_degradation_reco.Errors.{ok}
use revenue_degradation_reco.Action.{Action, gets}
use revenue_degradation_reco.Events.{PaymentEvent}
use revenue_degradation_reco.Store.{Database}
use revenue_degradation_reco.Degradation.Models.{PaymentHealthSnapshot}
use revenue_degradation_reco.Execution.Repository.Events.{not_excluded}

abbrev pub a_week : ℕ
a_week = 604_800_000_000

abbrev pub between : ℕ → ℕ → PaymentEvent → Bool
between window_start window_end e =
    leb window_start e.timestamp && (ltb e.timestamp window_end && not_excluded e.source_system)

-- `[target - timedelta(weeks=i) for i in range(1, weeks_back + 1)]`, from the last to the first.
abbrev pub weeks_before : ℕ → ℕ → List ℕ
weeks_before target zero = []
weeks_before target (suc i) = (target - suc i * a_week) ∷ weeks_before target i

abbrev pub is_one_of : ℕ → List ℕ → Bool
is_one_of t [] = false
is_one_of t (s ∷ rest) = t == s || is_one_of t rest

abbrev pub arrived_after : ℕ → PaymentEvent → Bool
arrived_after t e = ltb t e.ingested_at && not_excluded e.source_system

module _ {W : Type 0} where
  abbrev pub snapshot_at : List ℕ → String → String → PaymentHealthSnapshot W → Bool
  snapshot_at starts dimension value s =
      is_one_of s.window_start starts
      && (s.segment_dimension =s= dimension && s.segment_value =s= value)

  -- uq_snapshot_identity
  abbrev pub same_identity : PaymentHealthSnapshot W → PaymentHealthSnapshot W → Bool
  same_identity a b =
      a.window_start == b.window_start
      && (a.window_end == b.window_end
          && (a.segment_dimension =s= b.segment_dimension && a.segment_value =s= b.segment_value))

  -- ON CONFLICT DO UPDATE: the row keeps its key and takes the rest.
  abbrev pub upsert :
      PaymentHealthSnapshot W → List (PaymentHealthSnapshot W) → List (PaymentHealthSnapshot W)
  upsert s [] = s ∷ []
  upsert s (row ∷ rows) =
      let later = upsert s rows in
      if same_identity row s
      then record row {
        transaction_count = s.transaction_count;
        successful_transaction_count = s.successful_transaction_count;
        failed_transaction_count = s.failed_transaction_count;
        success_rate = s.success_rate;
        failure_rate = s.failure_rate;
        total_gmv_minor_units = s.total_gmv_minor_units;
        successful_gmv_minor_units = s.successful_gmv_minor_units;
        failed_gmv_minor_units = s.failed_gmv_minor_units;
        baseline_success_rate = s.baseline_success_rate;
        insufficient_volume = s.insufficient_volume;
        calculated_at = s.calculated_at;
      }
        ∷ rows
      else row ∷ later

  abbrev pub upsert_all :
      List (PaymentHealthSnapshot W)
      → List (PaymentHealthSnapshot W)
      → List (PaymentHealthSnapshot W)
  upsert_all [] rows = rows
  upsert_all (s ∷ rest) rows = upsert_all rest (upsert s rows)

  unfoldable pub get_events_in_window : ℕ → ℕ → Action (Database W) (List PaymentEvent)
  get_events_in_window window_start window_end =
      gets (λ db. select (between window_start window_end) db.payment_events)

  unfoldable pub get_events_ingested_after : ℕ → Action (Database W) (List PaymentEvent)
  get_events_ingested_after t = gets (λ db. select (arrived_after t) db.payment_events)

  unfoldable pub get_historical_snapshots :
      ℕ → String → String → ℕ → Action (Database W) (List (PaymentHealthSnapshot W))
  get_historical_snapshots target dimension value weeks_back = gets (λ db.
      select (snapshot_at (weeks_before target weeks_back) dimension value)
        db.payment_health_snapshots)

  -- The primary key is a fresh UUID, so that it clashes with none.
  unfoldable pub upsert_snapshots : List (PaymentHealthSnapshot W) → Action (Database W) (Unit {0})
  upsert_snapshots snapshots db = (
    ok tt,
    record db { payment_health_snapshots = upsert_all snapshots db.payment_health_snapshots },
  )

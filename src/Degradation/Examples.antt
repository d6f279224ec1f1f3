-- ===== src/Degradation/Examples.antt =====
-- Stage 3 on concrete timelines: rates in ten-thousandths.
use revenue_degradation_reco.Degradation.Service.{DegradationNames}
use revenue_degradation_reco.Prelude.{
  ℕ, ◌+◌, ◌≤◌, ◌≡◌, ◌↔◌, refl, String, Option, none, some, List, [], ◌∷◌, false, arith, All,
}
use revenue_degradation_reco.Prelude.Int.{ℤ, pos, ◌-ℤ◌, ◌*ℤ◌}
use revenue_degradation_reco.Prelude.Float.{fixed_float}
use revenue_degradation_reco.Degradation.Models.{
  SignalType, normal, bad, low_volume, active, recovered, high, PaymentHealthSnapshot,
  DegradationSignal, DegradationEpisode,
}
use revenue_degradation_reco.Degradation.Signal.{evaluate_snapshot}
use revenue_degradation_reco.Degradation.Signal.Laws.{BadWindow, evaluate_snapshot-BadWindow}
use revenue_degradation_reco.Degradation.Severity.{evaluate_severity, escalate_severity}
use revenue_degradation_reco.Degradation.Timeline.{scan_signal, scan_from, reconcile_timeline}
use revenue_degradation_reco.Degradation.Timeline.Invariant.{IsMeasured, Summary}
use revenue_degradation_reco.Degradation.Timeline.Episodes.{
  Reconciled, reconcile_timeline-Reconciled,
}
use revenue_degradation_reco.Degradation.Timeline.Windows.{
  windows, bad_windows, windows-reconcile_timeline,
}
use revenue_degradation_reco.Degradation.Timeline.Neutral.{
  conclusive, reconcile_timeline-conclusive,
}

abbrev signal_at : ℕ → SignalType → Option ℤ → DegradationSignal ℤ
signal_at t ty drop = record {
  signal_id = t;
  snapshot_id = t;
  segment_dimension = "bank";
  segment_value = "HDFC";
  window_start = t;
  evaluation_version = 1;
  signal_type = ty;
  baseline_success_rate = some (pos 9000);
  absolute_drop = drop;
  relative_drop = drop;
  evaluation_timestamp = 100;
}

abbrev outage : List (DegradationSignal ℤ)
outage =
    signal_at 1 bad (some (pos 1600))
    ∷ signal_at 2 low_volume none
    ∷ signal_at 3 bad (some (pos 900))
    ∷ signal_at 4 bad (some (pos 700))
    ∷ signal_at 5 normal (some (pos 0))
    ∷ signal_at 6 normal (some (pos 0))
    ∷ []

-- In place of `uuid5`: a number that the first window determines.
abbrev id_of : String → String → ℕ → ℕ
id_of dim value first = 1000 + first

outage_episode :
    reconcile_timeline id_of outage
    ≡ some (
        record {
          episode_id = 1001;
          segment_dimension = "bank";
          segment_value = "HDFC";
          started_at_window = 1;
          status = recovered;
          peak_absolute_drop = pos 1600;
          affected_window_count = 3;
          severity = high;
          ended_at_window = some 4;
        }
        ∷ [])
unfolding reconcile_timeline scan_from scan_signal evaluate_severity escalate_severity
outage_episode = refl

outage-IsMeasured : All IsMeasured outage
outage-IsMeasured = (
  (λ e. (pos 1600, refl)),
  ((λ e. cc), ((λ e. (pos 900, refl)), ((λ e. (pos 700, refl)), ((λ e. cc), ((λ e. cc), tt))))),
)

reconcile_timeline-Reconciled_example :
    (eps : List (DegradationEpisode ℤ)) × (reconcile_timeline id_of outage ≡ some eps)
    × Reconciled outage eps
reconcile_timeline-Reconciled_example =
    reconcile_timeline-Reconciled id_of outage outage-IsMeasured (omega arith)

windows-reconcile_timeline_example :
    (eps : List (DegradationEpisode ℤ)) × (reconcile_timeline id_of outage ≡ some eps)
    × (windows eps ≤ bad_windows outage)
windows-reconcile_timeline_example =
    windows-reconcile_timeline id_of outage outage-IsMeasured (omega arith)

reconcile_timeline-conclusive_example :
    reconcile_timeline id_of (conclusive outage) ≡ reconcile_timeline id_of outage
reconcile_timeline-conclusive_example = reconcile_timeline-conclusive id_of "bank" "HDFC" outage (
  (refl, refl),
  ((refl, refl), ((refl, refl), ((refl, refl), ((refl, refl), ((refl, refl), tt))))),
)

abbrev dip : PaymentHealthSnapshot ℤ
dip = record {
  snapshot_id = 1;
  window_start = 1;
  window_end = 2;
  segment_dimension = "bank";
  segment_value = "HDFC";
  transaction_count = 60;
  successful_transaction_count = 45;
  failed_transaction_count = 15;
  success_rate = some (pos 7500);
  failure_rate = some (pos 2500);
  total_gmv_minor_units = pos 60;
  successful_gmv_minor_units = pos 45;
  failed_gmv_minor_units = pos 15;
  baseline_success_rate = some (pos 9000);
  insufficient_volume = false;
  calculated_at = 3;
}

abbrev dip_signal : DegradationSignal ℤ
dip_signal = record {
  signal_id = 7;
  snapshot_id = 1;
  segment_dimension = "bank";
  segment_value = "HDFC";
  window_start = 1;
  evaluation_version = 1;
  signal_type = bad;
  baseline_success_rate = some (pos 9000);
  absolute_drop = some (pos 1500);
  relative_drop = some (pos 1666);
  evaluation_timestamp = 5;
}

dip_evaluated : evaluate_snapshot dip 1 5 7 ≡ some dip_signal
unfolding evaluate_snapshot ◌-ℤ◌ ◌*ℤ◌
dip_evaluated = refl

evaluate_snapshot-BadWindow_example : (bad ≡ bad) ↔ BadWindow dip
evaluate_snapshot-BadWindow_example = evaluate_snapshot-BadWindow dip 1 5 7 dip_signal dip_evaluated

abbrev bads : List (DegradationSignal ℤ)
bads = signal_at 3 bad (some (pos 900)) ∷ signal_at 4 bad (some (pos 700)) ∷ []

abbrev outage_open : DegradationEpisode ℤ
outage_open = record {
  episode_id = 1001;
  segment_dimension = "bank";
  segment_value = "HDFC";
  started_at_window = 1;
  status = active;
  peak_absolute_drop = pos 1600;
  affected_window_count = 3;
  severity = high;
  ended_at_window = none;
}

outage-Summary : Summary outage_open (signal_at 1 bad (some (pos 1600))) bads
unfolding evaluate_severity escalate_severity
outage-Summary = record {
  started = refl;
  counted = refl;
  persistent = omega arith;
  peak = refl;
  worst = refl;
  all_bad = (refl, (refl, (refl, tt)));
  measured = (pos 1600, refl);
}

abbrev naming : DegradationNames
naming = record {
  signal_id = λ window version. version;
  run_id = 9;
  episode_id_of = λ d v first. first;
}

-- ===== src/Rca/Examples.antt =====
-- Examples for Stages 2 and 4 (src/core/analytics, src/core/rca): an outage of one bank.
use revenue_degradation_reco.Prelude.{
  ℕ, ◌+◌, ◌*◌, ◌-◌, ◌≡◌, refl, arith, All, get_elem?, some, none, List, [], ◌∷◌, false,
}
use revenue_degradation_reco.Prelude.Int.{ℤ, pos, ◌*ℤ◌, ◌-ℤ◌}
use revenue_degradation_reco.Prelude.Float.{fixed_float}
use revenue_degradation_reco.Errors.{ok}
use revenue_degradation_reco.Events.{PaymentEvent}
use revenue_degradation_reco.Store.{Database}
use revenue_degradation_reco.Attempts.Examples.{authorized_event, registered}
use revenue_degradation_reco.Degradation.Models.{
  PaymentHealthSnapshot, DegradationEpisode, recovered, critical,
}
use revenue_degradation_reco.Rca.Models.{segment_specific, moderate}
use revenue_degradation_reco.Rca.Calculator.{
  compute_analysis_window, get_all_historical_starts, historical_window_starts,
  get_historical_window_starts, compute_volume_weighted_failure_rate, compute_candidate_metrics,
  compute_excess_failure_contribution, assign_evidence_strength,
}
use revenue_degradation_reco.Rca.Calculator.Starts.{slot, get_historical_window_starts-slot}
use revenue_degradation_reco.Rca.Ranking.{
  qualify, ranks_before, rank_candidates, qualified_candidates,
}
use revenue_degradation_reco.Rca.Ranking.Qualified.{IsCandidate, rank_candidates-IsCandidate}
use revenue_degradation_reco.Rca.Segments.{
  structural_results, structural_dimensions, evaluate_structural_candidate, baseline_rate,
}
use revenue_degradation_reco.Rca.Repository.{
  get_latest_evaluation_for_episode, get_max_evaluation_version, append_evaluation,
  append_candidate_causes,
}
use revenue_degradation_reco.Rca.Service.{
  RcaNames, Window, evaluate_episode, get_window, get_latest_bad_window_start, get_events_in_window,
  evaluate_window, evaluate_results, unless_same, get_hist_snapshot_for_dim, judge,
  persist_candidates, fingerprint_of,
}
use revenue_degradation_reco.Rca.Service.Baseline.{whole_excess, evaluate_results-whole_excess}
use revenue_degradation_reco.Rca.Service.Causes.{IsLed}
use revenue_degradation_reco.Rca.Service.Led.{evaluate_episode-IsLed}
use revenue_degradation_reco.Rca.Service.Twice.{evaluate_episode-settled}
use revenue_degradation_reco.Analytics.Calculator.{dimensions}
use revenue_degradation_reco.Analytics.Calculator.Partition.{
  IsPartition, calculate_health_metrics-IsPartition,
}
use revenue_degradation_reco.Analytics.Service.{get_window_boundaries, recalculate_late_events}
use revenue_degradation_reco.Analytics.Service.Windows.{IsAround, get_window_boundaries-IsAround}
use revenue_degradation_reco.Analytics.Service.Saved.{IsKept, recalculate_late_events-IsKept}

abbrev outage_start : ℕ
outage_start = 3_000_000_000_000

abbrev failure : PaymentEvent
failure = record authorized_event {
  event_type = "payment.failed";
  payment_status = "failed";
  bank = some "HDFC";
  payment_method = none;
  timestamp = outage_start;
}

abbrev ten_failures : List PaymentEvent
ten_failures =
    failure ∷ failure ∷ failure ∷ failure ∷ failure ∷ failure ∷ failure ∷ failure ∷ failure
    ∷ failure ∷ []

-- The same window one and two weeks before.
abbrev quiet : ℕ → PaymentHealthSnapshot ℤ
quiet weeks = record {
  snapshot_id = weeks;
  window_start = outage_start - weeks * 604_800_000_000;
  window_end = outage_start - weeks * 604_800_000_000 + 300_000_000;
  segment_dimension = "bank";
  segment_value = "HDFC";
  transaction_count = 100;
  successful_transaction_count = 95;
  failed_transaction_count = 5;
  success_rate = some (pos 9_500);
  failure_rate = some (pos 500);
  total_gmv_minor_units = pos 100;
  successful_gmv_minor_units = pos 95;
  failed_gmv_minor_units = pos 5;
  baseline_success_rate = none;
  insufficient_volume = false;
  calculated_at = outage_start;
}

abbrev outage : DegradationEpisode ℤ
outage = record {
  episode_id = 1;
  segment_dimension = "bank";
  segment_value = "HDFC";
  started_at_window = outage_start;
  status = recovered;
  peak_absolute_drop = pos 9_500;
  affected_window_count = 3;
  severity = critical;
  ended_at_window = some (outage_start + 300_000_000);
}

abbrev degraded : Database ℤ
degraded = record registered {
  payment_events = ten_failures;
  payment_health_snapshots = quiet 1 ∷ quiet 2 ∷ [];
}

abbrev naming : RcaNames
naming = record {
  make_evaluation_id = λ episode version. 100 * episode + version;
  make_candidate_id = λ evaluation dimension value. evaluation;
  compute_input_fingerprint = λ inputs. "fingerprint";
}

abbrev diagnosed : Database ℤ
diagnosed = record degraded {
  rca_evaluations =
      record {
        evaluation_id = 101;
        episode_id = 1;
        evaluation_version = 1;
        classification = segment_specific;
        analysis_window_start = outage_start;
        analysis_window_end = outage_start + 300_000_000;
        input_fingerprint = "fingerprint";
        generated_at = outage_start + 400_000_000;
        evidence_audit_payload = record { traffic_mix_shift = false; unreliable_diagnosis = false };
      }
      ∷ [];
  rca_candidate_causes =
      record {
        candidate_id = 101;
        evaluation_id = 101;
        candidate_dimension = "BANK";
        candidate_value = "HDFC";
        evidence_strength = moderate;
        excess_failure_contribution = pos 9_500;
        actual_segment_failures = 10;
        expected_segment_failures = pos 5_000;
        excess_segment_failures = pos 95_000;
        rank = 1;
      }
      ∷ [];
}

evaluated_once :
    evaluate_episode naming (outage_start + 400_000_000) outage degraded ≡ (ok tt, diagnosed)
unfolding evaluate_episode get_window get_latest_bad_window_start get_events_in_window
    compute_analysis_window evaluate_window get_all_historical_starts historical_window_starts
    structural_results evaluate_structural_candidate baseline_rate
    compute_volume_weighted_failure_rate compute_candidate_metrics evaluate_results unless_same
    get_latest_evaluation_for_episode get_hist_snapshot_for_dim judge persist_candidates
    get_max_evaluation_version append_evaluation append_candidate_causes qualify
    compute_excess_failure_contribution assign_evidence_strength ranks_before ◌*ℤ◌ ◌-ℤ◌
evaluated_once = refl

evaluate_episode-settled_example :
    evaluate_episode naming (outage_start + 900_000_000) outage diagnosed ≡ (ok tt, diagnosed)
evaluate_episode-settled_example =
    evaluate_episode-settled naming outage (outage_start + 400_000_000) (outage_start + 900_000_000)
      degraded diagnosed evaluated_once

none-IsLed : IsLed degraded
none-IsLed = (tt, λ id. omega arith)

evaluate_episode-IsLed_example :
    IsLed (evaluate_episode naming (outage_start + 400_000_000) outage degraded).1
evaluate_episode-IsLed_example =
    evaluate_episode-IsLed naming (outage_start + 400_000_000) outage degraded none-IsLed

abbrev anchors : List ℕ
anchors = (outage_start - 604_800_000_000) ∷ (outage_start - 1_209_600_000_000) ∷ []

rank_candidates-IsCandidate_example : All (IsCandidate (pos 100_000)) (
    rank_candidates (
      qualified_candidates (pos 100_000) (
        structural_results ten_failures 10 10 anchors degraded.payment_health_snapshots
          structural_dimensions)))
rank_candidates-IsCandidate_example =
    rank_candidates-IsCandidate ten_failures 10 10 anchors degraded.payment_health_snapshots
      (pos 100_000)

get_historical_window_starts-slot_example :
    get_elem? (get_historical_window_starts outage_start (outage_start + 600_000_000) 4) 1
    ≡ slot outage_start (outage_start + 600_000_000) 4 1
get_historical_window_starts-slot_example =
    get_historical_window_starts-slot outage_start (outage_start + 600_000_000) 4 1

abbrev outage_window : Window
outage_window = record {
  analysis_start = outage_start;
  analysis_end = outage_start + 300_000_000;
  events = ten_failures;
}

-- All payments of the window were fine in the weeks before, and the table says so.
abbrev all_quiet : ℕ → PaymentHealthSnapshot ℤ
all_quiet weeks = record (quiet weeks) { segment_dimension = "GLOBAL"; segment_value = "ALL" }

abbrev with_global : Database ℤ
with_global = record degraded { payment_health_snapshots = all_quiet 1 ∷ all_quiet 2 ∷ [] }

with_global-IsKept : IsKept with_global
with_global-IsKept = (((refl, tt), (tt, tt)), ((λ g. refl), ((λ g. refl), tt)))

evaluate_results-whole_excess_example :
    evaluate_results naming outage_start outage outage_window anchors [] with_global
    ≡ unless_same naming outage_start outage
        (fingerprint_of naming outage_start outage outage_window [])
        (judge naming outage_start outage outage_window
          (fingerprint_of naming outage_start outage outage_window [])
          []
          (whole_excess naming outage_start outage outage_window))
        with_global
evaluate_results-whole_excess_example =
    evaluate_results-whole_excess naming outage_start outage outage_window anchors [] with_global
      with_global-IsKept

recalculate_late_events-IsKept_example :
    IsKept
      (recalculate_late_events
        (λ w. record { snapshot_id = λ d v. 7; calculated_at = outage_start })
        0
        with_global).1
recalculate_late_events-IsKept_example =
    recalculate_late_events-IsKept
      (λ w. record { snapshot_id = λ d v. 7; calculated_at = outage_start }) 0 with_global
      with_global-IsKept

calculate_health_metrics-IsPartition_example :
    All
      (IsPartition ℤ
        (record { snapshot_id = λ d v. 7; calculated_at = outage_start })
        outage_start
        (outage_start + 300_000_000)
        50
        ten_failures)
      dimensions
calculate_health_metrics-IsPartition_example =
    calculate_health_metrics-IsPartition ℤ
      (record { snapshot_id = λ d v. 7; calculated_at = outage_start }) outage_start
      (outage_start + 300_000_000) 50 ten_failures

get_window_boundaries-IsAround_example :
    IsAround (outage_start + 123_456_789) (get_window_boundaries (outage_start + 123_456_789))
get_window_boundaries-IsAround_example = get_window_boundaries-IsAround (outage_start + 123_456_789)

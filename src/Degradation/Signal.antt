-- ===== src/Degradation/Signal.antt =====
-- src/core/degradation/signal.py. `none` is the TypeError of a missing success rate.
pub mod Laws
use revenue_degradation_reco.Prelude.{ℕ, Option, none, some, Bool, true, false, ◌&&◌, if◌then◌else◌}
use revenue_degradation_reco.Prelude.Float.{Float}
use revenue_degradation_reco.Degradation.Models.{
  SignalType, normal, bad, low_volume, no_baseline, PaymentHealthSnapshot, DegradationSignal,
}

-- What the branches of `evaluate_snapshot` decide.
pub record Verdict {ℓ} (W : Type ℓ) : Type ℓ where
  pub signal_type : SignalType
  pub absolute_drop : Option W
  pub relative_drop : Option W

module _ {ℓ} {W : Type ℓ} ⦃f : Float W⦄ where
  -- The last `else`: both drops are computed, and tested against the thresholds.
  compare_rates : W → W → Verdict W
  compare_rates baseline current =
      let absolute_drop = f.sub baseline current in
      let relative_drop =
        if f.lt (f.lit 0 1) baseline then f.div absolute_drop baseline else f.lit 0 1 in
      let is_bad =
        if f.lt baseline (f.lit 5 100)
        then f.le (f.lit 5 100) absolute_drop
        else f.le (f.lit 5 100) absolute_drop && f.le (f.lit 10 100) relative_drop in
      record {
        signal_type = if is_bad then bad else normal;
        absolute_drop = some absolute_drop;
        relative_drop = some relative_drop;
      }

  judge : Option W → Bool → Option W → Option (Verdict W)
  judge none insufficient current =
      some (record { signal_type = no_baseline; absolute_drop = none; relative_drop = none })
  judge (some baseline) true current =
      some (record { signal_type = low_volume; absolute_drop = none; relative_drop = none })
  judge (some baseline) false none = none
  judge (some baseline) false (some current) = some (compare_rates baseline current)

  -- The UUID that `uuid4` draws comes last.
  unfoldable pub evaluate_snapshot :
      PaymentHealthSnapshot W → ℕ → ℕ → ℕ → Option (DegradationSignal W)
  unfolding judge compare_rates
  evaluate_snapshot snapshot evaluation_version evaluation_timestamp signal_id =
      elim (judge snapshot.baseline_success_rate snapshot.insufficient_volume
        snapshot.success_rate) [
          | none ↦ none
          | some v ↦ some (record {
            signal_id = signal_id;
            snapshot_id = snapshot.snapshot_id;
            segment_dimension = snapshot.segment_dimension;
            segment_value = snapshot.segment_value;
            window_start = snapshot.window_start;
            evaluation_version = evaluation_version;
            signal_type = v.signal_type;
            baseline_success_rate = snapshot.baseline_success_rate;
            absolute_drop = v.absolute_drop;
            relative_drop = v.relative_drop;
            evaluation_timestamp = evaluation_timestamp;
          })
        ]

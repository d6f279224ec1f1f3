-- ===== src/Degradation/Signal/Laws.antt =====
-- When `evaluate_snapshot` reports a bad window, and that it reports at all.
use revenue_degradation_reco.Prelude.{
  ℕ, ◌≡◌, ◌↔◌, ◌⊎◌, refl, sym, ◌∙◌, inl, inr, Option, Option-cases, none, some, Bool, true, false,
  arith,
}
use revenue_degradation_reco.Prelude.Float.{Float}
use revenue_degradation_reco.Degradation.Models.{bad, PaymentHealthSnapshot, DegradationSignal}
use revenue_degradation_reco.Degradation.Signal.{Verdict, judge, compare_rates, evaluate_snapshot}
use revenue_degradation_reco.Degradation.Timeline.Invariant.{IsMeasured}

module _ {ℓ} {W : Type ℓ} ⦃f : Float W⦄ where
  -- The drop of the success rate and its size relative to the baseline.
  abbrev pub relative : W → W → W
  relative baseline current = f.div (f.sub baseline current) baseline

  -- A window is bad: volume enough, a drop of at least 0.05 and, where the baseline is at least
  -- 0.05, a relative drop of at least 0.10 (0.0 where the baseline is not positive).
  pub record BadWindow (s : PaymentHealthSnapshot W) : Type ℓ where
    pub baseline : W
    pub current : W
    pub has_baseline : s.baseline_success_rate ≡ some baseline
    pub has_rate : s.success_rate ≡ some current
    pub volume : s.insufficient_volume ≡ false
    pub drop : f.le (f.lit 5 100) (f.sub baseline current) ≡ true
    pub relative_drop :
        (f.lt baseline (f.lit 5 100) ≡ true)
        ⊎ (f.lt (f.lit 0 1) baseline ≡ true)
          × (f.le (f.lit 10 100) (relative baseline current) ≡ true)
        ⊎ (f.lt (f.lit 0 1) baseline ≡ false) × (f.le (f.lit 10 100) (f.lit 0 1) ≡ true)

  -- The record above, read off the three values that decide.
  judge-bad :
      (s : PaymentHealthSnapshot W) (rb rc : Option W) (low : Bool) (v : Verdict W)
      → s.baseline_success_rate ≡ rb
      → s.insufficient_volume ≡ low
      → s.success_rate ≡ rc
      → judge rb low rc ≡ some v
      → v.signal_type ≡ bad
      → BadWindow s × ((d : W) × (v.absolute_drop ≡ some d))
  unfolding judge compare_rates
  judge-bad s none rc low v eb el ec e b = absurd (ground arith)
  judge-bad s (some x) rc true v eb el ec e b = absurd (ground arith)
  judge-bad s (some x) none false v eb el ec e b = absurd (ground arith)
  judge-bad s (some x) (some y) false v eb el ec e b = (
    record {
      baseline = x;
      current = y;
      has_baseline = eb;
      has_rate = ec;
      volume = el;
      drop = ground arith;
      relative_drop = ground arith;
    },
    (f.sub x y, ground arith),
  )

  module _ (s : PaymentHealthSnapshot W) (version at id : ℕ) (signal : DegradationSignal W)
      (e : evaluate_snapshot s version at id ≡ some signal) where
    verdict_of :
        (v : Verdict W) × (judge s.baseline_success_rate s.insufficient_volume s.success_rate
          ≡ some v)
        × (signal.signal_type ≡ v.signal_type)
        × (signal.absolute_drop ≡ v.absolute_drop)
    unfolding evaluate_snapshot
    verdict_of =
        elim (Option-cases (judge s.baseline_success_rate s.insufficient_volume s.success_rate)) [
          | inl raised ↦ absurd (ground arith)
          | inr (v, j) ↦ (v, j, ground arith, ground arith)
        ]

    -- A snapshot that is evaluated without an error gives a BAD signal exactly when it is a bad window:
    -- of sufficient volume, with a drop of at least 0.05 and, where the baseline is at least 0.05, a
    -- relative drop of at least 0.10.
    pub evaluate_snapshot-BadWindow : (signal.signal_type ≡ bad) ↔ BadWindow s
    unfolding evaluate_snapshot
    evaluate_snapshot-BadWindow = (
      (λ b. let (v, j, t, d) = verdict_of in (judge-bad s _ _ _ v refl refl refl j (sym t ∙ b)).0),
      λ b. ground (arith, b.has_baseline, b.has_rate, b.volume, b.drop, b.relative_drop),
    )

    -- A signal that is reported bad carries its drop.
    pub evaluate_snapshot-IsMeasured : IsMeasured signal
    evaluate_snapshot-IsMeasured b =
        let (v, j, t, d) = verdict_of in
        let (drop, e') = (judge-bad s _ _ _ v refl refl refl j (sym t ∙ b)).1 in (drop, d ∙ e')

  -- A snapshot is evaluated without an error if its volume is insufficient, or it has a success rate.
  pub evaluate_snapshot_total :
      (s : PaymentHealthSnapshot W) (version at id : ℕ)
      → (s.insufficient_volume ≡ true) ⊎ ((c : W) × (s.success_rate ≡ some c))
      → (signal : DegradationSignal W) × (evaluate_snapshot s version at id ≡ some signal)
  unfolding evaluate_snapshot
  evaluate_snapshot_total s version at id h =
      elim (Option-cases (evaluate_snapshot s version at id)) [
        | inl raised ↦ absurd (ground arith)
        | inr found ↦ found
      ]

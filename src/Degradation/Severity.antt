-- ===== src/Degradation/Severity.antt =====
-- src/core/degradation/severity.py
pub mod Laws
use revenue_degradation_reco.Prelude.{ℕ, Option, none, some, ◌&&◌, ◌||◌, ltb, if◌then◌else◌}
use revenue_degradation_reco.Prelude.Float.{Float}
use revenue_degradation_reco.Degradation.Models.{
  DegradationSignal, Severity, moderate, high, critical,
}

module _ {ℓ} {W : Type ℓ} ⦃f : Float W⦄ where
  -- The two tests on the drops; the arguments are the drops and the baseline rate.
  unfoldable pub severity_of_drops : W → W → W → Severity
  severity_of_drops abs_drop rel_drop baseline =
      let is_critical =
        f.le (f.lit 30 100) abs_drop
        || (f.le (f.lit 5 100) baseline && f.le (f.lit 50 100) rel_drop) in
      let is_high =
        f.le (f.lit 15 100) abs_drop
        || (f.le (f.lit 5 100) baseline && f.le (f.lit 25 100) rel_drop) in
      if is_critical then critical else if is_high then high else moderate

  severity_of : Option W → Option W → W → Severity
  severity_of (some a) (some r) baseline = severity_of_drops a r baseline
  severity_of _ _ baseline = moderate

  unfoldable pub evaluate_severity : DegradationSignal W → W → Severity
  unfolding severity_of severity_of_drops
  evaluate_severity signal baseline = severity_of signal.absolute_drop signal.relative_drop baseline

-- The dictionary `order`.
abbrev pub order : Severity → ℕ
order moderate = 1
order high = 2
order critical = 3

unfoldable pub escalate_severity : Severity → Severity → Severity
escalate_severity current proposed =
    if ltb (order current) (order proposed) then proposed else current

-- ===== src/Degradation/Severity/Laws.antt =====
-- What severity.py promises: escalation is a maximum, and a larger drop is never less severe.
use revenue_degradation_reco.Prelude.{◌≤◌, ◌≡◌, ◌↔◌, true, arith, some}
use revenue_degradation_reco.Prelude.Float.{Float, IsOrdered}
use revenue_degradation_reco.Degradation.Models.{Severity, DegradationSignal}
use revenue_degradation_reco.Degradation.Severity.{evaluate_severity, order, escalate_severity}

-- `escalate_severity` is the least severity that is at least both of its arguments.
pub escalate_severity_max :
    (current proposed s : Severity)
    → (order (escalate_severity current proposed) ≤ order s)
      ↔ ((order current ≤ order s) × (order proposed ≤ order s))
unfolding escalate_severity
escalate_severity_max current proposed s = ground arith

pub escalate_severity_ge :
    (current proposed : Severity)
    → (order current ≤ order (escalate_severity current proposed))
      × (order proposed ≤ order (escalate_severity current proposed))
unfolding escalate_severity
escalate_severity_ge current proposed = ground arith

module _ {ℓ} {W : Type ℓ} ⦃f : Float W⦄ (o : IsOrdered W) where
  -- Where both signals carry both drops and the floats are ordered, a signal whose two drops are at
  -- least those of another is at least as severe, against the same baseline.
  pub evaluate_severity_mono :
      (s t : DegradationSignal W) (baseline a r b q : W)
      → s.absolute_drop ≡ some a
      → s.relative_drop ≡ some r
      → t.absolute_drop ≡ some b
      → t.relative_drop ≡ some q
      → f.le a b ≡ true
      → f.le r q ≡ true
      → order (evaluate_severity s baseline) ≤ order (evaluate_severity t baseline)
  unfolding evaluate_severity
  evaluate_severity_mono s t baseline a r b q sa sr tb tq ab rq = ground (
    arith,
    o.le_trans (f.lit 30 100) a b,
    o.le_trans (f.lit 50 100) r q,
    o.le_trans (f.lit 15 100) a b,
    o.le_trans (f.lit 25 100) r q,
  )

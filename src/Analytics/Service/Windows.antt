-- ===== src/Analytics/Service/Windows.antt =====
-- The windows of src/core/analytics/service.py.
use revenue_degradation_reco.Prelude.{ℕ, ◌+◌, ◌*◌, ◌/◌, ◌<◌, ◌≤◌, ◌≡◌, refl, arith}
use revenue_degradation_reco.Analytics.Service.{get_window_boundaries}

-- A window of five minutes, from a multiple of five minutes, that the instant falls into.
pub record IsAround (dt : ℕ) (window : ℕ × ℕ) : Type 0 where
  pub starts : window.0 ≤ dt
  pub ends : dt < window.1
  pub long : window.1 ≡ window.0 + 300_000_000
  pub aligned : window.0 ≡ window.0 / 300_000_000 * 300_000_000

-- Every instant falls into the window that is found for it.
pub get_window_boundaries-IsAround : (dt : ℕ) → IsAround dt (get_window_boundaries dt)
unfolding get_window_boundaries
get_window_boundaries-IsAround dt = record {
  starts = omega arith;
  ends = omega arith;
  long = refl;
  aligned = omega arith;
}

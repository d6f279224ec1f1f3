-- ===== src/Degradation/Timeline/Rounds.antt =====
-- Each round of the loop of `reconcile_timeline` (src/core/degradation/state_machine.py) succeeds and keeps
-- the invariant.
use mathlib.Core.Path.{subst}
use mathlib.Core.List.{append-nil, append_assoc}
use revenue_degradation_reco.Prelude.{
  ℕ, ◌≤◌, ◌≡◌, refl, sym, String, some, List, [], ◌∷◌, ◌++◌, All,
}
use revenue_degradation_reco.Prelude.Float.{Float}
use revenue_degradation_reco.Degradation.Models.{
  StateMachineState, healthy, bad_pending, degraded, recovery_pending, DegradationSignal,
  DegradationEpisode,
}
use revenue_degradation_reco.Degradation.Timeline.{
  Scan, note_bad, transition, scan_signal, scan_from,
}
use revenue_degradation_reco.Degradation.Timeline.Invariant.{
  IsMeasured, Closed, Phase, Inv, Chronological,
}
use revenue_degradation_reco.Degradation.Timeline.Runs.{Stretch-snoc}
use revenue_degradation_reco.Degradation.Timeline.Unopened.{Goes, healthy-Goes, bad_pending-Goes}
use revenue_degradation_reco.Degradation.Timeline.Opened.{degraded-Goes, recovery_pending-Goes}

module _ {ℓ} {W : Type ℓ} ⦃f : Float W⦄ where
  -- What is closed stays closed after one more signal.
  Closed-snoc :
      (seen : List (DegradationSignal W)) (x : DegradationSignal W)
      (eps : List (DegradationEpisode W))
      → All (Closed seen) eps
      → All (Closed (seen ++ x ∷ [])) eps
  Closed-snoc seen x [] c = tt
  Closed-snoc seen x (ep ∷ eps) c = (
    record {
      status = c.0.status;
      s = c.0.s;
      later = c.0.later;
      summary = c.0.summary;
      stretch = Stretch-snoc seen (c.0.s ∷ c.0.later) x c.0.stretch;
      ended = c.0.ended;
      in_order = c.0.in_order;
    },
    Closed-snoc seen x eps c.1,
  )

module _ {ℓ} {W : Type ℓ} ⦃f : Float W⦄ (episode_id_of : String → String → ℕ → ℕ)
    (dim value : String) where
  transition-Goes :
      (seen : List (DegradationSignal W)) (k : StateMachineState) (x : DegradationSignal W)
      (m : Scan W) (now : ℕ)
      → m.current_state ≡ k
      → Phase seen k m now
      → All (Closed (seen ++ x ∷ [])) m.episodes
      → IsMeasured x
      → now ≤ x.window_start
      → Goes seen episode_id_of dim value x
          (transition episode_id_of dim value k x.signal_type x m)
          x.signal_type
  transition-Goes seen healthy x m now st p c meas le =
      healthy-Goes seen episode_id_of dim value x.signal_type x m now st p c refl meas le
  transition-Goes seen bad_pending x m now st p c meas le =
      bad_pending-Goes seen episode_id_of dim value x.signal_type x m now st p c refl le
  transition-Goes seen degraded x m now st p c meas le =
      degraded-Goes seen episode_id_of dim value x.signal_type x m now st p c refl le
  transition-Goes seen recovery_pending x m now st p c meas le =
      recovery_pending-Goes seen episode_id_of dim value x.signal_type x m now st p.0 p.1 c refl le

  -- A round does not raise, and keeps the invariant.
  pub scan_signal-Inv :
      (seen : List (DegradationSignal W)) (m : Scan W) (x : DegradationSignal W) (now : ℕ)
      → Inv seen m now
      → IsMeasured x
      → now ≤ x.window_start
      → (m' : Scan W) × (scan_signal episode_id_of dim value m x ≡ some m')
        × Inv (seen ++ x ∷ []) m' x.window_start
  unfolding scan_signal
  scan_signal-Inv seen m x now i meas le =
      let (m', e, i') =
        transition-Goes seen m.current_state x m now refl i.phase
          (Closed-snoc seen x m.episodes i.closed) meas le in
      (note_bad x.signal_type x.window_start m', rw (scan_signal, e), i')

  -- Neither does the loop.
  pub scan_from-Inv :
      (seen : List (DegradationSignal W)) (m : Scan W) (signals : List (DegradationSignal W))
      (now : ℕ)
      → Inv seen m now
      → All IsMeasured signals
      → Chronological now signals
      → (m' : Scan W) × (scan_from episode_id_of dim value m signals ≡ some m')
        × (t : ℕ) × Inv (seen ++ signals) m' t
  unfolding scan_from
  scan_from-Inv seen m [] now i meas chron =
      (m, refl, now, subst (λ l. Inv l m now) (sym (append-nil seen)) i)
  scan_from-Inv seen m (x ∷ rest) now i meas chron =
      let (m', e, i') = scan_signal-Inv seen m x now i meas.0 chron.0 in
      let (m'', e', t, i'') =
        scan_from-Inv (seen ++ x ∷ []) m' rest x.window_start i' meas.1 chron.1 in
      (m'', rw (scan_from, e) e', t, subst (λ l. Inv l m'' t) (append_assoc seen (x ∷ []) rest) i'')

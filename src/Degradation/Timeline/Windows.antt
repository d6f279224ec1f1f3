-- ===== src/Degradation/Timeline/Windows.antt =====
-- The bad windows that episodes count are bad signals of the timeline, each counted once at most.
use revenue_degradation_reco.Prelude.{
  ℕ, ◌+◌, ◌≤◌, ◌≡◌, refl, sym, ◌∙◌, String, Option, none, some, List, [], ◌∷◌, ◌++◌, arith, All,
  count_if, if◌then◌else◌, Option-cases, inl, inr,
}
use revenue_degradation_reco.Degradation.Timeline.Runs.{is_bad}
use revenue_degradation_reco.Degradation.Timeline.Invariant.{IsMeasured, Phase, Chronological}
use revenue_degradation_reco.Degradation.Timeline.Rounds.{scan_from-Inv}
use revenue_degradation_reco.Degradation.Timeline.Episodes.{Inv-start}
use revenue_degradation_reco.Prelude.Float.{Float}
use revenue_degradation_reco.Degradation.Models.{
  recovered, StateMachineState, healthy, bad_pending, degraded, recovery_pending, DegradationSignal,
  DegradationEpisode,
}
use revenue_degradation_reco.Degradation.Timeline.{
  Scan, start, all_episodes, scan_signal, scan_from, reconcile_timeline,
}

module _ {ℓ} {W : Type ℓ} ⦃f : Float W⦄ where
  -- The windows that a list of episodes counts.
  abbrev pub windows : List (DegradationEpisode W) → ℕ
  windows [] = 0
  windows (ep ∷ eps) = ep.affected_window_count + windows eps

  abbrev pub bad_windows : List (DegradationSignal W) → ℕ
  bad_windows = count_if (λ s. is_bad s.signal_type)

  windows-append :
      (xs ys : List (DegradationEpisode W)) → windows (xs ++ ys) ≡ windows xs + windows ys
  windows-append [] ys = omega arith
  windows-append (x ∷ xs) ys = omega (arith, windows-append xs ys)

  -- The windows of the run at hand.
  abbrev in_progress : StateMachineState → ℕ → Option (DegradationEpisode W) → ℕ
  in_progress healthy n ep = 0
  in_progress bad_pending n ep = n
  in_progress _ n none = 0
  in_progress _ n (some ep) = ep.affected_window_count

  abbrev weight : Scan W → ℕ
  weight m = windows m.episodes + in_progress m.current_state m.persistence_count m.current_episode

  module _ (episode_id_of : String → String → ℕ → ℕ) (dim value : String) where
    scan_signal-weight :
        (m : Scan W) (x : DegradationSignal W) (m' : Scan W)
        → scan_signal episode_id_of dim value m x ≡ some m'
        → weight m' ≤ weight m + (if is_bad x.signal_type then 1 else 0)
    unfolding scan_signal
    scan_signal-weight m x m' e = elim (Option-cases m.current_episode) [
      | inl gone ↦ ground arith
      | inr (ep, here) ↦ ground (
        arith,
        windows-append m.episodes
            (record ep { status = recovered; ended_at_window = m.last_bad_window } ∷ []),
      )
    ]

    scan_from-step :
        (m : Scan W) (x : DegradationSignal W) (rest : List (DegradationSignal W)) (m1 : Scan W)
        → scan_signal episode_id_of dim value m x ≡ some m1
        → scan_from episode_id_of dim value m (x ∷ rest) ≡ scan_from episode_id_of dim value m1 rest
    unfolding scan_from
    scan_from-step m x rest m1 e = rw (scan_from, e)

    scan_from-weight :
        (m : Scan W) (xs : List (DegradationSignal W)) (m' : Scan W)
        → scan_from episode_id_of dim value m xs ≡ some m'
        → weight m' ≤ weight m + bad_windows xs
    unfolding scan_from
    scan_from-weight m [] m' e = ground arith
    scan_from-weight m (x ∷ rest) m' e =
        elim (Option-cases (scan_signal episode_id_of dim value m x)) [
          | inl raised ↦ ground arith
          | inr (m1, step) ↦
              let now = scan_signal-weight m x m1 step in
              let later = scan_from-weight m1 rest m' (sym (scan_from-step m x rest m1 step) ∙ e) in
              ground arith
        ]

  -- What an invariant state returns weighs what the state does, up to a run too short to count.
  windows-all_episodes :
      (seen : List (DegradationSignal W)) (k : StateMachineState) (m : Scan W) (now : ℕ)
      → m.current_state ≡ k
      → Phase seen k m now
      → windows (all_episodes m) ≤ weight m
  windows-all_episodes seen healthy m now st p = rw p (omega arith)
  windows-all_episodes seen bad_pending m now st p = rw p.no_episode (omega arith)
  windows-all_episodes seen degraded m now st p =
      ground (arith, p.current, windows-append m.episodes (p.ep ∷ []))
  windows-all_episodes seen recovery_pending m now st p =
      ground (arith, p.0.current, windows-append m.episodes (p.0.ep ∷ []))

  -- On a chronological timeline whose bad signals carry their drops, the windows that all returned
  -- episodes count together are at most the bad signals of the timeline: none is counted twice.
  pub windows-reconcile_timeline :
      (episode_id_of : String → String → ℕ → ℕ) (signals : List (DegradationSignal W))
      → All IsMeasured signals
      → Chronological 0 signals
      → (eps : List (DegradationEpisode W)) × (reconcile_timeline episode_id_of signals ≡ some eps)
        × (windows eps ≤ bad_windows signals)
  unfolding reconcile_timeline
  windows-reconcile_timeline ids [] meas chron = ([], refl, omega arith)
  windows-reconcile_timeline ids (x ∷ rest) meas chron =
      let (m, e, now, i) =
        scan_from-Inv ids x.segment_dimension x.segment_value [] start (x ∷ rest) 0 Inv-start meas
          chron in
      let counted = scan_from-weight ids x.segment_dimension x.segment_value start (x ∷ rest) m e in
      let kept = windows-all_episodes (x ∷ rest) m.current_state m now refl i.phase in
      (all_episodes m, rw (reconcile_timeline, e), omega (arith, counted, kept))

-- ===== src/Degradation/Timeline/Episodes.antt =====
-- What `reconcile_timeline` returns.
use revenue_degradation_reco.Prelude.{
  ℕ, ◌≡◌, refl, String, none, some, List, [], ◌∷◌, ◌++◌, All, ◌⊎◌, inl, inr,
}
use revenue_degradation_reco.Degradation.Timeline.Runs.{Run}
use revenue_degradation_reco.Prelude.Float.{Float}
use revenue_degradation_reco.Degradation.Models.{
  active, healthy, bad_pending, degraded, recovery_pending, StateMachineState, DegradationSignal,
  DegradationEpisode,
}
use revenue_degradation_reco.Degradation.Timeline.{Scan, start, all_episodes, reconcile_timeline}
use revenue_degradation_reco.Degradation.Timeline.Invariant.{
  IsMeasured, Summary, Closed, Open, Phase, Inv, Chronological,
}
use revenue_degradation_reco.Degradation.Timeline.Rounds.{scan_from-Inv}

module _ {ℓ} {W : Type ℓ} ⦃f : Float W⦄ (signals : List (DegradationSignal W)) where
  -- An episode that is still open.
  pub record Running (ep : DegradationEpisode W) : Type ℓ where
    pub status : ep.status ≡ active
    pub not_ended : ep.ended_at_window ≡ none
    pub s : DegradationSignal W
    pub later : List (DegradationSignal W)
    pub summary : Summary ep s later
    pub run : Run signals (s ∷ later)

  -- Closed episodes, and at most one that is open, which comes last.
  pub record Reconciled (eps : List (DegradationEpisode W)) : Type ℓ where
    pub closed : List (DegradationEpisode W)
    pub closed_all : All (Closed signals) closed
    pub shape :
        (eps ≡ closed) ⊎ ((ep : DegradationEpisode W) × (eps ≡ closed ++ ep ∷ []) × Running ep)

  Open-Running : (m : Scan W) (now : ℕ) (p : Open signals m now) → Running p.ep
  Open-Running m now p = record {
    status = p.is_active;
    not_ended = p.not_ended;
    s = p.s;
    later = p.later;
    summary = p.summary;
    run = p.run;
  }

  no_episode_left :
      (m : Scan W)
      → m.current_episode ≡ none
      → All (Closed signals) m.episodes
      → Reconciled (all_episodes m)
  no_episode_left m e c = record { closed = m.episodes; closed_all = c; shape = inl (rw e) }

  episode_left :
      (m : Scan W) (now : ℕ)
      → Open signals m now
      → All (Closed signals) m.episodes
      → Reconciled (all_episodes m)
  episode_left m now p c = record {
    closed = m.episodes;
    closed_all = c;
    shape = inr (p.ep, rw p.current, Open-Running m now p);
  }

  all_episodes-Reconciled :
      (k : StateMachineState) (m : Scan W) (now : ℕ)
      → Phase signals k m now
      → All (Closed signals) m.episodes
      → Reconciled (all_episodes m)
  all_episodes-Reconciled healthy m now p c = no_episode_left m p c
  all_episodes-Reconciled bad_pending m now p c = no_episode_left m p.no_episode c
  all_episodes-Reconciled degraded m now p c = episode_left m now p c
  all_episodes-Reconciled recovery_pending m now p c = episode_left m now p.0 c

module _ {ℓ} {W : Type ℓ} ⦃f : Float W⦄ where
  pub Inv-start : Inv [] (start {W = W}) 0
  Inv-start = record { phase = refl; closed = tt }

  -- On a chronological timeline whose bad signals carry their drops, `reconcile_timeline` raises
  -- nothing. Every episode but perhaps the last is RECOVERED: it sums up all bad signals of a stretch
  -- of the timeline, and ends with the window of the last of them. The last may be ACTIVE, with no end,
  -- and sums up all bad signals of a stretch up to the end of the timeline. An episode sums up signals,
  -- in order and each as often as the stretch has it: they are at least three, it starts at the window
  -- of the first, its count of windows is their number, and it has their peak drop and worst severity.
  pub reconcile_timeline-Reconciled :
      (episode_id_of : String → String → ℕ → ℕ) (signals : List (DegradationSignal W))
      → All IsMeasured signals
      → Chronological 0 signals
      → (eps : List (DegradationEpisode W)) × (reconcile_timeline episode_id_of signals ≡ some eps)
        × Reconciled signals eps
  unfolding reconcile_timeline
  reconcile_timeline-Reconciled episode_id_of [] meas chron =
      ([], refl, record { closed = []; closed_all = tt; shape = inl refl })
  reconcile_timeline-Reconciled episode_id_of (x ∷ rest) meas chron =
      let (m, e, now, i) =
        scan_from-Inv episode_id_of x.segment_dimension x.segment_value [] start (x ∷ rest) 0
          Inv-start meas chron in
      (
        all_episodes m,
        rw (reconcile_timeline, e),
        all_episodes-Reconciled (x ∷ rest) m.current_state m now i.phase i.closed,
      )

-- ===== src/Degradation/Timeline/Opened.antt =====
-- The rounds of `reconcile_timeline` (src/core/degradation/state_machine.py) with an open episode keep the
-- invariant.
use revenue_degradation_reco.Prelude.{
  ℕ, ◌≤◌, ◌≡◌, refl, sym, ap, ◌∙◌, String, Option, some, List, [], ◌∷◌, ◌++◌, false, arith, All,
  All-append,
}
use revenue_degradation_reco.Prelude.Float.{Float}
use revenue_degradation_reco.Degradation.Models.{
  SignalType, normal, bad, low_volume, no_baseline, recovered, degraded, recovery_pending,
  DegradationSignal,
}
use revenue_degradation_reco.Degradation.Timeline.{Scan, worsen, transition}
use revenue_degradation_reco.Degradation.Timeline.Invariant.{
  worsen-Summary, last_window, last_window-snoc, Closed, Open,
}
use revenue_degradation_reco.Degradation.Timeline.Runs.{is_bad, Run-bad, Run-other, Run-Stretch}
use revenue_degradation_reco.Degradation.Timeline.Unopened.{Goes, at-Phase, later_Open}

module _ {ℓ} {W : Type ℓ} ⦃f : Float W⦄ (seen : List (DegradationSignal W))
    (episode_id_of : String → String → ℕ → ℕ) (dim value : String) where
  -- The open episode after one more bad window.
  worsen-Open :
      (x : DegradationSignal W) (m m' : Scan W) (now : ℕ) (p : Open seen m now)
      → m'.current_episode ≡ some (worsen x p.ep)
      → m'.last_bad_window ≡ some x.window_start
      → x.signal_type ≡ bad
      → now ≤ x.window_start
      → Open (seen ++ x ∷ []) m' x.window_start
  worsen-Open x m m' now p cur last b le = record {
    ep = worsen x p.ep;
    current = cur;
    s = p.s;
    later = p.later ++ x ∷ [];
    summary = worsen-Summary p.ep p.s p.later x p.summary b;
    is_active = p.is_active;
    not_ended = p.not_ended;
    run = Run-bad seen (p.s ∷ p.later) x (rw b refl) p.run;
    last = last ∙ ap some (sym (last_window-snoc p.s p.later x));
    in_order = omega (arith, p.before, le, last_window-snoc p.s p.later x);
    before = omega (arith, p.before);
  }

  pub degraded-Goes :
      (ty : SignalType) (x : DegradationSignal W) (m : Scan W) (now : ℕ)
      → m.current_state ≡ degraded
      → Open seen m now
      → All (Closed (seen ++ x ∷ [])) m.episodes
      → x.signal_type ≡ ty
      → now ≤ x.window_start
      → Goes seen episode_id_of dim value x (transition episode_id_of dim value degraded ty x m) ty
  unfolding transition
  degraded-Goes bad x m now st p c b le = rw p.current (
    _,
    refl,
    record {
      phase =
          at-Phase seen episode_id_of dim value x _ _ st (worsen-Open x m _ now p refl refl b le);
      closed = c;
    },
  )
  degraded-Goes normal x m now st p c b le = (
    _,
    refl,
    record {
      phase = (
        later_Open seen episode_id_of dim value x m _ now x.window_start refl refl p le (rw b refl),
        refl,
      );
      closed = c;
    },
  )
  degraded-Goes low_volume x m now st p c b le = (
    _,
    refl,
    record {
      phase = at-Phase seen episode_id_of dim value x _ _ st (
          later_Open seen episode_id_of dim value x m m now x.window_start refl refl p le
            (rw b refl));
      closed = c;
    },
  )
  degraded-Goes no_baseline x m now st p c b le = (
    _,
    refl,
    record {
      phase = at-Phase seen episode_id_of dim value x _ _ st (
          later_Open seen episode_id_of dim value x m m now x.window_start refl refl p le
            (rw b refl));
      closed = c;
    },
  )

  -- A normal window while recovery is pending ends the episode: the count reaches two.
  close-Closed :
      (x : DegradationSignal W) (m : Scan W) (now : ℕ) (p : Open seen m now) (ended : Option ℕ)
      → is_bad x.signal_type ≡ false
      → ended ≡ some (last_window p.s p.later)
      → Closed (seen ++ x ∷ []) (record p.ep { status = recovered; ended_at_window = ended })
  close-Closed x m now p ended other last = record {
    status = refl;
    s = p.s;
    later = p.later;
    summary = record {
      started = p.summary.started;
      counted = p.summary.counted;
      persistent = p.summary.persistent;
      peak = p.summary.peak;
      worst = p.summary.worst;
      all_bad = p.summary.all_bad;
      measured = p.summary.measured;
    };
    stretch =
        Run-Stretch (seen ++ x ∷ []) (p.s ∷ p.later) (Run-other seen (p.s ∷ p.later) x other p.run);
    ended = last;
    in_order = p.in_order;
  }

  pub recovery_pending-Goes :
      (ty : SignalType) (x : DegradationSignal W) (m : Scan W) (now : ℕ)
      → m.current_state ≡ recovery_pending
      → Open seen m now
      → m.recovery_count ≡ 1
      → All (Closed (seen ++ x ∷ [])) m.episodes
      → x.signal_type ≡ ty
      → now ≤ x.window_start
      → Goes seen episode_id_of dim value x
          (transition episode_id_of dim value recovery_pending ty x m)
          ty
  unfolding transition
  recovery_pending-Goes bad x m now st p one c b le =
      rw p.current (_, refl, record { phase = worsen-Open x m _ now p refl refl b le; closed = c })
  recovery_pending-Goes normal x m now st p one c b le =
      rw (one, p.current)
        (
          _,
          refl,
          record {
            phase = refl;
            closed =
                All-append (Closed (seen ++ x ∷ [])) m.episodes _ c
                  (close-Closed x m now p m.last_bad_window (rw b refl) p.last, tt);
          },
        )
  recovery_pending-Goes low_volume x m now st p one c b le = (
    _,
    refl,
    record {
      phase = at-Phase seen episode_id_of dim value x _ _ st (
        later_Open seen episode_id_of dim value x m m now x.window_start refl refl p le (rw b refl),
        one,
      );
      closed = c;
    },
  )
  recovery_pending-Goes no_baseline x m now st p one c b le = (
    _,
    refl,
    record {
      phase = at-Phase seen episode_id_of dim value x _ _ st (
        later_Open seen episode_id_of dim value x m m now x.window_start refl refl p le (rw b refl),
        one,
      );
      closed = c;
    },
  )

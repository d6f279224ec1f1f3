-- ===== src/Degradation/Timeline/Unopened.antt =====
-- The rounds of `reconcile_timeline` (src/core/degradation/state_machine.py) without an open episode keep
-- the invariant.
use revenue_degradation_reco.Prelude.{
  ℕ, suc, ◌≤◌, ◌<◌, ◌≡◌, refl, sym, ◌∙◌, String, Option, none, some, List, [], ◌∷◌, ◌++◌, false,
  arith, length, All,
}
use mathlib.Core.Path.{subst}
use revenue_degradation_reco.Prelude.Float.{Float}
use revenue_degradation_reco.Degradation.Models.{
  SignalType, normal, bad, low_volume, no_baseline, StateMachineState, healthy, bad_pending,
  DegradationSignal,
}
use revenue_degradation_reco.Degradation.Timeline.Runs.{is_bad, Run, Run-first, Run-bad, Run-other}
use revenue_degradation_reco.Degradation.Timeline.{Scan, note_bad, transition}
use revenue_degradation_reco.Degradation.Timeline.Invariant.{
  IsMeasured, IsBad, Closed, Pending, Open, Phase, Inv,
}

module _ {ℓ} {W : Type ℓ} ⦃f : Float W⦄ (seen : List (DegradationSignal W))
    (episode_id_of : String → String → ℕ → ℕ) (dim value : String) where
  -- What a round owes: it does not raise, and the invariant holds of what it leaves.
  abbrev pub Goes : DegradationSignal W → Option (Scan W) → SignalType → Type ℓ
  Goes x r ty =
      (m' : Scan W) × (r ≡ some m')
      × Inv (seen ++ x ∷ []) (note_bad ty x.window_start m') x.window_start

  pub at-Phase :
      {k : StateMachineState} (x : DegradationSignal W) (m : Scan W) (w : ℕ)
      → m.current_state ≡ k
      → Phase (seen ++ x ∷ []) k m w
      → Phase (seen ++ x ∷ []) m.current_state m w
  at-Phase x m w e p = subst (λ k. Phase (seen ++ x ∷ []) k m w) (sym e) p

  pub healthy-Goes :
      (ty : SignalType) (x : DegradationSignal W) (m : Scan W) (now : ℕ)
      → m.current_state ≡ healthy
      → m.current_episode ≡ none
      → All (Closed (seen ++ x ∷ [])) m.episodes
      → x.signal_type ≡ ty
      → IsMeasured x
      → now ≤ x.window_start
      → Goes x (transition episode_id_of dim value healthy ty x m) ty
  unfolding transition
  healthy-Goes bad x m now st p c b meas le = (
    _,
    refl,
    record {
      phase = record {
        s = x;
        later = [];
        pending = refl;
        no_episode = p;
        first = refl;
        counted = refl;
        short = omega arith;
        run = Run-first seen x (rw b refl);
        all_bad = (b, tt);
        measured = meas b;
        before = omega arith;
      };
      closed = c;
    },
  )
  healthy-Goes normal x m now st p c b meas le =
      (_, refl, record { phase = at-Phase x _ _ st p; closed = c })
  healthy-Goes low_volume x m now st p c b meas le =
      (_, refl, record { phase = at-Phase x _ _ st p; closed = c })
  healthy-Goes no_baseline x m now st p c b meas le =
      (_, refl, record { phase = at-Phase x _ _ st p; closed = c })

  later_Pending :
      (x : DegradationSignal W) (m : Scan W) (now w : ℕ)
      → Pending seen m now
      → now ≤ w
      → is_bad x.signal_type ≡ false
      → Pending (seen ++ x ∷ []) m w
  later_Pending x m now w p le other = record {
    s = p.s;
    later = p.later;
    pending = p.pending;
    no_episode = p.no_episode;
    first = p.first;
    counted = p.counted;
    short = p.short;
    run = Run-other seen (p.s ∷ p.later) x other p.run;
    all_bad = p.all_bad;
    measured = p.measured;
    before = omega (arith, p.before);
  }

  pub later_Open :
      (x : DegradationSignal W) (m m' : Scan W) (now w : ℕ)
      → m'.current_episode ≡ m.current_episode
      → m'.last_bad_window ≡ m.last_bad_window
      → Open seen m now
      → now ≤ w
      → is_bad x.signal_type ≡ false
      → Open (seen ++ x ∷ []) m' w
  later_Open x m m' now w cur last p le other = record {
    ep = p.ep;
    current = cur ∙ p.current;
    s = p.s;
    later = p.later;
    summary = p.summary;
    is_active = p.is_active;
    not_ended = p.not_ended;
    run = Run-other seen (p.s ∷ p.later) x other p.run;
    last = last ∙ p.last;
    in_order = p.in_order;
    before = omega (arith, p.before);
  }

  bad_pending_bad :
      (x : DegradationSignal W) (m : Scan W) (now : ℕ) (s : DegradationSignal W)
      (later : List (DegradationSignal W))
      → m.current_state ≡ bad_pending
      → m.pending_signals ≡ s ∷ later
      → m.current_episode ≡ none
      → m.first_bad_window ≡ some s.window_start
      → m.persistence_count ≡ suc (length later)
      → suc (length later) < 3
      → Run seen (s ∷ later)
      → All IsBad (s ∷ later)
      → ((d : W) × (s.absolute_drop ≡ some d))
      → s.window_start ≤ x.window_start
      → All (Closed (seen ++ x ∷ [])) m.episodes
      → x.signal_type ≡ bad
      → Goes x (transition episode_id_of dim value bad_pending bad x m) bad
  unfolding transition
  bad_pending_bad x m now s [] st pend ep first n short run bads meas le c b =
      rw (n, pend)
        (
          _,
          refl,
          record {
            phase = at-Phase x _ _ st (record {
              s = s;
              later = x ∷ [];
              pending = refl;
              no_episode = ep;
              first = first;
              counted = refl;
              short = omega arith;
              run = Run-bad seen (s ∷ []) x (rw b refl) run;
              all_bad = (bads.0, (b, tt));
              measured = meas;
              before = le;
            });
            closed = c;
          },
        )
  bad_pending_bad x m now s (y ∷ []) st pend ep first n short run bads meas le c b =
      rw (n, first, n, pend)
        (
          _,
          refl,
          record {
            phase = record {
              ep = _;
              current = refl;
              s = s;
              later = y ∷ x ∷ [];
              run = Run-bad seen (s ∷ y ∷ []) x (rw b refl) run;
              summary = record {
                started = refl;
                counted = refl;
                persistent = omega arith;
                peak = refl;
                worst = refl;
                all_bad = (bads.0, (bads.1.0, (b, tt)));
                measured = meas;
              };
              is_active = refl;
              not_ended = refl;
              last = refl;
              in_order = le;
              before = le;
            };
            closed = c;
          },
        )
  bad_pending_bad x m now s (y ∷ z ∷ rest) st pend ep first n short run bads meas le c b =
      absurd (omega arith)

  pub bad_pending-Goes :
      (ty : SignalType) (x : DegradationSignal W) (m : Scan W) (now : ℕ)
      → m.current_state ≡ bad_pending
      → Pending seen m now
      → All (Closed (seen ++ x ∷ [])) m.episodes
      → x.signal_type ≡ ty
      → now ≤ x.window_start
      → Goes x (transition episode_id_of dim value bad_pending ty x m) ty
  unfolding transition
  bad_pending-Goes bad x m now st p c b le =
      bad_pending_bad x m now p.s p.later st p.pending p.no_episode p.first p.counted p.short p.run
        p.all_bad p.measured (omega (arith, p.before)) c b
  bad_pending-Goes normal x m now st p c b le =
      (_, refl, record { phase = p.no_episode; closed = c })
  bad_pending-Goes low_volume x m now st p c b le = (
    _,
    refl,
    record {
      phase = at-Phase x _ _ st (later_Pending x m now x.window_start p le (rw b refl));
      closed = c;
    },
  )
  bad_pending-Goes no_baseline x m now st p c b le = (
    _,
    refl,
    record {
      phase = at-Phase x _ _ st (later_Pending x m now x.window_start p le (rw b refl));
      closed = c;
    },
  )

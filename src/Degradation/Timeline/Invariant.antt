-- ===== src/Degradation/Timeline/Invariant.antt =====
-- What holds of the loop of `reconcile_timeline` after each round: the open episode sums up the bad
-- signals of a stretch up to the last signal seen, and the closed ones those of a stretch before.
use revenue_degradation_reco.Prelude.{
  ℕ, suc, ◌≤◌, ◌<◌, ◌≡◌, refl, none, some, List, [], ◌∷◌, ◌++◌, arith, length, length-append, All,
  All-append, if◌then◌else◌,
}
use revenue_degradation_reco.Prelude.Float.{Float}
use revenue_degradation_reco.Degradation.Models.{
  bad, active, recovered, moderate, StateMachineState, healthy, bad_pending, degraded,
  recovery_pending, DegradationSignal, DegradationEpisode, Severity,
}
use revenue_degradation_reco.Degradation.Severity.{evaluate_severity, escalate_severity}
use revenue_degradation_reco.Degradation.Timeline.Runs.{Run, Stretch}
use revenue_degradation_reco.Degradation.Timeline.{
  Scan, or_zero, max_drop_from, max_drop, worst_severity, worsen,
}

module _ {ℓ} {W : Type ℓ} ⦃f : Float W⦄ where
  -- A bad signal carries its drop, as `evaluate_snapshot` makes it.
  abbrev pub IsMeasured : DegradationSignal W → Type ℓ
  IsMeasured s = s.signal_type ≡ bad → (d : W) × (s.absolute_drop ≡ some d)

  -- The windows do not go back in time.
  abbrev pub Chronological : ℕ → List (DegradationSignal W) → Type 0
  Chronological now [] = Unit
  Chronological now (x ∷ rest) = (now ≤ x.window_start) × Chronological x.window_start rest

  max_drop_from-snoc :
      (peak : W) (xs : List (DegradationSignal W)) (s : DegradationSignal W)
      → max_drop_from peak (xs ++ s ∷ []) ≡ elim s.absolute_drop [
        | none ↦ max_drop_from peak xs
        | some d ↦ if f.lt (max_drop_from peak xs) d then d else max_drop_from peak xs
      ]
  max_drop_from-snoc peak [] s = refl
  max_drop_from-snoc peak (x ∷ xs) s =
      max_drop_from-snoc
        (elim x.absolute_drop [ none ↦ peak | some d ↦ if f.lt peak d then d else peak ]) xs s

  worst_severity-snoc :
      (sev : Severity) (xs : List (DegradationSignal W)) (s : DegradationSignal W)
      → worst_severity sev (xs ++ s ∷ [])
        ≡ escalate_severity
            (worst_severity sev xs)
            (evaluate_severity s (or_zero s.baseline_success_rate))
  worst_severity-snoc sev [] s = refl
  worst_severity-snoc sev (x ∷ xs) s =
      worst_severity-snoc
        (escalate_severity sev (evaluate_severity x (or_zero x.baseline_success_rate))) xs s

  abbrev pub IsBad : DegradationSignal W → Type 0
  IsBad x = x.signal_type ≡ bad

  -- The window of the last one.
  abbrev pub last_window : DegradationSignal W → List (DegradationSignal W) → ℕ
  last_window s [] = s.window_start
  last_window s (x ∷ xs) = last_window x xs

  pub last_window-snoc :
      (s : DegradationSignal W) (later : List (DegradationSignal W)) (x : DegradationSignal W)
      → last_window s (later ++ x ∷ []) ≡ x.window_start
  last_window-snoc s [] x = refl
  last_window-snoc s (y ∷ ys) x = last_window-snoc y ys x

  -- The episode sums up a run of bad signals: the first one `s`, and the later ones.
  pub record Summary (ep : DegradationEpisode W) (s : DegradationSignal W)
      (later : List (DegradationSignal W)) : Type ℓ where
    pub started : ep.started_at_window ≡ s.window_start
    pub counted : ep.affected_window_count ≡ suc (length later)
    pub persistent : 3 ≤ suc (length later)
    pub peak : ep.peak_absolute_drop ≡ max_drop (s ∷ later)
    pub worst : ep.severity ≡ worst_severity moderate (s ∷ later)
    pub all_bad : All IsBad (s ∷ later)
    pub measured : (d : W) × (s.absolute_drop ≡ some d)

  pub worsen-Summary :
      (ep : DegradationEpisode W) (s : DegradationSignal W) (later : List (DegradationSignal W))
      (x : DegradationSignal W)
      → Summary ep s later
      → IsBad x
      → Summary (worsen x ep) s (later ++ x ∷ [])
  worsen-Summary ep s later x h b = record {
    started = h.started;
    counted = omega (arith, h.counted, length-append later (x ∷ []));
    persistent = omega (arith, h.persistent, length-append later (x ∷ []));
    peak = ground (arith, h.peak, h.measured, max_drop_from-snoc h.measured.0 later x);
    worst = ground (arith, h.worst, worst_severity-snoc moderate (s ∷ later) x);
    all_bad = (h.all_bad.0, All-append IsBad later (x ∷ []) h.all_bad.1 (b, tt));
    measured = h.measured;
  }

  -- After the signals `seen`.
  module _ (seen : List (DegradationSignal W)) where
    -- A closed episode: recovered, and ended with its last bad window, no earlier than it started.
    pub record Closed (ep : DegradationEpisode W) : Type ℓ where
      pub status : ep.status ≡ recovered
      pub s : DegradationSignal W
      pub later : List (DegradationSignal W)
      pub summary : Summary ep s later
      pub stretch : Stretch seen (s ∷ later)
      pub ended : ep.ended_at_window ≡ some (last_window s later)
      pub in_order : ep.started_at_window ≤ last_window s later

    -- A run of bad signals that is too short for an episode, seen up to the instant `now`.
    pub record Pending (m : Scan W) (now : ℕ) : Type ℓ where
      pub s : DegradationSignal W
      pub later : List (DegradationSignal W)
      pub pending : m.pending_signals ≡ s ∷ later
      pub no_episode : m.current_episode ≡ none
      pub first : m.first_bad_window ≡ some s.window_start
      pub counted : m.persistence_count ≡ suc (length later)
      pub short : suc (length later) < 3
      pub run : Run seen (s ∷ later)
      pub all_bad : All IsBad (s ∷ later)
      pub measured : (d : W) × (s.absolute_drop ≡ some d)
      pub before : s.window_start ≤ now

    -- An open episode.
    pub record Open (m : Scan W) (now : ℕ) : Type ℓ where
      pub ep : DegradationEpisode W
      pub current : m.current_episode ≡ some ep
      pub s : DegradationSignal W
      pub later : List (DegradationSignal W)
      pub summary : Summary ep s later
      pub run : Run seen (s ∷ later)
      pub is_active : ep.status ≡ active
      pub not_ended : ep.ended_at_window ≡ none
      pub last : m.last_bad_window ≡ some (last_window s later)
      pub in_order : ep.started_at_window ≤ last_window s later
      pub before : ep.started_at_window ≤ now

    abbrev pub Phase : StateMachineState → Scan W → ℕ → Type ℓ
    Phase healthy m now = m.current_episode ≡ none
    Phase bad_pending m now = Pending m now
    Phase degraded m now = Open m now
    Phase recovery_pending m now = Open m now × (m.recovery_count ≡ 1)

    pub record Inv (m : Scan W) (now : ℕ) : Type ℓ where
      pub phase : Phase m.current_state m now
      pub closed : All Closed m.episodes

-- ===== src/Degradation/Timeline.antt =====
-- src/core/degradation/state_machine.py. The local variables of `reconcile_timeline` are the record
-- `Scan`, and `scan_signal` is one round of its loop. `none` is the AttributeError of reading a
-- missing first window or episode.
pub mod Runs
pub mod Invariant
pub mod Rounds
pub mod Opened
pub mod Unopened
pub mod Episodes
pub mod Windows
pub mod Neutral
pub mod Peak
use revenue_degradation_reco.Prelude.{
  ℕ, ◌+◌, String, Option, none, some, List, [], ◌∷◌, ◌++◌, leb, if◌then◌else◌,
}
use revenue_degradation_reco.Prelude.Float.{Float}
use revenue_degradation_reco.Degradation.Models.{
  SignalType, normal, bad, low_volume, no_baseline, active, recovered, Severity, moderate,
  StateMachineState, healthy, bad_pending, degraded, recovery_pending, DegradationSignal,
  DegradationEpisode, required_consecutive_windows, recovery_consecutive_windows,
}
use revenue_degradation_reco.Degradation.Severity.{evaluate_severity, escalate_severity}

pub record Scan {ℓ} (W : Type ℓ) : Type ℓ where
  pub current_state : StateMachineState
  pub persistence_count : ℕ
  pub recovery_count : ℕ
  pub first_bad_window : Option ℕ
  pub last_bad_window : Option ℕ
  pub pending_signals : List (DegradationSignal W)
  pub current_episode : Option (DegradationEpisode W)
  pub episodes : List (DegradationEpisode W)

abbrev pub start {ℓ} : {W : Type ℓ} → Scan W
start = record {
  current_state = healthy;
  persistence_count = 0;
  recovery_count = 0;
  first_bad_window = none;
  last_bad_window = none;
  pending_signals = [];
  current_episode = none;
  episodes = [];
}

module _ {ℓ} {W : Type ℓ} ⦃f : Float W⦄ where
  -- `x or 0.0`
  abbrev pub or_zero : Option W → W
  or_zero none = f.lit 0 1
  or_zero (some x) = x

  -- `max((s.absolute_drop for s in signals if ... is not None), default=0.0)`
  abbrev pub max_drop_from : W → List (DegradationSignal W) → W
  max_drop_from peak [] = peak
  max_drop_from peak (s ∷ rest) =
      max_drop_from
        (elim s.absolute_drop [ none ↦ peak | some d ↦ if f.lt peak d then d else peak ]) rest

  abbrev pub max_drop : List (DegradationSignal W) → W
  max_drop [] = f.lit 0 1
  max_drop (s ∷ rest) =
      let later = max_drop rest in
      elim s.absolute_drop [ none ↦ later | some d ↦ max_drop_from d rest ]

  abbrev pub worst_severity : Severity → List (DegradationSignal W) → Severity
  worst_severity sev [] = sev
  worst_severity sev (s ∷ rest) =
      worst_severity (escalate_severity sev (evaluate_severity s (or_zero s.baseline_success_rate)))
        rest

  -- Another bad window of the open episode.
  abbrev pub worsen : DegradationSignal W → DegradationEpisode W → DegradationEpisode W
  worsen signal ep =
      let peak : W = elim signal.absolute_drop [
        | none ↦ ep.peak_absolute_drop
        | some d ↦ if f.lt ep.peak_absolute_drop d then d else ep.peak_absolute_drop
      ] in
      let new_sev = evaluate_severity signal (or_zero signal.baseline_success_rate) in
      record ep {
        affected_window_count = ep.affected_window_count + 1;
        peak_absolute_drop = peak;
        severity = escalate_severity ep.severity new_sev;
      }

  -- The `if` at the end of a round.
  abbrev pub note_bad : SignalType → ℕ → Scan W → Scan W
  note_bad bad window m = record m { last_bad_window = some window }
  note_bad _ window m = m

  -- `uuid5` names an episode by its segment and its first bad window.
  module _ (episode_id_of : String → String → ℕ → ℕ)
      (segment_dimension segment_value : String) where
    abbrev open_episode : Scan W → Option (Scan W)
    open_episode m = elim m.first_bad_window [
      | none ↦ none
      | some first ↦ some (record m {
        current_state = degraded;
        current_episode = some (record {
          episode_id = episode_id_of segment_dimension segment_value first;
          segment_dimension = segment_dimension;
          segment_value = segment_value;
          started_at_window = first;
          status = active;
          peak_absolute_drop = max_drop m.pending_signals;
          affected_window_count = m.persistence_count;
          severity = worst_severity moderate m.pending_signals;
          ended_at_window = none;
        });
      })
    ]

    abbrev close_episode : Scan W → Option (Scan W)
    close_episode m = elim m.current_episode [
      | none ↦ none
      | some ep ↦ some (record m {
        current_state = healthy;
        current_episode = none;
        episodes =
            m.episodes
            ++ record ep { status = recovered; ended_at_window = m.last_bad_window } ∷ [];
        recovery_count = 0;
        first_bad_window = none;
      })
    ]

    -- The `if` on the state and the type of the signal.
    pub transition : StateMachineState → SignalType → DegradationSignal W → Scan W → Option (Scan W)
    transition healthy bad signal m = some (record m {
      current_state = bad_pending;
      persistence_count = 1;
      first_bad_window = some signal.window_start;
      pending_signals = signal ∷ [];
    })
    transition healthy normal signal m = some m
    transition bad_pending bad signal m =
        let n = m.persistence_count + 1 in
        let m' = record m {
          persistence_count = n;
          pending_signals = m.pending_signals ++ signal ∷ [];
        } in
        if leb required_consecutive_windows n then open_episode m' else some m'
    transition bad_pending normal signal m = some (record m {
      current_state = healthy;
      persistence_count = 0;
      first_bad_window = none;
      pending_signals = [];
    })
    transition degraded bad signal m = elim m.current_episode [
      | none ↦ none
      | some ep ↦ some (record m { current_episode = some (worsen signal ep) })
    ]
    transition degraded normal signal m =
        some (record m { current_state = recovery_pending; recovery_count = 1 })
    transition recovery_pending normal signal m =
        let n = m.recovery_count + 1 in
        let m' = record m { recovery_count = n } in
        if leb recovery_consecutive_windows n then close_episode m' else some m'
    transition recovery_pending bad signal m = elim m.current_episode [
      | none ↦ none
      | some ep ↦ some (record m {
        current_state = degraded;
        current_episode = some (worsen signal ep);
        recovery_count = 0;
      })
    ]
    transition _ low_volume signal m = some m
    transition _ no_baseline signal m = some m

    unfoldable pub scan_signal : Scan W → DegradationSignal W → Option (Scan W)
    unfolding transition
    scan_signal m signal = elim (transition m.current_state signal.signal_type signal m) [
      | none ↦ none
      | some m' ↦ some (note_bad signal.signal_type signal.window_start m')
    ]

    unfoldable pub scan_from : Scan W → List (DegradationSignal W) → Option (Scan W)
    scan_from m [] = some m
    scan_from m (signal ∷ rest) = elim (scan_signal m signal) [
      | none ↦ none
      | some m' ↦ scan_from m' rest
    ]

  -- The episodes so far, and the open one last.
  abbrev pub all_episodes : Scan W → List (DegradationEpisode W)
  all_episodes m = elim m.current_episode [ none ↦ m.episodes | some ep ↦ m.episodes ++ ep ∷ [] ]

  unfoldable pub reconcile_timeline :
      (String → String → ℕ → ℕ) → List (DegradationSignal W) → Option (List (DegradationEpisode W))
  reconcile_timeline episode_id_of [] = some []
  reconcile_timeline episode_id_of (first ∷ rest) =
      elim (scan_from episode_id_of first.segment_dimension first.segment_value start
        (first ∷ rest)) [ none ↦ none | some m ↦ some (all_episodes m) ]

-- ===== src/Degradation/Timeline/Neutral.antt =====
-- Signals of low volume or without a baseline never move the state machine.
use revenue_degradation_reco.Prelude.{
  ℕ, ◌≡◌, refl, ap, sym, ◌∙◌, String, Option, none, some, List, [], ◌∷◌, Bool, true, false, arith,
  All, select, inl, inr, Bool-cases,
}
use revenue_degradation_reco.Prelude.Float.{Float}
use revenue_degradation_reco.Degradation.Models.{
  SignalType, normal, bad, low_volume, no_baseline, DegradationSignal, DegradationEpisode,
}
use revenue_degradation_reco.Degradation.Timeline.{
  Scan, start, all_episodes, scan_signal, scan_from, reconcile_timeline,
}

abbrev pub is_conclusive : SignalType → Bool
is_conclusive normal = true
is_conclusive bad = true
is_conclusive low_volume = false
is_conclusive no_baseline = false

module _ {ℓ} {W : Type ℓ} ⦃f : Float W⦄ where
  abbrev pub conclusive : List (DegradationSignal W) → List (DegradationSignal W)
  conclusive = select (λ s. is_conclusive s.signal_type)

  module _ (episode_id_of : String → String → ℕ → ℕ) (dim value : String) where
    scan_signal_neutral :
        (m : Scan W) (x : DegradationSignal W)
        → is_conclusive x.signal_type ≡ false
        → scan_signal episode_id_of dim value m x ≡ some m
    unfolding scan_signal
    scan_signal_neutral m x h = ground arith

    scan_from-conclusive :
        (m : Scan W) (xs : List (DegradationSignal W))
        → scan_from episode_id_of dim value m (conclusive xs)
          ≡ scan_from episode_id_of dim value m xs
    unfolding scan_from
    scan_from-conclusive m [] = refl
    scan_from-conclusive m (x ∷ rest) = elim (Bool-cases (is_conclusive x.signal_type)) [
      | inl yes' ↦
          rw yes'
            (elim (scan_signal episode_id_of dim value m x)
              as (λ r.
                (elim r [
                  | none ↦ none
                  | some m' ↦ scan_from episode_id_of dim value m' (conclusive rest)
                ])
                ≡ (elim r [ none ↦ none | some m' ↦ scan_from episode_id_of dim value m' rest ])) [
                  | none ↦ refl
                  | some m' ↦ scan_from-conclusive m' rest
                ])
      | inr no' ↦ rw (no', scan_from, scan_signal_neutral m x no') (scan_from-conclusive m rest)
    ]

  -- All signals belong to this segment.
  abbrev pub InSegment : String → String → List (DegradationSignal W) → Type 0
  InSegment dim value =
      All (λ (s : DegradationSignal W). (s.segment_dimension ≡ dim) × (s.segment_value ≡ value))

  abbrev finish : Option (Scan W) → Option (List (DegradationEpisode W))
  finish r = elim r [ none ↦ none | some m ↦ some (all_episodes m) ]

  reconcile_timeline-eq-scan :
      (ids : String → String → ℕ → ℕ) (dim value : String) (xs : List (DegradationSignal W))
      → InSegment dim value xs
      → reconcile_timeline ids xs ≡ finish (scan_from ids dim value start xs)
  unfolding reconcile_timeline scan_from
  reconcile_timeline-eq-scan ids dim value [] h = refl
  reconcile_timeline-eq-scan ids dim value (x ∷ rest) h =
      ap (λ d. finish (scan_from ids d x.segment_value start (x ∷ rest))) h.0.0
      ∙ ap (λ v. finish (scan_from ids dim v start (x ∷ rest))) h.0.1

  InSegment-conclusive :
      (dim value : String) (xs : List (DegradationSignal W))
      → InSegment dim value xs
      → InSegment dim value (conclusive xs)
  InSegment-conclusive dim value [] h = tt
  InSegment-conclusive dim value (x ∷ rest) h = elim (Bool-cases (is_conclusive x.signal_type)) [
    | inl in' ↦ rw in' (h.0, InSegment-conclusive dim value rest h.1)
    | inr out ↦ rw out (InSegment-conclusive dim value rest h.1)
  ]

  -- Signals that are LOW_VOLUME or NO_BASELINE can be taken out of the timeline of a segment without
  -- any change in the episodes: they neither break nor make a run of bad or of normal windows.
  pub reconcile_timeline-conclusive :
      (episode_id_of : String → String → ℕ → ℕ) (dim value : String)
      (signals : List (DegradationSignal W))
      → InSegment dim value signals
      → reconcile_timeline episode_id_of (conclusive signals)
        ≡ reconcile_timeline episode_id_of signals
  reconcile_timeline-conclusive ids dim value signals h =
      reconcile_timeline-eq-scan ids dim value (conclusive signals)
        (InSegment-conclusive dim value signals h)
      ∙ ap finish (scan_from-conclusive ids dim value start signals)
      ∙ sym (reconcile_timeline-eq-scan ids dim value signals h)

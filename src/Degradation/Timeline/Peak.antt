-- ===== src/Degradation/Timeline/Peak.antt =====
-- The peak drop of an episode is at least the drop of each of its bad windows.
use mathlib.Core.Path.{subst}
use revenue_degradation_reco.Prelude.{
  ◌≡◌, refl, sym, Option, none, some, List, [], ◌∷◌, true, arith, All, if◌then◌else◌, inl, inr,
  Bool-cases,
}
use revenue_degradation_reco.Prelude.Float.{Float, IsNumber, IsOrdered}
use revenue_degradation_reco.Degradation.Models.{DegradationSignal, DegradationEpisode}
use revenue_degradation_reco.Degradation.Timeline.{max_drop_from}
use revenue_degradation_reco.Degradation.Timeline.Invariant.{Summary}

module _ {ℓ} {W : Type ℓ} ⦃f : Float W⦄ (o : IsOrdered W) where
  -- The drop, where there is one, is a number, and is at most `top`.
  abbrev pub DropIsNumber : DegradationSignal W → Type ℓ
  DropIsNumber s = (d : W) → s.absolute_drop ≡ some d → IsNumber d

  abbrev pub DropBelow : W → DegradationSignal W → Type ℓ
  DropBelow top s = (d : W) → s.absolute_drop ≡ some d → f.le d top ≡ true

  -- The running peak after one signal.
  abbrev bump : W → Option W → W
  bump peak r = elim r [ none ↦ peak | some d ↦ if f.lt peak d then d else peak ]

  bump-ge :
      (peak : W) (r : Option W)
      → IsNumber peak
      → ((d : W) → r ≡ some d → IsNumber d)
      → IsNumber (bump peak r)
        × (f.le peak (bump peak r) ≡ true)
        × ((d : W) → r ≡ some d → f.le d (bump peak r) ≡ true)
  bump-ge peak none n h = (n, n, λ d e. cc)
  bump-ge peak (some d) n h = elim (Bool-cases (f.lt peak d)) [
    | inl up ↦ rw up (h d refl, o.le_of_lt peak d up, λ d' e. ground (arith, h d refl))
    | inr down ↦ rw down (n, n, λ d' e. ground (arith, o.le_of_not_lt peak d n (h d refl) down))
  ]

  All-below :
      (low high : W) (xs : List (DegradationSignal W))
      → f.le low high ≡ true
      → All (DropBelow low) xs
      → All (DropBelow high) xs
  All-below low high [] le h = tt
  All-below low high (x ∷ xs) le h =
      (λ d e. o.le_trans d low high (h.0 d e) le, All-below low high xs le h.1)

  max_drop_from-ge :
      (peak : W) (xs : List (DegradationSignal W))
      → IsNumber peak
      → All DropIsNumber xs
      → (f.le peak (max_drop_from peak xs) ≡ true) × All (DropBelow (max_drop_from peak xs)) xs
  max_drop_from-ge peak [] n h = (n, tt)
  max_drop_from-ge peak (x ∷ xs) n h =
      let (n', up, own) = bump-ge peak x.absolute_drop n h.0 in
      let (le, rest) = max_drop_from-ge (bump peak x.absolute_drop) xs n' h.1 in
      (o.le_trans peak _ _ up le, ((λ d e. o.le_trans d _ _ (own d e) le), rest))

  -- Where an episode sums up a run of bad signals, the floats are ordered and no drop of the run is NaN,
  -- the episode's peak drop is at least the drop of each signal of the run.
  pub Summary-peak :
      (ep : DegradationEpisode W) (s : DegradationSignal W) (later : List (DegradationSignal W))
      → Summary ep s later
      → All DropIsNumber (s ∷ later)
      → All (DropBelow ep.peak_absolute_drop) (s ∷ later)
  Summary-peak ep s later h nums =
      let (d, e) = h.measured in
      let (le, rest) = max_drop_from-ge d later (nums.0 d e) nums.1 in
      let top : ep.peak_absolute_drop ≡ max_drop_from d later = ground (arith, h.peak, e) in
      subst (λ t. All (DropBelow t) (s ∷ later)) (sym top)
        ((λ d' e'. ground (arith, le, e, e')), rest)

-- ===== src/Degradation/Timeline/Runs.antt =====
-- The stretches of a timeline that the episodes of `reconcile_timeline`
-- (src/core/degradation/state_machine.py) sum up.
use mathlib.Core.List.{append_assoc, append-nil}
use revenue_degradation_reco.Prelude.{
  ◌≡◌, refl, sym, ap, ◌∙◌, List, [], ◌∷◌, ◌++◌, Bool, true, false, inl, inr, Bool-cases, select,
}
use revenue_degradation_reco.Degradation.Models.{
  SignalType, normal, bad, low_volume, no_baseline, DegradationSignal,
}

abbrev pub is_bad : SignalType → Bool
is_bad bad = true
is_bad normal = false
is_bad low_volume = false
is_bad no_baseline = false

module _ {ℓ} {W : Type ℓ} where
  -- The bad signals, in order.
  abbrev pub bad_signals : List (DegradationSignal W) → List (DegradationSignal W)
  bad_signals = select (λ s. is_bad s.signal_type)

  -- The bad signals of the last stretch of what has been seen are these.
  pub record Run (seen bads : List (DegradationSignal W)) : Type ℓ where
    pub before : List (DegradationSignal W)
    pub within : List (DegradationSignal W)
    pub split : seen ≡ before ++ within
    pub all : bad_signals within ≡ bads

  -- The bad signals of a stretch of the signals are these, each as often as it is there, in order.
  pub record Stretch (signals bads : List (DegradationSignal W)) : Type ℓ where
    pub before : List (DegradationSignal W)
    pub within : List (DegradationSignal W)
    pub after : List (DegradationSignal W)
    pub split : signals ≡ before ++ (within ++ after)
    pub all : bad_signals within ≡ bads

  bad_signals-snoc_bad :
      (xs : List (DegradationSignal W)) (x : DegradationSignal W)
      → is_bad x.signal_type ≡ true
      → bad_signals (xs ++ x ∷ []) ≡ bad_signals xs ++ x ∷ []
  bad_signals-snoc_bad [] x h = rw h refl
  bad_signals-snoc_bad (y ∷ xs) x h = elim (Bool-cases (is_bad y.signal_type)) [
    | inl hit ↦ rw hit (ap (λ r. y ∷ r) (bad_signals-snoc_bad xs x h))
    | inr miss ↦ rw miss (bad_signals-snoc_bad xs x h)
  ]

  bad_signals-snoc_other :
      (xs : List (DegradationSignal W)) (x : DegradationSignal W)
      → is_bad x.signal_type ≡ false
      → bad_signals (xs ++ x ∷ []) ≡ bad_signals xs
  bad_signals-snoc_other [] x h = rw h refl
  bad_signals-snoc_other (y ∷ xs) x h = elim (Bool-cases (is_bad y.signal_type)) [
    | inl hit ↦ rw hit (ap (λ r. y ∷ r) (bad_signals-snoc_other xs x h))
    | inr miss ↦ rw miss (bad_signals-snoc_other xs x h)
  ]

  pub Run-first :
      (seen : List (DegradationSignal W)) (x : DegradationSignal W)
      → is_bad x.signal_type ≡ true
      → Run (seen ++ x ∷ []) (x ∷ [])
  Run-first seen x h = record {
    before = seen;
    within = x ∷ [];
    split = refl;
    all = bad_signals-snoc_bad [] x h;
  }

  pub Run-bad :
      (seen bads : List (DegradationSignal W)) (x : DegradationSignal W)
      → is_bad x.signal_type ≡ true
      → Run seen bads
      → Run (seen ++ x ∷ []) (bads ++ x ∷ [])
  Run-bad seen bads x h r = record {
    before = r.before;
    within = r.within ++ x ∷ [];
    split = ap (λ l. l ++ x ∷ []) r.split ∙ append_assoc r.before r.within (x ∷ []);
    all = bad_signals-snoc_bad r.within x h ∙ ap (λ l. l ++ x ∷ []) r.all;
  }

  pub Run-other :
      (seen bads : List (DegradationSignal W)) (x : DegradationSignal W)
      → is_bad x.signal_type ≡ false
      → Run seen bads
      → Run (seen ++ x ∷ []) bads
  Run-other seen bads x h r = record {
    before = r.before;
    within = r.within ++ x ∷ [];
    split = ap (λ l. l ++ x ∷ []) r.split ∙ append_assoc r.before r.within (x ∷ []);
    all = bad_signals-snoc_other r.within x h ∙ r.all;
  }

  pub Run-Stretch : (seen bads : List (DegradationSignal W)) → Run seen bads → Stretch seen bads
  Run-Stretch seen bads r = record {
    before = r.before;
    within = r.within;
    after = [];
    split = r.split ∙ ap (λ l. r.before ++ l) (sym (append-nil r.within));
    all = r.all;
  }

  pub Stretch-snoc :
      (seen bads : List (DegradationSignal W)) (x : DegradationSignal W)
      → Stretch seen bads
      → Stretch (seen ++ x ∷ []) bads
  Stretch-snoc seen bads x r = record {
    before = r.before;
    within = r.within;
    after = r.after ++ x ∷ [];
    split =
        ap (λ l. l ++ x ∷ []) r.split
        ∙ (append_assoc r.before (r.within ++ r.after) (x ∷ [])
            ∙ ap (λ l. r.before ++ l) (append_assoc r.within r.after (x ∷ [])));
    all = r.all;
  }

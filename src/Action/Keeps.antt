-- ===== src/Action/Keeps.antt =====
-- Rules for what actions preserve: a predicate on the state before gives one on the state after,
-- whether the action returns or raises.
use mathlib.Core.Path.{subst}
use revenue_degradation_reco.Prelude.{
  ◌≡◌, refl, sym, ap, ◌∙◌, arith, Bool, true, false, if◌then◌else◌,
}
use revenue_degradation_reco.Errors.{Result, ok, err}
use revenue_degradation_reco.Action.{Action, continue, transact, ◌>>=◌}

module _ {S A : Type 0} (P : S → Type 0) where
  abbrev pub Keeps : Action S A → Type 0
  Keeps m = (s : S) → P s → P (m s).1

  pub Keeps-if : (b : Bool) (m n : Action S A) → Keeps m → Keeps n → Keeps (if b then m else n)
  Keeps-if true m n km kn = km
  Keeps-if false m n km kn = kn

  pub Keeps-transact : (m : Action S A) → Keeps m → Keeps (transact m)
  unfolding transact
  Keeps-transact m km s p = go (m s) (km s p)
    where
      go :
          (r : Result A × S)
          → P r.1
          → P (elim r.0 as (λ _. Result A × S) [ ok a ↦ (ok a, r.1) | err e ↦ (err e, s) ]).1
      go (ok a, s') k = k
      go (err e, s') k = p

module _ {S A B : Type 0} (P : S → Type 0) where
  pub Keeps-continue :
      (r : Result A × S) (f : A → Action S B)
      → P r.1
      → ((a : A) → r.0 ≡ ok a → P (f a r.1).1)
      → P (continue r f).1
  Keeps-continue (ok a, s) f p k = k a refl
  Keeps-continue (err e, s) f p k = p

  pub Keeps-bind :
      (m : Action S A) (f : A → Action S B)
      → Keeps P m
      → ((a : A) → Keeps P (f a))
      → Keeps P (m >>= f)
  Keeps-bind m f km kf s p = Keeps-continue (m s) f (km s p) (λ a _. kf a (m s).1 (km s p))

module _ {S A B : Type 0} where
  -- What follows a step that raises nothing.
  pub continue_ok :
      (r : Result A × S) (f : A → Action S B) (b : B) (s' : S)
      → continue r f ≡ (ok b, s')
      → (a : A) × (r.0 ≡ ok a) × (f a r.1 ≡ (ok b, s'))
  continue_ok (ok a, s) f b s' e = (a, refl, e)
  continue_ok (err x, s) f b s' e = absurd (ground (arith, e))

module _ {S A B : Type 0} where
  -- What follows a step that raises nothing and leaves the state.
  pub continue_read :
      (r : Result A × S) (f : A → Action S B) (b : B) (s s' : S)
      → r.1 ≡ s
      → continue r f ≡ (ok b, s')
      → (a : A) × (r ≡ (ok a, s)) × (f a s ≡ (ok b, s'))
  continue_read (ok a, t) f b s s' e h =
      (a, ap (λ u. (ok a, u)) e, subst (λ u. f a u ≡ (ok b, s')) e h)
  continue_read (err x, t) f b s s' e h = absurd (ground (arith, h))

-- Steps that only read.
abbrev pub Reads : {S A : Type 0} → Action S A → Type 0
Reads {S = S} m = (s : S) → (m s).1 ≡ s

module _ {S A B : Type 0} where
  Reads-continue :
      (r : Result A × S) (f : A → Action S B) → ((a : A) → Reads (f a)) → (continue r f).1 ≡ r.1
  Reads-continue (ok a, s) f rf = rf a s
  Reads-continue (err e, s) f rf = refl

  pub Reads-bind :
      (m : Action S A) (f : A → Action S B) → Reads m → ((a : A) → Reads (f a)) → Reads (m >>= f)
  Reads-bind m f rm rf s = Reads-continue (m s) f rf ∙ rm s

module _ {S A B : Type 0} where
  -- A step that reads, before two continuations that agree on its state.
  pub same_after :
      (m : Action S A) (f g : A → Action S B) (s : S)
      → m s ≡ ((m s).0, s)
      → ((a : A) → f a s ≡ g a s)
      → (m >>= f) s ≡ (m >>= g) s
  same_after m f g s e k = ap (λ x. continue x f) e ∙ go (m s).0 ∙ sym (ap (λ x. continue x g) e)
    where
      go : (r : Result A) → continue (r, s) f ≡ continue (r, s) g
      go (ok a) = k a
      go (err x) = refl

-- A relation between the state before and after, through a step that only reads.
module _ {S A B : Type 0} where
  pub Leads-continue :
      (R : S → S → Type 0) (r : Result A × S) (f : A → Action S B) (s : S)
      → r.1 ≡ s
      → R s s
      → ((a : A) → r.0 ≡ ok a → R s (f a s).1)
      → R s (continue r f).1
  Leads-continue R (ok a, s') f s e idle k = subst (λ t. R s (f a t).1) (sym e) (k a refl)
  Leads-continue R (err x, s') f s e idle k = subst (R s) (sym e) idle

-- ===== src/Action.antt =====
-- Methods over the database session that may raise. What was written before an exception stays in the
-- session beside the error, until the caller rolls back.
pub mod Keeps
use revenue_degradation_reco.Errors.{Error, Result, ok, err}

abbrev pub Action {ℓ} : Type ℓ → Type ℓ → Type ℓ
Action S A = S → Result A × S

module _ {ℓ} {S A : Type ℓ} where
  abbrev pub pure : A → Action S A
  pure a s = (ok a, s)

  abbrev pub raise : Error → Action S A
  raise e s = (err e, s)

  -- A pure computation that may raise.
  abbrev pub lift : Result A → Action S A
  lift r s = (r, s)

  abbrev pub gets : (S → A) → Action S A
  gets f s = (ok (f s), s)

  -- `session.commit()` at the end, `session.rollback()` on an exception.
  unfoldable pub transact : Action S A → Action S A
  transact m s = let (r, s') = m s in elim r [ ok a ↦ (ok a, s') | err e ↦ (err e, s) ]

module _ {ℓ} {S A B : Type ℓ} where
  abbrev pub continue : Result A × S → (A → Action S B) → Result B × S
  continue (ok a, s) f = f a s
  continue (err e, s) f = (err e, s)

  infixl 5 ◌>>=◌ ◌>>◌
  abbrev pub ◌>>=◌ : Action S A → (A → Action S B) → Action S B
  ◌>>=◌ m f s = continue (m s) f

  abbrev pub ◌>>◌ : Action S A → Action S B → Action S B
  ◌>>◌ m n s = continue (m s) (λ _. n)

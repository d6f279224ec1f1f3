-- ===== src/Attempts/Registry/Laws.antt =====
-- The registry: registration is idempotent, first come first kept, and never changes a row.
use mathlib.Core.Path.{subst}
use revenue_degradation_reco.Prelude.{
  ℕ, ◌≡◌, ◌≢◌, refl, sym, ◌∙◌, ap, Option, none, some, List, [], ◌∷◌, ◌++◌, String, Bool, find,
  arith, eq_iff, ◌⊎◌, inl, inr, Bool-cases, Option-cases,
}
use revenue_degradation_reco.Errors.{
  Error, Result, ok, err, attempt_provider_conflict, Result-cases,
}
use revenue_degradation_reco.Action.{continue, ◌>>◌}
use revenue_degradation_reco.Events.{PaymentEvent}
use revenue_degradation_reco.Store.{RegistryRow, Database}
use revenue_degradation_reco.Attempts.Identity.{AttemptRef, for_trigger_event}
use revenue_degradation_reco.Attempts.Registry.{
  RegisteredAttempt, has_key, judge_row, require, new_row, insert_attempt, register,
}

find-append_left {ℓ} :
    {A : Type ℓ} (p : A → Bool) (xs ys : List A) {a : A}
    → find p xs ≡ some a
    → find p (xs ++ ys) ≡ some a
find-append_left p [] ys e = cc
find-append_left p (x ∷ xs) ys e = elim (Bool-cases (p x)) [
  | inl hit ↦ ground (arith, hit)
  | inr miss ↦ rw miss (find-append_left p xs ys (rw miss at e))
]

pub find-append_right {ℓ} :
    {A : Type ℓ} (p : A → Bool) (xs ys : List A) → find p xs ≡ none → find p (xs ++ ys) ≡ find p ys
find-append_right p [] ys e = refl
find-append_right p (x ∷ xs) ys e = elim (Bool-cases (p x)) [
  | inl hit ↦ absurd (ground (arith, hit))
  | inr miss ↦ rw miss (find-append_right p xs ys (rw miss at e))
]

module _ {W : Type 0} where
  -- The registered row of a key, if there is one.
  abbrev pub row_of : Database W → String → Option RegistryRow
  row_of db key = find (has_key key) db.payment_attempts

  -- `require` reads; what it returns is about the reference that was asked for, and a row is there.
  require_lem :
      (ref : AttemptRef) (db db' : Database W) (a : RegisteredAttempt)
      → require ref db ≡ (ok a, db')
      → (db' ≡ db)
        × (a.ref ≡ ref)
        × (row : RegistryRow) × (row_of db ref.payment_attempt_id ≡ some row)
  unfolding require
  require_lem ref db db' a e = elim (Option-cases (row_of db ref.payment_attempt_id)) [
    | inl gone ↦ absurd (ground (arith, gone))
    | inr (row, here) ↦ (ground (arith, here), ground (arith, here), row, here)
  ]

  pub require_reads : (ref : AttemptRef) (db : Database W) → (require ref db).1 ≡ db
  unfolding require
  require_reads ref db = ground arith

  pub judge_row_any :
      (ref : AttemptRef) (row : Option RegistryRow) (db db' : Database W)
      → judge_row ref row db' ≡ ((judge_row ref row db).0, db')
  unfolding judge_row
  judge_row_any ref none db db' = refl
  judge_row_any ref (some row) db db' = ground arith

  -- Only the registry decides.
  pub require_by_rows :
      (ref : AttemptRef) (db db' : Database W)
      → db'.payment_attempts ≡ db.payment_attempts
      → require ref db' ≡ ((require ref db).0, db')
  unfolding require
  require_by_rows ref db db' same =
      ap (λ rows. judge_row ref (find (has_key ref.payment_attempt_id) rows) db') same
      ∙ judge_row_any ref (find (has_key ref.payment_attempt_id) db.payment_attempts) db db'

  insert_attempt_keeps :
      (ref : AttemptRef) (event : PaymentEvent) (now : ℕ) (db : Database W) (key : String)
      (row : RegistryRow)
      → row_of db key ≡ some row
      → row_of (insert_attempt ref event now db).1 key ≡ some row
  unfolding insert_attempt
  insert_attempt_keeps ref event now db key row e =
      ground
        (arith, find-append_left (has_key key) db.payment_attempts (new_row ref event now ∷ []) e)

  register_from_keeps :
      (ref : AttemptRef) (event : PaymentEvent) (now : ℕ) (db : Database W) (key : String)
      (row : RegistryRow)
      → row_of (insert_attempt ref event now db).1 key ≡ some row
      → row_of ((insert_attempt ref event now >> require ref) db).1 key ≡ some row
  register_from_keeps ref event now db key row e = go (insert_attempt ref event now db) e
    where
      go :
          (r : Result Unit × Database W)
          → row_of r.1 key ≡ some row
          → row_of (continue r (λ _. require ref)).1 key ≡ some row
      go (ok u, db1) k = rw (require_reads ref db1) k
      go (err why, db1) k = k

  -- Whatever `register` does, a row that is there stays what it was.
  pub register_keeps :
      (event : PaymentEvent) (now : ℕ) (db : Database W) (key : String) (row : RegistryRow)
      → row_of db key ≡ some row
      → row_of (register event now db).1 key ≡ some row
  register_keeps event now db key row e = elim (Result-cases (for_trigger_event event)) [
    | inl (ref, t) ↦
        let kept = insert_attempt_keeps ref event now db key row e in
        unfold register in rw t (register_from_keeps ref event now db key row kept)
    | inr (why, t) ↦ unfold register in rw t e
  ]

  register-eq :
      (event : PaymentEvent) (now : ℕ) (db : Database W) (ref : AttemptRef)
      → for_trigger_event event ≡ ok ref
      → register event now db ≡ continue (insert_attempt ref event now db) (λ _. require ref)
  unfolding register
  register-eq event now db ref t = rw t

  register_err :
      (event : PaymentEvent) (now : ℕ) (db : Database W) (why : Error)
      → for_trigger_event event ≡ err why
      → register event now db ≡ (err why, db)
  unfolding register
  register_err event now db why t = rw t

  continue-ok :
      (r : Result Unit × Database W) (ref : AttemptRef) (a : RegisteredAttempt) (db' : Database W)
      → continue r (λ _. require ref) ≡ (ok a, db')
      → require ref r.1 ≡ (ok a, db')
  continue-ok (ok u, db1) ref a db' e = e
  continue-ok (err why, db1) ref a db' e = absurd (ground arith)

  insert_attempt_again :
      (ref : AttemptRef) (event : PaymentEvent) (now : ℕ) (db : Database W) (row : RegistryRow)
      → row_of db ref.payment_attempt_id ≡ some row
      → insert_attempt ref event now db ≡ (ok tt, db)
  unfolding insert_attempt
  insert_attempt_again ref event now db row e = rw e

  register_again :
      (event : PaymentEvent) (later : ℕ) (ref : AttemptRef) (db db1 : Database W)
      (a : RegisteredAttempt)
      → for_trigger_event event ≡ ok ref
      → require ref db1 ≡ (ok a, db)
      → (require a.ref db ≡ (ok a, db)) × (register event later db ≡ (ok a, db))
  register_again event later ref db db1 a t e =
      let (same, own, row, here) = require_lem ref db1 db a e in
      let now' : require ref db ≡ (ok a, db) =
        subst (λ d. require ref d ≡ (ok a, db)) (sym same) e in
      let here' = ap (λ d. row_of d ref.payment_attempt_id) same ∙ here in
      (
        ap (λ r. require r db) own ∙ now',
        register-eq event later db ref t
            ∙ ap (λ r. continue r (λ _. require ref))
                (insert_attempt_again ref event later db row here')
            ∙ now',
      )

  -- A successful registration is found again by `require`, and registering once more, at any time,
  -- returns the same attempt and changes nothing.
  pub register_twice :
      (event : PaymentEvent) (now later : ℕ) (db db' : Database W) (a : RegisteredAttempt)
      → register event now db ≡ (ok a, db')
      → (require a.ref db' ≡ (ok a, db')) × (register event later db' ≡ (ok a, db'))
  register_twice event now later db db' a e = elim (Result-cases (for_trigger_event event)) [
    | inl (ref, t) ↦
        let inserted = insert_attempt ref event now db in
        register_again event later ref db' inserted.1 a t
          (continue-ok inserted ref a db' (sym (register-eq event now db ref t) ∙ e))
    | inr (why, t) ↦ let stop = sym (register_err event now db why t) ∙ e in absurd (ground arith)
  ]

  -- Registering a trigger event whose key is registered under another provider or reference raises the
  -- conflict and leaves the database as it was.
  pub register_conflict :
      (event : PaymentEvent) (now : ℕ) (db : Database W) (ref : AttemptRef) (row : RegistryRow)
      → for_trigger_event event ≡ ok ref
      → row_of db ref.payment_attempt_id ≡ some row
      → (row.source_system ≢ ref.source_system) ⊎ (row.provider_reference ≢ ref.provider_reference)
      → register event now db ≡ (err attempt_provider_conflict, db)
  unfolding register
  register_conflict event now db ref row e r h = ground (
    arith,
    eq_iff row.source_system ref.source_system,
    eq_iff row.provider_reference ref.provider_reference,
  )

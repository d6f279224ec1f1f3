-- ===== src/Execution/Repository/Rows.antt =====
-- Rows of the Stage 7 tables under the updates and inserts of execution_repository.py.
use revenue_degradation_reco.Prelude.{
  ℕ, ◌+◌, ◌≡◌, refl, Option, some, List, [], ◌∷◌, ◌++◌, String, Bool, true, false, not, ◌||◌, ◌==◌,
  if◌then◌else◌, find, count_if, All, arith, ◌⊎◌, inl, inr, Bool-cases,
}
use revenue_degradation_reco.Errors.{Error, ok, err, data_error, integrity_error}
use revenue_degradation_reco.Store.{Database}
use revenue_degradation_reco.Attempts.Registry.{exists}
use revenue_degradation_reco.Execution.Transitions.{is_pending}
use revenue_degradation_reco.Execution.Models.{
  CommandStatus, pending, InterventionCommand, ExecutionAttempt,
}
use revenue_degradation_reco.Execution.Repository.{
  is_command, set_status, update_where, has_status, fits, attempt_clashes, is_command_of,
  insert_execution_attempt,
}

abbrev pub of_command : ℕ → ExecutionAttempt → Bool
of_command id a = a.command_id == id

-- No command of this id is pending.
abbrev pub NonPending : ℕ → List InterventionCommand → Type 0
NonPending id =
    All (λ (c : InterventionCommand).
      (c.command_id == id) ≡ true → is_pending c.command_status ≡ false)

pub update_where-NonPending :
    (id : ℕ) (p : InterventionCommand → Bool) (target : CommandStatus) (reason : Option String)
    (now : ℕ) (cs : List InterventionCommand)
    → is_pending target ≡ false
    → NonPending id cs
    → NonPending id (update_where p (set_status target reason now) cs)
update_where-NonPending id p target reason now [] t h = tt
update_where-NonPending id p target reason now (c ∷ cs) t h = elim (Bool-cases (p c)) [
  | inl hit ↦ rw hit ((λ _. t), update_where-NonPending id p target reason now cs t h.1)
  | inr miss ↦ rw miss (h.0, update_where-NonPending id p target reason now cs t h.1)
]

-- The claim leaves no pending command of its id.
pub update_where-claims :
    (id : ℕ) (target : CommandStatus) (reason : Option String) (now : ℕ)
    (cs : List InterventionCommand)
    → is_pending target ≡ false
    → NonPending id (update_where (has_status id pending) (set_status target reason now) cs)
update_where-claims id target reason now [] t = tt
update_where-claims id target reason now (c ∷ cs) t = elim (Bool-cases (has_status id pending c)) [
  | inl hit ↦ rw hit ((λ _. t), update_where-claims id target reason now cs t)
  | inr miss ↦ rw miss ((λ same. ground arith), update_where-claims id target reason now cs t)
]

pub exists-update_where :
    (id : ℕ) (p : InterventionCommand → Bool) (target : CommandStatus) (reason : Option String)
    (now : ℕ) (cs : List InterventionCommand)
    → exists (find (is_command id) (update_where p (set_status target reason now) cs))
      ≡ exists (find (is_command id) cs)
exists-update_where id p target reason now [] = refl
exists-update_where id p target reason now (c ∷ cs) =
    ground (arith, exists-update_where id p target reason now cs)

pub count-append {ℓ} :
    {A : Type ℓ} (p : A → Bool) (xs : List A) (y : A)
    → count_if p (xs ++ y ∷ []) ≡ count_if p xs + (if p y then 1 else 0)
count-append p [] y = ground arith
count-append p (x ∷ xs) y = ground (arith, count-append p xs y)

pub find-passes {ℓ} :
    {A : Type ℓ} (p : A → Bool) (xs : List A) (a : A) → find p xs ≡ some a → p a ≡ true
find-passes p [] a e = ground arith
find-passes p (x ∷ xs) a e = elim (Bool-cases (p x)) [
  | inl hit ↦ ground (arith, hit, (rw hit at e))
  | inr miss ↦ find-passes p xs a (rw miss at e)
]

-- A command that is counted as pending contradicts that none is.
pub NonPending-count :
    (id : ℕ) (cs : List InterventionCommand)
    → NonPending id cs
    → count_if (has_status id pending) cs ≡ 0
NonPending-count id [] h = refl
NonPending-count id (c ∷ cs) h = elim (Bool-cases (c.command_id == id)) [
  | inl same ↦ ground (arith, h.0 same, NonPending-count id cs h.1)
  | inr other ↦ ground (arith, NonPending-count id cs h.1)
]

pub count-exists :
    (id : ℕ) (s : CommandStatus) (cs : List InterventionCommand)
    → (count_if (has_status id s) cs == 1) ≡ true
    → exists (find (is_command id) cs) ≡ true
count-exists id s [] h = ground arith
count-exists id s (c ∷ cs) h = elim (Bool-cases (c.command_id == id)) [
  | inl same ↦ rw same refl
  | inr other ↦ rw other (count-exists id s cs (rw other at h))
]

module _ {W : Type 0} where
  abbrev pub with_attempt : ExecutionAttempt → Database W → Database W
  with_attempt a db = record db {
    intervention_execution_attempts = db.intervention_execution_attempts ++ a ∷ [];
  }

  pub insert_execution_attempt-cases :
      (a : ExecutionAttempt) (db : Database W)
      → ((e : Error) × (insert_execution_attempt a db ≡ (err e, db)))
        ⊎ (insert_execution_attempt a db ≡ (ok tt, with_attempt a db))
  unfolding insert_execution_attempt
  insert_execution_attempt-cases a db = elim (Bool-cases (fits a.error_message 1024)) [
    | inr long ↦ rw long (inl (data_error, refl))
    | inl short ↦
        elim (Bool-cases (
          exists (find (attempt_clashes a) db.intervention_execution_attempts)
          || not (
              exists
                (find (is_command_of a.command_id a.source_system) db.intervention_commands)))) [
                  | inl clash ↦ rw (short, clash) (inl (integrity_error, refl))
                  | inr fine ↦ rw (short, fine) (inr refl)
                ]
  ]

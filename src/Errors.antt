-- ===== src/Errors.antt =====
-- The exceptions of src/core/domain/*_exceptions.py that the modelled code raises, with those of the
-- database driver, and the results of functions that may raise one.
use revenue_degradation_reco.Prelude.{◌≡◌, refl, ◌⊎◌, inl, inr, Bool, if◌then◌else◌}

pub data Error : Type 0 where
  unsupported_provider invalid_attempt_identity attempt_not_registered : Error
  attempt_provider_conflict provider_identity_missing : Error
  invalid_decision_for_execution command_not_found illegal_state_transition : Error
  missing_upstream_data paypal_lifecycle_error multiple_results_found value_error type_error : Error
  -- PostgreSQL: a violated constraint, and a text that is too long for its column
  integrity_error data_error : Error
  assertion_error : Error

-- What a call that may raise gives back.
pub data Result {ℓ} (V : Type ℓ) : Type ℓ where
  ok : V → Result V
  err : Error → Result V

pub Result-cases {ℓ} :
    {V : Type ℓ} (r : Result V) → ((v : V) × (r ≡ ok v)) ⊎ ((why : Error) × (r ≡ err why))
Result-cases (err why) = inr (why, refl)
Result-cases (ok v) = inl (v, refl)

-- `if not test: raise e`
abbrev pub guard : Bool → Error → Result (Unit {0})
guard test why = if test then ok tt else err why

infixl 5 ◌>>=◌ ◌>>◌
abbrev pub ◌>>=◌ {ℓ κ} : {V : Type ℓ} {U : Type κ} → Result V → (V → Result U) → Result U
err why >>= next = err why
ok v >>= next = next v

-- A check, and what follows it.
abbrev pub ◌>>◌ {ℓ} : {U : Type ℓ} → Result (Unit {0}) → Result U → Result U
check >> next = check >>= λ _. next

-- ===== src/Attempts/Registry.antt =====
-- src/infrastructure/payment_attempt_repository.py: the append-only registry of payment attempts.
pub mod Laws
use revenue_degradation_reco.Prelude.{
  ℕ, Option, none, some, List, [], ◌∷◌, ◌++◌, String, Bool, true, false, not, ◌&&◌, ◌||◌, ◌==◌,
  ◌=s=◌, if◌then◌else◌, find,
}
use revenue_degradation_reco.Errors.{
  Error, Result, ok, err, attempt_not_registered, attempt_provider_conflict, integrity_error,
}
use revenue_degradation_reco.Action.{Action, pure, raise, lift, ◌>>=◌, ◌>>◌}
use revenue_degradation_reco.Events.{PaymentEvent}
use revenue_degradation_reco.Store.{RegistryRow, Database}
use revenue_degradation_reco.Attempts.Identity.{AttemptRef, for_trigger_event}

pub record RegisteredAttempt : Type 0 where
  pub ref : AttemptRef
  pub trigger_event_id : ℕ
  pub registered_at : ℕ

abbrev pub has_key : String → RegistryRow → Bool
has_key key row = row.payment_attempt_id =s= key

-- uq_payment_attempt_reference
abbrev pub has_reference : AttemptRef → RegistryRow → Bool
has_reference ref row =
    row.source_system =s= ref.source_system && row.provider_reference =s= ref.provider_reference

-- fk_payment_attempt_trigger
abbrev pub is_trigger_event : PaymentEvent → PaymentEvent → Bool
is_trigger_event event e = e.event_id == event.event_id && e.source_system =s= event.source_system

abbrev pub exists {ℓ} : {A : Type ℓ} → Option A → Bool
exists none = false
exists (some a) = true

abbrev pub new_row : AttemptRef → PaymentEvent → ℕ → RegistryRow
new_row ref event now = record {
  payment_attempt_id = ref.payment_attempt_id;
  source_system = ref.source_system;
  provider_reference = ref.provider_reference;
  trigger_event_id = event.event_id;
  registered_at = now;
}

module _ {W : Type 0} where
  unfoldable pub judge_row : AttemptRef → Option RegistryRow → Action (Database W) RegisteredAttempt
  judge_row ref none = raise attempt_not_registered
  judge_row ref (some row) =
      if row.source_system =s= ref.source_system
        && row.provider_reference =s= ref.provider_reference
      then pure (record {
        ref = ref;
        trigger_event_id = row.trigger_event_id;
        registered_at = row.registered_at;
      })
      else raise attempt_provider_conflict

  unfoldable pub require : AttemptRef → Action (Database W) RegisteredAttempt
  unfolding judge_row
  require ref db = judge_row ref (find (has_key ref.payment_attempt_id) db.payment_attempts) db

  -- INSERT … ON CONFLICT (payment_attempt_id) DO NOTHING
  insert_attempt : AttemptRef → PaymentEvent → ℕ → Action (Database W) Unit
  insert_attempt ref event now db =
      if exists (find (has_key ref.payment_attempt_id) db.payment_attempts)
      then (ok tt, db)
      else if exists (find (has_reference ref) db.payment_attempts)
          || not (exists (find (is_trigger_event event) db.payment_events))
      then (err integrity_error, db)
      else (
        ok tt,
        record db { payment_attempts = db.payment_attempts ++ new_row ref event now ∷ [] },
      )

  unfoldable pub register : PaymentEvent → ℕ → Action (Database W) RegisteredAttempt
  unfolding insert_attempt require
  register event now = do
    ref ← lift (for_trigger_event event)
    insert_attempt ref event now
    require ref

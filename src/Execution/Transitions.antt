-- ===== src/Execution/Transitions.antt =====
-- src/core/execution/state_machine.py: the legal transitions of a command.
use mathlib.Core.Path.{subst, sym}
use revenue_degradation_reco.Prelude.{
  ◌≡◌, ◌≢◌, ◌↔◌, ◌⊎◌, refl, Bool, true, false, ◌||◌, List, [], ◌∷◌, arith, if◌then◌else◌,
}
use revenue_degradation_reco.Errors.{Result, ok, illegal_state_transition, guard}
use revenue_degradation_reco.Execution.Models.{
  CommandStatus, pending, executing, succeeded, failed, expired, not_needed,
}

pub CommandStatus-discrete : Discrete CommandStatus
CommandStatus-discrete = hlevel

-- The database column and the enum's value: equality of statuses.
abbrev pub same_status : CommandStatus → CommandStatus → Bool
same_status pending pending = true
same_status executing executing = true
same_status succeeded succeeded = true
same_status failed failed = true
same_status expired expired = true
same_status not_needed not_needed = true
same_status _ _ = false

abbrev pub is_pending : CommandStatus → Bool
is_pending s = same_status s pending

abbrev pub legal_transitions : CommandStatus → List CommandStatus
legal_transitions pending = executing ∷ not_needed ∷ expired ∷ []
legal_transitions executing = succeeded ∷ failed ∷ []
legal_transitions succeeded = []
legal_transitions failed = []
legal_transitions expired = []
legal_transitions not_needed = []

abbrev pub contains : List CommandStatus → CommandStatus → Bool
contains [] s = false
contains (x ∷ xs) s = same_status s x || contains xs s

unfoldable pub can_transition : CommandStatus → CommandStatus → Bool
can_transition current target = contains (legal_transitions current) target

unfoldable pub validate_transition : CommandStatus → CommandStatus → Result (Unit {0})
validate_transition current target =
    if same_status current target
    then ok tt
    else guard (contains (legal_transitions current) target) illegal_state_transition

-- The transitions of the docstring in state_machine.py, as a relation.
infix 40 ◌⟶◌ ◌⟶*◌
pub data ◌⟶◌ : CommandStatus → CommandStatus → Type 0 where
  skip : pending ⟶ not_needed
  lapse : pending ⟶ expired
  claim : pending ⟶ executing
  succeed : executing ⟶ succeeded
  fail : executing ⟶ failed

pub data ◌⟶*◌ (s : CommandStatus) : CommandStatus → Type 0 where
  here : s ⟶* s
  next : {t u : CommandStatus} → s ⟶* t → t ⟶ u → s ⟶* u

abbrev pub IsTerminal : CommandStatus → Type 0
IsTerminal s = (s ≢ pending) × (s ≢ executing)

-- `can_transition` allows exactly the five transitions of the module's comment: PENDING to NOT_NEEDED,
-- EXPIRED or EXECUTING, and EXECUTING to SUCCEEDED or FAILED.
pub can_transition_iff : (s t : CommandStatus) → (can_transition s t ≡ true) ↔ (s ⟶ t)
unfolding can_transition
can_transition_iff s t = (to s t, from)
  where
    to : (s t : CommandStatus) → can_transition s t ≡ true → s ⟶ t
    to pending executing h = claim
    to pending not_needed h = skip
    to pending expired h = lapse
    to pending pending h = absurd (ground arith)
    to pending succeeded h = absurd (ground arith)
    to pending failed h = absurd (ground arith)
    to executing succeeded h = succeed
    to executing failed h = fail
    to executing pending h = absurd (ground arith)
    to executing executing h = absurd (ground arith)
    to executing expired h = absurd (ground arith)
    to executing not_needed h = absurd (ground arith)
    to succeeded t h = absurd (ground arith)
    to failed t h = absurd (ground arith)
    to expired t h = absurd (ground arith)
    to not_needed t h = absurd (ground arith)

    from : {s t : CommandStatus} → s ⟶ t → can_transition s t ≡ true
    from skip = refl
    from lapse = refl
    from claim = refl
    from succeed = refl
    from fail = refl

-- `validate_transition` lets through a legal transition, and no change.
pub validate_transition_iff :
    (s t : CommandStatus)
    → (validate_transition s t ≡ ok tt) ↔ ((s ≡ t) ⊎ (can_transition s t ≡ true))
unfolding validate_transition can_transition
validate_transition_iff s t = ground arith

terminal_step : {s t : CommandStatus} → IsTerminal s → s ⟶ t → ⊥
terminal_step h skip = h.0 refl
terminal_step h lapse = h.0 refl
terminal_step h claim = h.0 refl
terminal_step h succeed = h.1 refl
terminal_step h fail = h.1 refl

-- No terminal status ever changes: only itself is reachable from it.
pub terminal_absorbs : {s t : CommandStatus} → IsTerminal s → s ⟶* t → t ≡ s
terminal_absorbs h here = refl
terminal_absorbs {s} h (next r st) =
    absurd (terminal_step (subst IsTerminal (sym (terminal_absorbs h r)) h) st)

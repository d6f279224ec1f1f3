-- ===== src/Intervention/Service/Served.antt =====
-- Every history of calls of decide (src/core/intervention/service.py), each in a transaction of its own,
-- among writes of the other components.
use mathlib.Core.Path.{subst}
use revenue_degradation_reco.Prelude.{ℕ, ◌≡◌, sym, [], arith}
use revenue_degradation_reco.Prelude.Float.{Float}
use revenue_degradation_reco.Action.{transact}
use revenue_degradation_reco.Errors.{Result, ok, err}
use revenue_degradation_reco.Store.{Database}
use revenue_degradation_reco.Attempts.Identity.{AttemptRef}
use revenue_degradation_reco.Intervention.Models.{InterventionDecision}
use revenue_degradation_reco.Intervention.Policy.{InterventionPolicy}
use revenue_degradation_reco.Intervention.Context.{DecisionNames}
use revenue_degradation_reco.Intervention.History.{
  idle, Run, here, next, IsRateLimited, IsCooledDown,
}
use revenue_degradation_reco.Intervention.History.Limits.{Run-IsRateLimited, Run-IsCooledDown}
use revenue_degradation_reco.Intervention.Service.{decide}
use revenue_degradation_reco.Intervention.Service.Steps.{Steps, decide-Steps}

module _ {W : Type 0} ⦃f : Float W⦄ (names : DecisionNames W) (policy : InterventionPolicy W) where
  -- What the database may go through: decisions for any attempt at any time, and whatever else leaves
  -- the decisions as they are.
  pub data Serves (start : Database W) : Database W → Type 0 where
    begun : Serves start start
    decided :
        {db : Database W} (now : ℕ) (attempt : AttemptRef) (t_decide : ℕ)
        → Serves start db
        → Serves start (transact (decide names policy now attempt t_decide) db).1
    otherwise :
        {db : Database W} (db' : Database W)
        → db'.intervention_decisions ≡ db.intervention_decisions
        → Serves start db
        → Serves start db'

  transact-Steps :
      (now : ℕ) (attempt : AttemptRef) (t_decide : ℕ) (db : Database W)
      → Steps names policy now attempt t_decide db
          (transact (decide names policy now attempt t_decide) db).1
  unfolding transact
  transact-Steps now attempt t_decide db =
      go (decide names policy now attempt t_decide db)
        (decide-Steps names policy now attempt t_decide db)
    where
      go :
          (r : Result (InterventionDecision W) × Database W)
          → Steps names policy now attempt t_decide db r.1
          → Steps names policy now attempt t_decide db
              (elim r.0 as (λ _. Result (InterventionDecision W) × Database W) [
                | ok a ↦ (ok a, r.1)
                | err e ↦ (err e, db)
              ]).1
      go (ok a, s) h = h
      go (err e, s) h = idle

  -- Every history of the service is a run of its contract.
  pub Serves-Run :
      (start db : Database W)
      → Serves start db
      → Run policy.global_rate_limit_per_minute policy.routes start.intervention_decisions
          db.intervention_decisions
  Serves-Run start db begun = here
  Serves-Run start db (decided {db = before} now attempt t_decide served) =
      next (Serves-Run start before served) (transact-Steps now attempt t_decide before)
  Serves-Run start db (otherwise {db = before} db' same served) =
      subst (Run policy.global_rate_limit_per_minute policy.routes start.intervention_decisions)
        (sym same) (Serves-Run start before served)

  -- From a database without decisions, and whatever the calls and the other writes between them are, no
  -- minute has more decisions to act than the policy's limit.
  pub decide-IsRateLimited :
      (start db : Database W)
      → start.intervention_decisions ≡ []
      → Serves start db
      → IsRateLimited policy.global_rate_limit_per_minute db.intervention_decisions
  decide-IsRateLimited start db empty served =
      Run-IsRateLimited policy.global_rate_limit_per_minute policy.routes
        (Serves-Run start db served) (rw empty (λ a. omega arith))

  -- From a database without decisions, two decisions to act for the same attempt on the same route are
  -- apart by more than a cooldown of a route of the policy with that key.
  pub decide-IsCooledDown :
      (start db : Database W)
      → start.intervention_decisions ≡ []
      → Serves start db
      → IsCooledDown policy.routes db.intervention_decisions
  decide-IsCooledDown start db empty served =
      Run-IsCooledDown policy.global_rate_limit_per_minute policy.routes
        (Serves-Run start db served) (rw empty tt)

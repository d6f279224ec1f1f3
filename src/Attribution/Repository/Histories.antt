-- ===== src/Attribution/Repository/Histories.antt =====
-- The history of a command's attributions (src/infrastructure/attribution_repository.py).
use revenue_degradation_reco.Prelude.{ℕ, Option, String, List, ◌&&◌, if◌then◌else◌, select}
use revenue_degradation_reco.Errors.{ok, err, attempt_provider_conflict}
use revenue_degradation_reco.Action.{Action, ◌>>=◌}
use revenue_degradation_reco.Store.{Database}
use revenue_degradation_reco.Execution.Repository.{command_by_id}
use revenue_degradation_reco.Execution.Repository.Histories.{order_by, all_ok}
use revenue_degradation_reco.Attribution.Models.{CounterfactualAttribution}
use revenue_degradation_reco.Attribution.Repository.{
  attribution_of, of_command, as_asked, validated,
}

module _ {W : Type 0} where
  abbrev attributions_of : ℕ → Database W → List CounterfactualAttribution
  attributions_of command_id db =
      order_by (λ (a : CounterfactualAttribution). a.attribution_version)
        (select (attribution_of command_id) db.counterfactual_attributions)

  -- Every row must have the provider of its command, and the one asked for.
  abbrev agreed : ℕ → Option String → Action (Database W) (List CounterfactualAttribution)
  agreed command_id source db =
      let rows = attributions_of command_id db in
      if all_ok (λ a. of_command a (command_by_id command_id db) && as_asked a source) rows
      then (ok rows, db)
      else (err attempt_provider_conflict, db)

  abbrev get_all_attributions :
      ℕ → Option String → Action (Database W) (List CounterfactualAttribution)
  get_all_attributions command_id source = do s ← validated source; agreed command_id source

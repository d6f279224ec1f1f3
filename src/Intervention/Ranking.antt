-- ===== src/Intervention/Ranking.antt =====
-- score_and_rank_candidates (src/core/intervention/calculator.py) and the best candidate
-- (src/core/intervention/service.py). Python's sort is stable, and so is the insertion sort here.
pub mod Order
pub mod Sorted
pub mod Choice
use revenue_degradation_reco.Prelude.{
  ℕ, suc, ◌+◌, Option, List, [], ◌∷◌, Bool, true, false, not, if◌then◌else◌, ltb, leb, head?,
  select,
}
use revenue_degradation_reco.Intervention.Models.{
  InterventionRouteKey, retry_secondary_gateway, prompt_payment_method_switch,
  dynamic_retry_backoff, degradation_circuit_bypass, fallback_payment_link, CandidateRouteScore,
}
use revenue_degradation_reco.Intervention.Calculator.{at_least}

-- The place of a key's text in the alphabet.
abbrev pub alphabetical : InterventionRouteKey → ℕ
alphabetical degradation_circuit_bypass = 0
alphabetical dynamic_retry_backoff = 1
alphabetical fallback_payment_link = 2
alphabetical prompt_payment_method_switch = 3
alphabetical retry_secondary_gateway = 4

module _ {W : Type 0} where
  -- `key(a) <= key(b)`, with the key (-policy_utility, policy_cost_minor_units, route_key.value).
  unfoldable pub ranks_before : CandidateRouteScore W → CandidateRouteScore W → Bool
  ranks_before a b =
      if not (at_least a.policy_utility b.policy_utility)
      then false
      else if not (at_least b.policy_utility a.policy_utility)
      then true
      else if ltb a.policy_cost_minor_units b.policy_cost_minor_units
      then true
      else if ltb b.policy_cost_minor_units a.policy_cost_minor_units
      then false
      else leb (alphabetical a.route_key) (alphabetical b.route_key)

  abbrev pub insert :
      CandidateRouteScore W → List (CandidateRouteScore W) → List (CandidateRouteScore W)
  insert a [] = a ∷ []
  insert a (b ∷ bs) = let rest = insert a bs in if ranks_before a b then a ∷ b ∷ bs else b ∷ rest

  abbrev pub sorted : List (CandidateRouteScore W) → List (CandidateRouteScore W)
  sorted [] = []
  sorted (a ∷ rest) = insert a (sorted rest)

  abbrev pub enumerate : ℕ → List (CandidateRouteScore W) → List (CandidateRouteScore W)
  enumerate n [] = []
  enumerate n (a ∷ rest) = record a { rank = n } ∷ enumerate (suc n) rest

  abbrev pub score_and_rank_candidates : List (CandidateRouteScore W) → List (CandidateRouteScore W)
  score_and_rank_candidates candidates = enumerate 1 (sorted candidates)

  abbrev pub eligible : CandidateRouteScore W → Bool
  eligible candidate = candidate.is_eligible

  abbrev pub best_candidate : List (CandidateRouteScore W) → Option (CandidateRouteScore W)
  best_candidate candidate_scores =
      head? (score_and_rank_candidates (select eligible candidate_scores))

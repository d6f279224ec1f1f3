-- ===== src/Intervention/Examples.antt =====
-- Examples for Stage 6 (src/core/intervention).
use revenue_degradation_reco.Prelude.{
  Bool, List, [], ◌∷◌, count_if, ◌≡◌, ◌↔◌, refl, some, true, false,
}
use revenue_degradation_reco.Intervention.Policy.{bypass_route, get_default_policy, hundredths}
use revenue_degradation_reco.Intervention.Gates.{
  RcaContext, is_strong, is_applicable, evaluate_route_eligibility,
}
use revenue_degradation_reco.Intervention.Gates.Eligibility.{Fits, evaluate_route_eligibility-Fits}
use revenue_degradation_reco.Prelude.Int.{ℤ, pos, ◌*ℤ◌, ◌-ℤ◌}
use revenue_degradation_reco.Prelude.Decimal.{of_int, round_half_even}
use revenue_degradation_reco.Prelude.Float.{fixed_float, fixed-IsOrdered}
use revenue_degradation_reco.Errors.{ok}
use revenue_degradation_reco.Execution.Service.{executable}
use revenue_degradation_reco.Execution.Examples.{decision_7}
use revenue_degradation_reco.Intervention.Models.{
  CandidateRouteScore, degradation_circuit_bypass, fallback_payment_link, dynamic_retry_backoff,
}
use revenue_degradation_reco.Intervention.Calculator.{
  determine_verdict, at_least, calculate_policy_utility,
}
use revenue_degradation_reco.Intervention.Calculator.Decisions.{
  IsConfidence, decided, key_of, acts, determine_verdict-executable, determine_verdict-IsConfidence,
}
use revenue_degradation_reco.Intervention.Ranking.{
  ranks_before, score_and_rank_candidates, best_candidate,
}
use revenue_degradation_reco.Intervention.Ranking.Sorted.{
  InOrder, CountsFrom, unranked, score_and_rank_candidates-InOrder,
}
use revenue_degradation_reco.Intervention.Ranking.Choice.{IsChoice, best_candidate-IsChoice}

abbrev hdfc_outage : RcaContext
hdfc_outage = record {
  rca_classification = some "SEGMENT_SPECIFIC";
  rca_evidence_strength = some "strong";
  rca_candidate_dimension = some "BANK";
  rca_candidate_matches_payment_segment = true;
  payment_method = some "card";
  bank = some "hdfc";
}

evaluate_route_eligibility-Fits_example :
    (bypass_route.enabled ≡ true)
    × (false ≡ false)
    × ((bypass_route.requires_strong_rca ≡ true)
        → is_strong hdfc_outage.rca_evidence_strength ≡ true)
    × Fits bypass_route hdfc_outage
unfolding evaluate_route_eligibility is_applicable
evaluate_route_eligibility-Fits_example =
    evaluate_route_eligibility-Fits bypass_route hdfc_outage false refl

abbrev best_of_three : CandidateRouteScore ℤ
best_of_three = record {
  route_key = degradation_circuit_bypass;
  is_eligible = true;
  expected_recovery_benefit = of_int (pos 63_750);
  policy_cost_minor_units = 500;
  policy_utility = of_int (pos 63_250);
  route_alignment_score = pos 10_000;
  rank = 1;
}

determine_verdict-executable_example :
    (executable (
        decided decision_7 (
          determine_verdict
            (some best_of_three)
            (some (pos 8_500))
            get_default_policy
            (some "STRONG")))
      ≡ ok degradation_circuit_bypass)
    ↔ ((acts (some best_of_three) (some (pos 8_500)) get_default_policy ≡ true)
        × (key_of (some best_of_three) ≡ some degradation_circuit_bypass))
determine_verdict-executable_example =
    determine_verdict-executable (some best_of_three) (some (pos 8_500)) get_default_policy
      (some "STRONG") decision_7 degradation_circuit_bypass

determine_verdict-IsConfidence_example :
    IsConfidence
      (determine_verdict
        (some best_of_three)
        (some (pos 8_500))
        get_default_policy
        (some "STRONG")).confidence
determine_verdict-IsConfidence_example =
    determine_verdict-IsConfidence fixed-IsOrdered (some best_of_three) (some (pos 8_500))
      get_default_policy (some "STRONG")

utility_example :
    calculate_policy_utility
      (pos 100_000)
      (record { coefficient = pos 85; places = 2 })
      (hundredths 75)
      (pos 500)
    ≡ (of_int (pos 63_750), of_int (pos 63_250))
unfolding calculate_policy_utility ◌*ℤ◌ ◌-ℤ◌ round_half_even
utility_example = refl

-- Another candidate of the same utility, cheaper, and one that is not eligible.
abbrev scored : List (CandidateRouteScore ℤ)
scored =
    best_of_three
    ∷ record best_of_three {
      route_key = fallback_payment_link;
      policy_cost_minor_units = 200;
      rank = 0;
    }
    ∷ record best_of_three {
      route_key = dynamic_retry_backoff;
      is_eligible = false;
      policy_utility = of_int (pos 90_000);
    }
    ∷ []

chosen : key_of (best_candidate scored) ≡ some fallback_payment_link
unfolding ranks_before at_least ◌*ℤ◌
chosen = refl

score_and_rank_candidates-InOrder_example :
    InOrder (score_and_rank_candidates scored)
    × CountsFrom 1 (score_and_rank_candidates scored)
    × ((q : CandidateRouteScore ℤ → Bool)
        → count_if (λ c. q (unranked c)) (score_and_rank_candidates scored)
          ≡ count_if (λ c. q (unranked c)) scored)
score_and_rank_candidates-InOrder_example = score_and_rank_candidates-InOrder scored

best_candidate-IsChoice_example : IsChoice (best_candidate scored) scored
best_candidate-IsChoice_example = best_candidate-IsChoice scored

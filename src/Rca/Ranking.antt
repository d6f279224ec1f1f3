-- ===== src/Rca/Ranking.antt =====
-- src/core/rca: the result for one segment, its qualification as a candidate (service.py), and the ranking
-- of candidates (calculator.py). Python's sort is stable, and so is the insertion sort here.
pub mod Qualified
use Prim.Native.Char.{code}
use revenue_degradation_reco.Prelude.{
  ℕ, suc, String, Option, none, some, List, [], ◌∷◌, map, Bool, true, false, not, ◌&&◌, ◌==◌, ◌=s=◌,
  leb, ltb, if◌then◌else◌, select,
}
use revenue_degradation_reco.Prelude.Float.{Float}
use revenue_degradation_reco.Rca.Models.{EvidenceStrength, min_failures_for_rca_evaluation}
use revenue_degradation_reco.Rca.Calculator.{
  compute_excess_failure_contribution, assign_evidence_strength,
}

-- (window start, failures, transactions, dimension, value) of a window of the baseline.
pub record HistTuple : Type 0 where
  pub window_start : ℕ
  pub failures : ℕ
  pub transactions : ℕ
  pub dimension : String
  pub value : String

-- The dictionary of `_evaluate_structural_candidate`, less the text of the disqualification.
pub record StructuralResult (W : Type 0) : Type 0 where
  pub dimension : String
  pub value : String
  pub episode_segment_transaction_count : ℕ
  pub historical_segment_transaction_count : ℕ
  pub historical_segment_failures_total : ℕ
  pub historical_segment_failure_rate : Option W
  pub expected_segment_failures : W
  pub actual_segment_failures : ℕ
  pub excess_segment_failures : W
  pub traffic_share : W
  pub failure_share : W
  pub excess_failure_contribution : W
  pub evidence_strength : Option EvidenceStrength
  pub qualified_as_candidate : Bool
  pub baseline_sufficient : Bool
  pub hist_tuples : List HistTuple

-- `s < t`, by code points.
abbrev pub text_lt : String → String → Bool
text_lt s String.[] = false
text_lt String.[] (String.◌∷◌ d t) = true
text_lt (String.◌∷◌ c s) (String.◌∷◌ d t) =
    let rest = text_lt s t in if code c == code d then rest else ltb (code c) (code d)

module _ {W : Type 0} ⦃f : Float W⦄ where
  abbrev pub zero_or : Option W → W
  zero_or none = f.lit 0 1
  zero_or (some c) = c

  abbrev pub reaches_minimum : Option W → Bool
  reaches_minimum none = false
  reaches_minimum (some c) = f.le (f.lit 30 100) c

  -- One turn of the loop over the results, with the excess of the episode.
  unfoldable pub qualify : W → StructuralResult W → StructuralResult W
  qualify total r =
      let contribution = compute_excess_failure_contribution r.excess_segment_failures total in
      if not r.baseline_sufficient
      then r
      else if f.le r.excess_segment_failures (f.lit 0 1)
      then record r {
        excess_failure_contribution = f.lit 0 1;
        evidence_strength = none;
        qualified_as_candidate = false;
      }
      else if leb min_failures_for_rca_evaluation r.actual_segment_failures
          && (f.lt (f.lit 0 1) r.excess_segment_failures && reaches_minimum contribution)
      then record r {
        excess_failure_contribution = zero_or contribution;
        evidence_strength =
            some (assign_evidence_strength (zero_or contribution) r.actual_segment_failures);
        qualified_as_candidate = true;
      }
      else record r {
        excess_failure_contribution = zero_or contribution;
        evidence_strength = none;
        qualified_as_candidate = false;
      }

  abbrev pub is_qualified : StructuralResult W → Bool
  is_qualified r = r.qualified_as_candidate

  abbrev pub qualified_candidates : W → List (StructuralResult W) → List (StructuralResult W)
  qualified_candidates total results = select is_qualified (map (qualify total) results)

  -- `key(a) < key(b)`, with the key (-contribution, -failures, dimension, value).
  unfoldable pub ranks_before : StructuralResult W → StructuralResult W → Bool
  ranks_before a b =
      if not (
        f.le a.excess_failure_contribution b.excess_failure_contribution
        && f.le b.excess_failure_contribution a.excess_failure_contribution)
      then f.lt b.excess_failure_contribution a.excess_failure_contribution
      else if not (a.actual_segment_failures == b.actual_segment_failures)
      then ltb b.actual_segment_failures a.actual_segment_failures
      else if not (a.dimension =s= b.dimension)
      then text_lt a.dimension b.dimension
      else text_lt a.value b.value

  abbrev pub insert : StructuralResult W → List (StructuralResult W) → List (StructuralResult W)
  insert a [] = a ∷ []
  insert a (b ∷ bs) = let rest = insert a bs in if ranks_before b a then b ∷ rest else a ∷ b ∷ bs

  -- `sorted(unranked, key=...)`; the rank of each is its place, from 1.
  abbrev pub rank_candidates : List (StructuralResult W) → List (StructuralResult W)
  rank_candidates [] = []
  rank_candidates (a ∷ rest) = insert a (rank_candidates rest)

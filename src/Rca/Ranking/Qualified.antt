-- ===== src/Rca/Ranking/Qualified.antt =====
-- What the candidates of src/core/rca/service.py have in common.
use revenue_degradation_reco.Prelude.{
  ℕ, ◌≤◌, ◌≡◌, refl, String, Option, none, some, List, [], ◌∷◌, Bool, true, false, ◌&&◌, inl, inr,
  arith, Bool-cases, if◌then◌else◌, leb, All, All-append,
}
use revenue_degradation_reco.Prelude.Float.{Float}
use revenue_degradation_reco.Events.{PaymentEvent}
use revenue_degradation_reco.Degradation.Models.{PaymentHealthSnapshot}
use revenue_degradation_reco.Rca.Models.{min_failures_for_rca_evaluation}
use revenue_degradation_reco.Rca.Calculator.{
  compute_excess_failure_contribution, assign_evidence_strength,
}
use revenue_degradation_reco.Rca.Ranking.{
  StructuralResult, qualify, zero_or, reaches_minimum, is_qualified, qualified_candidates, insert,
  rank_candidates, ranks_before,
}
use revenue_degradation_reco.Rca.Segments.{
  structural_results, structural_dimensions, results_for, evaluate_structural_candidate, values_of,
  is_terminal,
}

module _ {W : Type 0} ⦃f : Float W⦄ where
  -- A candidate: a segment with a baseline, enough failures, more than expected, and enough of the excess of
  -- the episode.
  pub record IsCandidate (total : W) (r : StructuralResult W) : Type 0 where
    pub baseline : r.baseline_sufficient ≡ true
    pub failures : min_failures_for_rca_evaluation ≤ r.actual_segment_failures
    pub excess : f.lt (f.lit 0 1) r.excess_segment_failures ≡ true
    pub share :
        compute_excess_failure_contribution r.excess_segment_failures total
        ≡ some r.excess_failure_contribution
    pub minimum : f.le (f.lit 30 100) r.excess_failure_contribution ≡ true
    pub strength :
        r.evidence_strength
        ≡ some (assign_evidence_strength r.excess_failure_contribution r.actual_segment_failures)

  minimum_of :
      (c : Option W)
      → reaches_minimum c ≡ true
      → (c ≡ some (zero_or c)) × (f.le (f.lit 30 100) (zero_or c) ≡ true)
  minimum_of none h = absurd (ground arith)
  minimum_of (some c) h = (refl, h)

  qualify-IsCandidate :
      (total : W) (r : StructuralResult W)
      → r.qualified_as_candidate ≡ false
      → (qualify total r).qualified_as_candidate ≡ true
      → IsCandidate total (qualify total r)
  unfolding qualify
  qualify-IsCandidate total r fresh h =
      let c = compute_excess_failure_contribution r.excess_segment_failures total in
      elim (Bool-cases r.baseline_sufficient) [
        | inl enough ↦ elim (Bool-cases (f.le r.excess_segment_failures (f.lit 0 1))) [
          | inl none_left ↦ absurd (ground (arith, (rw (enough, none_left) at h)))
          | inr over ↦
              elim (Bool-cases (
                leb min_failures_for_rca_evaluation r.actual_segment_failures
                && (f.lt (f.lit 0 1) r.excess_segment_failures && reaches_minimum c))) [
                  | inl meets ↦
                      let reached = minimum_of c (ground arith) in
                      rw (enough, over, meets)
                        (record {
                          baseline = refl;
                          failures = ground arith;
                          excess = ground arith;
                          share = reached.0;
                          minimum = reached.1;
                          strength = refl;
                        })
                  | inr short ↦ absurd (ground (arith, (rw (enough, over, short) at h)))
                ]
        ]
        | inr few ↦ absurd (ground (arith, fresh, (rw few at h)))
      ]

  abbrev pub IsFresh : StructuralResult W → Type 0
  IsFresh r = r.qualified_as_candidate ≡ false

  map-IsFresh :
      (events : List PaymentEvent) (transactions failures : ℕ) (dimension field : String)
      (starts : List ℕ) (rows : List (PaymentHealthSnapshot W)) (values : List String)
      → All IsFresh (results_for events transactions failures dimension field starts rows values)
  unfolding evaluate_structural_candidate
  map-IsFresh events transactions failures dimension field starts rows [] = tt
  map-IsFresh events transactions failures dimension field starts rows (v ∷ values) =
      (refl, map-IsFresh events transactions failures dimension field starts rows values)

  structural_results-IsFresh :
      (events : List PaymentEvent) (transactions failures : ℕ) (starts : List ℕ)
      (rows : List (PaymentHealthSnapshot W)) (ds : List (String × String))
      → All IsFresh (structural_results events transactions failures starts rows ds)
  unfolding structural_results
  structural_results-IsFresh events transactions failures starts rows [] = tt
  structural_results-IsFresh events transactions failures starts rows ((dimension, field) ∷ rest) =
      All-append IsFresh
        (results_for events transactions failures dimension field starts rows
          (values_of field is_terminal events))
        (structural_results events transactions failures starts rows rest)
        (map-IsFresh events transactions failures dimension field starts rows
          (values_of field is_terminal events))
        (structural_results-IsFresh events transactions failures starts rows rest)

  All-kept :
      (P : StructuralResult W → Type 0) (r : StructuralResult W) (kept : Bool)
      (rest : List (StructuralResult W))
      → (kept ≡ true → P r)
      → All P rest
      → All P (if kept then r ∷ rest else rest)
  All-kept P r true rest p q = (p refl, q)
  All-kept P r false rest p q = q

  qualified-IsCandidate :
      (total : W) (results : List (StructuralResult W))
      → All IsFresh results
      → All (IsCandidate total) (qualified_candidates total results)
  qualified-IsCandidate total [] p = tt
  qualified-IsCandidate total (r ∷ results) p =
      All-kept (IsCandidate total) (qualify total r) (is_qualified (qualify total r))
        (qualified_candidates total results) (qualify-IsCandidate total r p.0)
        (qualified-IsCandidate total results p.1)

  pub All-insert :
      (P : StructuralResult W → Type 0) (a : StructuralResult W) (bs : List (StructuralResult W))
      → P a
      → All P bs
      → All P (insert a bs)
  All-insert P a [] p q = (p, tt)
  All-insert P a (b ∷ bs) p q = elim (Bool-cases (ranks_before b a)) [
    | inl later ↦ rw later (q.0, All-insert P a bs p q.1)
    | inr first ↦ rw first (p, q)
  ]

  pub All-rank_candidates :
      (P : StructuralResult W → Type 0) (rs : List (StructuralResult W))
      → All P rs
      → All P (rank_candidates rs)
  All-rank_candidates P [] p = tt
  All-rank_candidates P (r ∷ rs) p =
      All-insert P r (rank_candidates rs) p.0 (All-rank_candidates P rs p.1)

  -- The ranked candidates of the structural results of an episode, whatever the events, the snapshots and
  -- the excess of the episode are: each has a sufficient baseline, at least ten failures, more failures
  -- than expected, at least 0.30 of the excess of the episode as its contribution, and the strength that
  -- the contribution and the failures give.
  pub rank_candidates-IsCandidate :
      (events : List PaymentEvent) (transactions failures : ℕ) (starts : List ℕ)
      (rows : List (PaymentHealthSnapshot W)) (total : W)
      → All (IsCandidate total) (
          rank_candidates (
            qualified_candidates total
              (structural_results events transactions failures starts rows structural_dimensions)))
  rank_candidates-IsCandidate events transactions failures starts rows total =
      let results =
        structural_results events transactions failures starts rows structural_dimensions in
      All-rank_candidates (IsCandidate total) (qualified_candidates total results) (
        qualified-IsCandidate total results (
          structural_results-IsFresh events transactions failures starts rows
            structural_dimensions))

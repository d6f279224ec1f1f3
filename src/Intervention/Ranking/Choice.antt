-- ===== src/Intervention/Ranking/Choice.antt =====
-- The best candidate (src/core/intervention/service.py) is the best.
use mathlib.Core.Path.{subst}
use revenue_degradation_reco.Prelude.{
  ◌≡◌, refl, Option, none, some, List, [], ◌∷◌, true, false, inl, inr, All, Bool, if◌then◌else◌,
  select, head?, arith, Bool-cases,
}
use revenue_degradation_reco.Intervention.Models.{CandidateRouteScore}
use revenue_degradation_reco.Intervention.Calculator.{at_least}
use revenue_degradation_reco.Intervention.Ranking.{
  ranks_before, sorted, enumerate, eligible, best_candidate,
}
use revenue_degradation_reco.Intervention.Ranking.Order.{at_least_refl}
use revenue_degradation_reco.Intervention.Ranking.Sorted.{
  InOrder, All-insert, All-sorted_back, sorted-InOrder,
}

module _ {W : Type 0} where
  -- What the best candidate is compared with those that were scored.
  abbrev pub IsBest : CandidateRouteScore W → List (CandidateRouteScore W) → Type 0
  IsBest best =
      All (λ c. c.is_eligible ≡ true → at_least best.policy_utility c.policy_utility ≡ true)

  first-IsBest :
      (best : CandidateRouteScore W) (cs : List (CandidateRouteScore W))
      → All (λ c. at_least best.policy_utility c.policy_utility ≡ true) (select eligible cs)
      → IsBest best cs
  first-IsBest best [] p = tt
  first-IsBest best (c ∷ cs) p = elim (Bool-cases c.is_eligible) [
    | inl fits ↦
        let q : (at_least best.policy_utility c.policy_utility ≡ true)
            × All (λ c. at_least best.policy_utility c.policy_utility ≡ true) (select eligible cs) =
          rw fits at p in
        ((λ e. q.0), first-IsBest best cs q.1)
    | inr unfit ↦ ((λ e. absurd (ground arith)), first-IsBest best cs (rw unfit at p))
  ]

  utilities :
      (a : CandidateRouteScore W) (cs : List (CandidateRouteScore W))
      → All (λ c. ranks_before a c ≡ true) cs
      → All (λ c. at_least a.policy_utility c.policy_utility ≡ true) cs
  unfolding ranks_before
  utilities a [] p = tt
  utilities a (c ∷ cs) p = let first = p.0 in (ground arith, utilities a cs p.1)

  head_of :
      (P : CandidateRouteScore W → Type 0) (best c : CandidateRouteScore W)
      (cs : List (CandidateRouteScore W))
      → head? (enumerate 1 (c ∷ cs)) ≡ some best
      → P (record c { rank = 1 })
      → P best
  head_of P best c cs h p = let same : record c { rank = 1 } ≡ best = ground arith in subst P same p

  head_utilities :
      (best : CandidateRouteScore W) (cs : List (CandidateRouteScore W))
      → InOrder cs
      → head? (enumerate 1 cs) ≡ some best
      → All (λ c. at_least best.policy_utility c.policy_utility ≡ true) cs
  head_utilities best [] p h = absurd (ground arith)
  head_utilities best (c ∷ cs) p h =
      head_of (λ a. All (λ c. at_least a.policy_utility c.policy_utility ≡ true) (c ∷ cs)) best c cs
        h (at_least_refl c.policy_utility, utilities c cs p.0)

  eligible-All :
      (cs : List (CandidateRouteScore W))
      → All (λ c. c.is_eligible ≡ true → c.is_eligible ≡ true) cs
  eligible-All [] = tt
  eligible-All (c ∷ cs) = ((λ fits. fits), eligible-All cs)

  headless :
      (cs : List (CandidateRouteScore W))
      → head? (enumerate 1 cs) ≡ none
      → All (λ c. true ≡ false) cs
  headless [] h = tt
  headless (c ∷ cs) h = absurd (ground arith)

  none_selected :
      (cs : List (CandidateRouteScore W))
      → All (λ c. true ≡ false) (select eligible cs)
      → All (λ c. c.is_eligible ≡ false) cs
  none_selected [] p = tt
  none_selected (c ∷ cs) p = elim (Bool-cases c.is_eligible) [
    | inl fits ↦
        let q : (true ≡ false) × All (λ c. true ≡ false) (select eligible cs) = rw fits at p in
        absurd (ground (arith, q.0))
    | inr unfit ↦ (unfit, none_selected cs (rw unfit at p))
  ]

  All-sorted :
      (P : CandidateRouteScore W → Type 0) (cs : List (CandidateRouteScore W))
      → All P cs
      → All P (sorted cs)
  All-sorted P [] p = tt
  All-sorted P (c ∷ cs) p = All-insert P c (sorted cs) p.0 (All-sorted P cs p.1)

  All-kept :
      (P : CandidateRouteScore W → Type 0) (c : CandidateRouteScore W) (kept : Bool)
      (rest : List (CandidateRouteScore W))
      → (kept ≡ true → P c)
      → All P rest
      → All P (if kept then c ∷ rest else rest)
  All-kept P c true rest p q = (p refl, q)
  All-kept P c false rest p q = q

  All-select :
      (P : CandidateRouteScore W → Type 0) (cs : List (CandidateRouteScore W))
      → All (λ c. c.is_eligible ≡ true → P c) cs
      → All P (select eligible cs)
  All-select P [] p = tt
  All-select P (c ∷ cs) p =
      All-kept P c c.is_eligible (select eligible cs) p.0 (All-select P cs p.1)

  head_with :
      (P : CandidateRouteScore W → Type 0) (best : CandidateRouteScore W)
      (cs : List (CandidateRouteScore W))
      → ((c : CandidateRouteScore W) → P c → P (record c { rank = 1 }))
      → All P cs
      → head? (enumerate 1 cs) ≡ some best
      → P best
  head_with P best [] rerank p h = absurd (ground arith)
  head_with P best (c ∷ cs) rerank p h = head_of P best c cs h (rerank c p.0)

  -- What holds of every eligible candidate, whatever its rank, holds of the best.
  pub best_candidate_inherits :
      (P : CandidateRouteScore W → Type 0) (best : CandidateRouteScore W)
      (cs : List (CandidateRouteScore W))
      → ((c : CandidateRouteScore W) → P c → P (record c { rank = 1 }))
      → All (λ c. c.is_eligible ≡ true → P c) cs
      → best_candidate cs ≡ some best
      → P best
  best_candidate_inherits P best cs rerank p h =
      head_with P best (sorted (select eligible cs)) rerank
        (All-sorted P (select eligible cs) (All-select P cs p)) h

  -- What a choice among scored candidates has to be: one that is eligible and has at least the utility
  -- of every eligible one, or none where none is eligible.
  abbrev pub IsChoice : Option (CandidateRouteScore W) → List (CandidateRouteScore W) → Type 0
  IsChoice none cs = All (λ c. c.is_eligible ≡ false) cs
  IsChoice (some best) cs = (best.is_eligible ≡ true) × IsBest best cs

  best_candidate-IsChoice_at :
      (cs : List (CandidateRouteScore W)) (choice : Option (CandidateRouteScore W))
      → best_candidate cs ≡ choice
      → IsChoice choice cs
  best_candidate-IsChoice_at cs none h = none_selected cs (
      All-sorted_back (λ c. true ≡ false) (select eligible cs)
        (headless (sorted (select eligible cs)) h))
  best_candidate-IsChoice_at cs (some best) h = (
    best_candidate_inherits (λ c. c.is_eligible ≡ true) best cs (λ c fits. fits) (eligible-All cs)
        h,
    first-IsBest best cs (
        All-sorted_back (λ c. at_least best.policy_utility c.policy_utility ≡ true)
          (select eligible cs)
          (head_utilities best (sorted (select eligible cs)) (sorted-InOrder (select eligible cs))
            h)),
  )

  -- The best candidate is eligible and has at least the utility of every eligible one; there is none
  -- only where no candidate is eligible.
  pub best_candidate-IsChoice :
      (candidate_scores : List (CandidateRouteScore W))
      → IsChoice (best_candidate candidate_scores) candidate_scores
  best_candidate-IsChoice cs = best_candidate-IsChoice_at cs (best_candidate cs) refl

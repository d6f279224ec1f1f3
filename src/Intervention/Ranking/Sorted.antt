-- ===== src/Intervention/Ranking/Sorted.antt =====
-- What score_and_rank_candidates (src/core/intervention/calculator.py) returns.
use mathlib.Core.Path.{◌∙◌}
use revenue_degradation_reco.Prelude.{
  ℕ, suc, ◌≡◌, refl, List, [], ◌∷◌, Bool, true, inl, inr, All, count_if, arith, Bool-cases,
}
use revenue_degradation_reco.Intervention.Models.{CandidateRouteScore}
use revenue_degradation_reco.Intervention.Ranking.{
  ranks_before, insert, sorted, enumerate, score_and_rank_candidates,
}
use revenue_degradation_reco.Intervention.Ranking.Order.{ranks_before_total, ranks_before_trans}

module _ {W : Type 0} where
  -- Every candidate ranks before all that follow it.
  abbrev pub InOrder : List (CandidateRouteScore W) → Type 0
  InOrder [] = Unit
  InOrder (a ∷ rest) = All (λ b. ranks_before a b ≡ true) rest × InOrder rest

  -- The ranks count up from n.
  abbrev pub CountsFrom : ℕ → List (CandidateRouteScore W) → Type 0
  CountsFrom n [] = Unit
  CountsFrom n (a ∷ rest) = (a.rank ≡ n) × CountsFrom (suc n) rest

  abbrev pub unranked : CandidateRouteScore W → CandidateRouteScore W
  unranked a = record a { rank = 0 }

  pub All-insert {κ} :
      (P : CandidateRouteScore W → Type κ) (a : CandidateRouteScore W)
      (bs : List (CandidateRouteScore W))
      → P a
      → All P bs
      → All P (insert a bs)
  All-insert P a [] p q = (p, tt)
  All-insert P a (b ∷ bs) p q = elim (Bool-cases (ranks_before a b)) [
    | inl first ↦ rw first (p, q)
    | inr later ↦ rw later (q.0, All-insert P a bs p q.1)
  ]

  All-insert_back {κ} :
      (P : CandidateRouteScore W → Type κ) (a : CandidateRouteScore W)
      (bs : List (CandidateRouteScore W))
      → All P (insert a bs)
      → P a × All P bs
  All-insert_back P a [] p = p
  All-insert_back P a (b ∷ bs) p = elim (Bool-cases (ranks_before a b)) [
    | inl first ↦ rw first at p
    | inr later ↦
        let q : P b × All P (insert a bs) = rw later at p in
        let r = All-insert_back P a bs q.1 in (r.0, (q.0, r.1))
  ]

  pub All-sorted_back {κ} :
      (P : CandidateRouteScore W → Type κ) (cs : List (CandidateRouteScore W))
      → All P (sorted cs)
      → All P cs
  All-sorted_back P [] p = tt
  All-sorted_back P (c ∷ cs) p =
      let q = All-insert_back P c (sorted cs) p in (q.0, All-sorted_back P cs q.1)

  All-weaken :
      (a b : CandidateRouteScore W) (cs : List (CandidateRouteScore W))
      → ranks_before a b ≡ true
      → All (λ c. ranks_before b c ≡ true) cs
      → All (λ c. ranks_before a c ≡ true) cs
  All-weaken a b [] h p = tt
  All-weaken a b (c ∷ cs) h p = (ranks_before_trans a b c h p.0, All-weaken a b cs h p.1)

  insert-InOrder :
      (a : CandidateRouteScore W) (bs : List (CandidateRouteScore W))
      → InOrder bs
      → InOrder (insert a bs)
  insert-InOrder a [] p = (tt, tt)
  insert-InOrder a (b ∷ bs) p = elim (Bool-cases (ranks_before a b)) [
    | inl first ↦ rw first ((first, All-weaken a b bs first p.0), p)
    | inr later ↦ rw later (
      All-insert (λ c. ranks_before b c ≡ true) a bs (ranks_before_total a b later) p.0,
      insert-InOrder a bs p.1,
    )
  ]

  pub sorted-InOrder : (cs : List (CandidateRouteScore W)) → InOrder (sorted cs)
  sorted-InOrder [] = tt
  sorted-InOrder (c ∷ cs) = insert-InOrder c (sorted cs) (sorted-InOrder cs)

  -- The order does not read the rank.
  All-enumerate :
      (a : CandidateRouteScore W) (m n : ℕ) (cs : List (CandidateRouteScore W))
      → All (λ c. ranks_before a c ≡ true) cs
      → All (λ c. ranks_before (record a { rank = m }) c ≡ true) (enumerate n cs)
  unfolding ranks_before
  All-enumerate a m n [] p = tt
  All-enumerate a m n (c ∷ cs) p = (p.0, All-enumerate a m (suc n) cs p.1)

  enumerate-InOrder :
      (n : ℕ) (cs : List (CandidateRouteScore W)) → InOrder cs → InOrder (enumerate n cs)
  enumerate-InOrder n [] p = tt
  enumerate-InOrder n (c ∷ cs) p =
      (All-enumerate c n (suc n) cs p.0, enumerate-InOrder (suc n) cs p.1)

  enumerate-CountsFrom : (n : ℕ) (cs : List (CandidateRouteScore W)) → CountsFrom n (enumerate n cs)
  enumerate-CountsFrom n [] = tt
  enumerate-CountsFrom n (c ∷ cs) = (refl, enumerate-CountsFrom (suc n) cs)

  count_if-insert :
      (q : CandidateRouteScore W → Bool) (a : CandidateRouteScore W)
      (bs : List (CandidateRouteScore W))
      → count_if q (insert a bs) ≡ count_if q (a ∷ bs)
  count_if-insert q a [] = refl
  count_if-insert q a (b ∷ bs) = elim (Bool-cases (ranks_before a b)) [
    | inl first ↦ rw first refl
    | inr later ↦ rw later (ground (arith, count_if-insert q a bs))
  ]

  count_if-sorted :
      (q : CandidateRouteScore W → Bool) (cs : List (CandidateRouteScore W))
      → count_if q (sorted cs) ≡ count_if q cs
  count_if-sorted q [] = refl
  count_if-sorted q (c ∷ cs) =
      count_if-insert q c (sorted cs) ∙ ground (arith, count_if-sorted q cs)

  count_if-enumerate :
      (q : CandidateRouteScore W → Bool) (n : ℕ) (cs : List (CandidateRouteScore W))
      → count_if (λ c. q (unranked c)) (enumerate n cs) ≡ count_if (λ c. q (unranked c)) cs
  count_if-enumerate q n [] = refl
  count_if-enumerate q n (c ∷ cs) = ground (arith, count_if-enumerate q (suc n) cs)

  -- The ranking has the candidates that it is given, each as often, up to their ranks; each ranks before
  -- all that follow it, by utility, then cost, then name; and the ranks are 1, 2, 3 and so on.
  pub score_and_rank_candidates-InOrder :
      (candidates : List (CandidateRouteScore W))
      → InOrder (score_and_rank_candidates candidates)
        × CountsFrom 1 (score_and_rank_candidates candidates)
        × ((q : CandidateRouteScore W → Bool)
            → count_if (λ c. q (unranked c)) (score_and_rank_candidates candidates)
              ≡ count_if (λ c. q (unranked c)) candidates)
  score_and_rank_candidates-InOrder candidates = (
    enumerate-InOrder 1 (sorted candidates) (sorted-InOrder candidates),
    enumerate-CountsFrom 1 (sorted candidates),
    λ q.
        count_if-enumerate q 1 (sorted candidates)
        ∙ count_if-sorted (λ c. q (unranked c)) candidates,
  )

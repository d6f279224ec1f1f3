-- ===== src/Degradation/Repository/Latest.antt =====
-- The latest signals of a segment (src/infrastructure/degradation_repository.py) form a timeline.
use revenue_degradation_reco.Prelude.{
  ℕ, suc, ◌≤◌, ◌≡◌, List, [], ◌∷◌, ◌==◌, ltb, inl, inr, arith, Bool-cases, All,
}
use revenue_degradation_reco.Prelude.Float.{Float}
use revenue_degradation_reco.Degradation.Models.{DegradationSignal}
use revenue_degradation_reco.Degradation.Timeline.Invariant.{Chronological}
use revenue_degradation_reco.Degradation.Repository.{add_latest, latest_signals}

module _ {W : Type 0} where
  -- Each window is later than the one before.
  abbrev pub IsIncreasing : ℕ → List (DegradationSignal W) → Type 0
  IsIncreasing from [] = Unit
  IsIncreasing from (s ∷ rest) = (from ≤ s.window_start) × IsIncreasing (suc s.window_start) rest

  add_latest-IsIncreasing :
      (from : ℕ) (s : DegradationSignal W) (xs : List (DegradationSignal W))
      → from ≤ s.window_start
      → IsIncreasing from xs
      → IsIncreasing from (add_latest s xs)
  add_latest-IsIncreasing from s [] p q = (p, tt)
  add_latest-IsIncreasing from s (x ∷ xs) p q =
      elim (Bool-cases (ltb s.window_start x.window_start)) [
        | inl before ↦ rw before (p, (ground arith, q.1))
        | inr later ↦ elim (Bool-cases (s.window_start == x.window_start)) [
          | inl same ↦ elim (Bool-cases (ltb x.evaluation_version s.evaluation_version)) [
            | inl newer ↦
                let equal : x.window_start ≡ s.window_start = ground arith in
                rw (later, same, newer) (p, (rw equal at q.1))
            | inr older ↦ rw (later, same, older) q
          ]
          | inr after ↦
              rw (later, after)
                (q.0, add_latest-IsIncreasing (suc x.window_start) s xs (ground arith) q.1)
        ]
      ]

  latest_signals-IsIncreasing :
      (signals : List (DegradationSignal W)) → IsIncreasing 0 (latest_signals signals)
  latest_signals-IsIncreasing [] = tt
  latest_signals-IsIncreasing (s ∷ rest) =
      add_latest-IsIncreasing 0 s (latest_signals rest) (omega arith)
        (latest_signals-IsIncreasing rest)

  All-add_latest {κ} :
      (P : DegradationSignal W → Type κ) (s : DegradationSignal W) (xs : List (DegradationSignal W))
      → P s
      → All P xs
      → All P (add_latest s xs)
  All-add_latest P s [] p q = (p, tt)
  All-add_latest P s (x ∷ xs) p q = elim (Bool-cases (ltb s.window_start x.window_start)) [
    | inl before ↦ rw before (p, q)
    | inr later ↦ elim (Bool-cases (s.window_start == x.window_start)) [
      | inl same ↦ elim (Bool-cases (ltb x.evaluation_version s.evaluation_version)) [
        | inl newer ↦ rw (later, same, newer) (p, q.1)
        | inr older ↦ rw (later, same, older) q
      ]
      | inr after ↦ rw (later, after) (q.0, All-add_latest P s xs p q.1)
    ]
  ]

  pub All-latest_signals {κ} :
      (P : DegradationSignal W → Type κ) (signals : List (DegradationSignal W))
      → All P signals
      → All P (latest_signals signals)
  All-latest_signals P [] p = tt
  All-latest_signals P (s ∷ rest) p =
      All-add_latest P s (latest_signals rest) p.0 (All-latest_signals P rest p.1)

module _ {W : Type 0} ⦃f : Float W⦄ where
  IsIncreasing-Chronological :
      (now from : ℕ) (signals : List (DegradationSignal W))
      → now ≤ from
      → IsIncreasing from signals
      → Chronological now signals
  IsIncreasing-Chronological now from [] h p = tt
  IsIncreasing-Chronological now from (s ∷ rest) h p = (
    omega (arith, p.0),
    IsIncreasing-Chronological s.window_start (suc s.window_start) rest (omega arith) p.1,
  )

  pub latest_signals-Chronological :
      (signals : List (DegradationSignal W)) → Chronological 0 (latest_signals signals)
  latest_signals-Chronological signals =
      IsIncreasing-Chronological 0 0 (latest_signals signals) (omega arith)
        (latest_signals-IsIncreasing signals)

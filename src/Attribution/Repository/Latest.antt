-- ===== src/Attribution/Repository/Latest.antt =====
-- `ORDER BY version DESC LIMIT 1` (src/infrastructure/attribution_repository.py and the other repositories)
-- after a row of the next version.
use revenue_degradation_reco.Prelude.{
  ℕ, ◌<◌, ◌≡◌, refl, some, List, [], ◌∷◌, ◌++◌, Bool, true, ltb, inl, inr, arith, Bool-cases, All,
}
use revenue_degradation_reco.Attribution.Repository.{latest}

-- The row that comes last is the latest, where its version is above those before.
pub latest_last {ℓ} :
    {A : Type ℓ} (version : A → ℕ) (p : A → Bool) (xs : List A) (d : A)
    → p d ≡ true
    → All (λ x. p x ≡ true → version x < version d) xs
    → latest version p (xs ++ d ∷ []) ≡ some d
latest_last version p [] d h k = rw h refl
latest_last version p (x ∷ xs) d h k = elim (Bool-cases (p x)) [
  | inl hit ↦
      let below = k.0 hit in
      let rest = latest_last version p xs d h k.1 in
      let first : ltb (version x) (version d) ≡ true = ground arith in rw (hit, rest, first) refl
  | inr miss ↦ rw (miss) (latest_last version p xs d h k.1)
]

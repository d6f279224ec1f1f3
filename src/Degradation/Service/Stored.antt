-- ===== src/Degradation/Service/Stored.antt =====
-- The episodes of a timeline after the last loop of src/core/degradation/service.py: each is stored.
use revenue_degradation_reco.Prelude.{
  ℕ, ◌≡◌, refl, ◌⊎◌, inl, inr, String, List, [], ◌∷◌, ◌++◌, map, true, false, ◌==◌, arith,
  Bool-cases, find, All, All-append,
}
use revenue_degradation_reco.Attempts.Registry.{exists}
use revenue_degradation_reco.Degradation.Models.{DegradationEpisode}
use revenue_degradation_reco.Degradation.Repository.{is_episode, update_row, upsert_row}
use revenue_degradation_reco.Degradation.Service.{is_listed}
use revenue_degradation_reco.Degradation.Service.Retired.{upsert_rows}

module _ {W : Type 0} where
  -- What a row says of an episode.
  abbrev pub Asserts : DegradationEpisode W → DegradationEpisode W → Type 0
  Asserts ep row =
      (row.status ≡ ep.status)
      × (row.ended_at_window ≡ ep.ended_at_window)
      × (row.peak_absolute_drop ≡ ep.peak_absolute_drop)
      × (row.affected_window_count ≡ ep.affected_window_count)
      × (row.severity ≡ ep.severity)

  -- There is a row of the episode, and it says what the episode is.
  abbrev pub IsCarried : List (DegradationEpisode W) → DegradationEpisode W → Type 0
  IsCarried rows ep =
      (exists (find (is_episode ep.episode_id) rows) ≡ true)
      × All (λ row. is_episode ep.episode_id row ≡ true → Asserts ep row) rows

  -- Every episode is carried, but for one with the identifier of a later one.
  abbrev pub IsStored : List (DegradationEpisode W) → List (DegradationEpisode W) → Type 0
  IsStored rows [] = Unit
  IsStored rows (ep ∷ eps) =
      ((is_listed ep.episode_id eps ≡ true) ⊎ IsCarried rows ep) × IsStored rows eps

  exists-map :
      (ep : DegradationEpisode W) (id : ℕ) (rows : List (DegradationEpisode W))
      → exists (find (is_episode id) (map (update_row ep) rows))
        ≡ exists (find (is_episode id) rows)
  exists-map ep id [] = refl
  exists-map ep id (row ∷ rows) = elim (Bool-cases (is_episode ep.episode_id row)) [
    | inl same ↦ rw same (ground (arith, exists-map ep id rows))
    | inr other ↦ rw other (ground (arith, exists-map ep id rows))
  ]

  exists-snoc :
      (ep : DegradationEpisode W) (id : ℕ) (rows : List (DegradationEpisode W))
      → exists (find (is_episode id) rows) ≡ true
      → exists (find (is_episode id) (rows ++ ep ∷ [])) ≡ true
  exists-snoc ep id [] h = absurd (ground arith)
  exists-snoc ep id (row ∷ rows) h = ground (arith, exists-snoc ep id rows)

  exists-last :
      (ep : DegradationEpisode W) (rows : List (DegradationEpisode W))
      → exists (find (is_episode ep.episode_id) (rows ++ ep ∷ [])) ≡ true
  exists-last ep [] = ground arith
  exists-last ep (row ∷ rows) = ground (arith, exists-last ep rows)

  -- The episode that is stored.
  map-Asserts :
      (ep : DegradationEpisode W) (rows : List (DegradationEpisode W))
      → All (λ row. is_episode ep.episode_id row ≡ true → Asserts ep row) (map (update_row ep) rows)
  map-Asserts ep [] = tt
  map-Asserts ep (row ∷ rows) = elim (Bool-cases (is_episode ep.episode_id row)) [
    | inl same ↦ rw same ((λ _. (refl, refl, refl, refl, refl)), map-Asserts ep rows)
    | inr other ↦ rw other ((λ hit. absurd (ground (arith, other, hit))), map-Asserts ep rows)
  ]

  absent-Asserts :
      (ep : DegradationEpisode W) (rows : List (DegradationEpisode W))
      → exists (find (is_episode ep.episode_id) rows) ≡ false
      → All (λ row. is_episode ep.episode_id row ≡ true → Asserts ep row) rows
  absent-Asserts ep [] h = tt
  absent-Asserts ep (row ∷ rows) h = elim (Bool-cases (is_episode ep.episode_id row)) [
    | inl same ↦ absurd (ground (arith, h, same))
    | inr other ↦
        ((λ hit. absurd (ground (arith, other, hit))), absent-Asserts ep rows (rw other at h))
  ]

  upsert-IsCarried :
      (ep : DegradationEpisode W) (rows : List (DegradationEpisode W))
      → IsCarried (upsert_row ep rows) ep
  upsert-IsCarried ep rows = elim (Bool-cases (exists (find (is_episode ep.episode_id) rows))) [
    | inl there ↦ rw there (rw (exists-map ep ep.episode_id rows) there, map-Asserts ep rows)
    | inr absent ↦ rw absent (
      exists-last ep rows,
      All-append _ rows (ep ∷ []) (absent-Asserts ep rows absent)
          ((λ _. (refl, refl, refl, refl, refl)), tt),
    )
  ]

  -- Another episode is stored.
  map_other-Asserts :
      (ep other : DegradationEpisode W) (rows : List (DegradationEpisode W))
      → (other.episode_id == ep.episode_id) ≡ false
      → All (λ row. is_episode ep.episode_id row ≡ true → Asserts ep row) rows
      → All
          (λ row. is_episode ep.episode_id row ≡ true → Asserts ep row)
          (map (update_row other) rows)
  map_other-Asserts ep other [] apart p = tt
  map_other-Asserts ep other (row ∷ rows) apart p =
      elim (Bool-cases (is_episode other.episode_id row)) [
        | inl same ↦ rw same (
          (λ hit. absurd (ground (arith, apart, same, hit))),
          map_other-Asserts ep other rows apart p.1,
        )
        | inr miss ↦ rw miss (p.0, map_other-Asserts ep other rows apart p.1)
      ]

  upsert_other-IsCarried :
      (ep other : DegradationEpisode W) (rows : List (DegradationEpisode W))
      → (other.episode_id == ep.episode_id) ≡ false
      → IsCarried rows ep
      → IsCarried (upsert_row other rows) ep
  upsert_other-IsCarried ep other rows apart p =
      elim (Bool-cases (exists (find (is_episode other.episode_id) rows))) [
        | inl there ↦ rw there (
          rw (exists-map other ep.episode_id rows) p.0,
          map_other-Asserts ep other rows apart p.1,
        )
        | inr absent ↦ rw absent (
          exists-snoc other ep.episode_id rows p.0,
          All-append _ rows (other ∷ []) p.1 ((λ hit. absurd (ground (arith, apart, hit))), tt),
        )
      ]

  module _ (dimension value : String) (valid : List (DegradationEpisode W)) where
    upsert_rows-IsCarried :
        (ep : DegradationEpisode W) (eps rows : List (DegradationEpisode W))
        → is_listed ep.episode_id eps ≡ false
        → IsCarried rows ep
        → IsCarried (upsert_rows dimension value valid eps rows) ep
    upsert_rows-IsCarried ep [] rows fresh p = p
    upsert_rows-IsCarried ep (other ∷ eps) rows fresh p =
        upsert_rows-IsCarried ep eps (upsert_row other rows) (ground (arith, fresh))
          (upsert_other-IsCarried ep other rows (ground (arith, fresh)) p)

    pub upsert_rows-IsStored :
        (eps rows : List (DegradationEpisode W))
        → IsStored (upsert_rows dimension value valid eps rows) eps
    upsert_rows-IsStored [] rows = tt
    upsert_rows-IsStored (ep ∷ eps) rows = (
      elim (Bool-cases (is_listed ep.episode_id eps)) [
        | inl again ↦ inl again
        | inr fresh ↦
            inr (upsert_rows-IsCarried ep eps (upsert_row ep rows) fresh (upsert-IsCarried ep rows))
      ],
      upsert_rows-IsStored eps (upsert_row ep rows),
    )

-- ===== src/Degradation/Service/Retired.antt =====
-- What src/core/degradation/service.py leaves in the table of episodes.
use mathlib.Core.Path.{subst}
use mathlib.Core.List.{Memᴰ}
use revenue_degradation_reco.Prelude.{
  ◌≡◌, refl, sym, ap, ◌⊎◌, inl, inr, String, List, [], ◌∷◌, map, true, false, arith, Bool-cases,
  if◌then◌else◌, find, select, All, All-append, ==_iff,
}
use revenue_degradation_reco.Attempts.Registry.{exists}
use revenue_degradation_reco.Degradation.Models.{
  EpisodeStatus, active, recovered, invalidated, DegradationEpisode,
}
use revenue_degradation_reco.Degradation.Repository.{is_episode, update_row, upsert_row, episode_of}
use revenue_degradation_reco.Degradation.Service.{is_invalidated, is_listed, is_stale}

invalidated_of : (status : EpisodeStatus) → is_invalidated status ≡ true → status ≡ invalidated
invalidated_of active h = absurd (ground arith)
invalidated_of recovered h = absurd (ground arith)
invalidated_of invalidated h = refl

module _ {W : Type 0} (dimension value : String) (valid : List (DegradationEpisode W)) where
  -- A row of the segment is one of the episodes of the timeline, or it is invalidated.
  abbrev pub IsRetired : DegradationEpisode W → Type 0
  IsRetired row =
      episode_of dimension value row ≡ true
      → (is_listed row.episode_id valid ≡ true) ⊎ (row.status ≡ invalidated)

  -- Or it is still to be looked at.
  abbrev IsPending : List (DegradationEpisode W) → DegradationEpisode W → Type 0
  IsPending existing row = IsRetired row ⊎ Memᴰ row existing

  not_stale-IsRetired : (ep : DegradationEpisode W) → is_stale valid ep ≡ false → IsRetired ep
  not_stale-IsRetired ep fine inside = elim (Bool-cases (is_listed ep.episode_id valid)) [
    | inl listed ↦ inl listed
    | inr unlisted ↦ inr (invalidated_of ep.status (ground arith))
  ]

  looked_at :
      (ep row : DegradationEpisode W) (existing : List (DegradationEpisode W))
      → is_stale valid ep ≡ false
      → IsPending (ep ∷ existing) row
      → IsPending existing row
  looked_at ep row existing fine (inl done) = inl done
  looked_at ep row existing fine (inr (Memᴰ.head e)) =
      inl (subst IsRetired (sym e) (not_stale-IsRetired ep fine))
  looked_at ep row existing fine (inr (Memᴰ.tail m)) = inr m

  All-looked_at :
      (ep : DegradationEpisode W) (existing rows : List (DegradationEpisode W))
      → is_stale valid ep ≡ false
      → All (IsPending (ep ∷ existing)) rows
      → All (IsPending existing) rows
  All-looked_at ep existing [] fine p = tt
  All-looked_at ep existing (row ∷ rows) fine p =
      (looked_at ep row existing fine p.0, All-looked_at ep existing rows fine p.1)

  left_over :
      (ep row : DegradationEpisode W) (existing : List (DegradationEpisode W))
      → IsPending (ep ∷ existing) row
      → is_episode ep.episode_id row ≡ false
      → IsPending existing row
  left_over ep row existing (inl done) other = inl done
  left_over ep row existing (inr (Memᴰ.head e)) other =
      absurd (ground (arith, other, (ap (λ (r : DegradationEpisode W). r.episode_id) e)))
  left_over ep row existing (inr (Memᴰ.tail m)) other = inr m

  -- A row after the invalidation of an episode.
  updated-IsPending :
      (ep row : DegradationEpisode W) (existing : List (DegradationEpisode W))
      → IsPending (ep ∷ existing) row
      → IsPending existing (update_row (record ep { status = invalidated }) row)
  updated-IsPending ep row existing p = elim (Bool-cases (is_episode ep.episode_id row)) [
    | inl same ↦ rw same (inl (λ inside. inr refl))
    | inr other ↦ rw other (left_over ep row existing p other)
  ]

  map-IsPending :
      (ep : DegradationEpisode W) (existing rows : List (DegradationEpisode W))
      → All (IsPending (ep ∷ existing)) rows
      → All (IsPending existing) (map (update_row (record ep { status = invalidated })) rows)
  map-IsPending ep existing [] p = tt
  map-IsPending ep existing (row ∷ rows) p =
      (updated-IsPending ep row existing p.0, map-IsPending ep existing rows p.1)

  absent-IsPending :
      (ep : DegradationEpisode W) (existing rows : List (DegradationEpisode W))
      → exists (find (is_episode ep.episode_id) rows) ≡ false
      → All (IsPending (ep ∷ existing)) rows
      → All (IsPending existing) rows
  absent-IsPending ep existing [] h p = tt
  absent-IsPending ep existing (row ∷ rows) h p = elim (Bool-cases (is_episode ep.episode_id row)) [
    | inl same ↦ absurd (ground (arith, h, same))
    | inr other ↦
        (left_over ep row existing p.0 other, absent-IsPending ep existing rows (rw other at h) p.1)
  ]

  upsert-IsPending :
      (ep : DegradationEpisode W) (existing rows : List (DegradationEpisode W))
      → All (IsPending (ep ∷ existing)) rows
      → All (IsPending existing) (upsert_row (record ep { status = invalidated }) rows)
  upsert-IsPending ep existing rows p =
      elim (Bool-cases (exists (find (is_episode ep.episode_id) rows))) [
        | inl there ↦ rw there (map-IsPending ep existing rows p)
        | inr absent ↦ rw absent (
            All-append (IsPending existing) rows _ (absent-IsPending ep existing rows absent p)
              (inl (λ inside. inr refl), tt))
      ]

  not_nil : (row : DegradationEpisode W) → Memᴰ row [] → ⊥
  not_nil row m = elim m [ ]

  done_with : (rows : List (DegradationEpisode W)) → All (IsPending []) rows → All IsRetired rows
  done_with [] p = tt
  done_with (row ∷ rows) (inl done, p) = (done, done_with rows p)
  done_with (row ∷ rows) (inr m, p) = absurd (not_nil row m)

  -- The loop over the episodes found for the segment.
  abbrev pub invalidate_rows :
      List (DegradationEpisode W) → List (DegradationEpisode W) → List (DegradationEpisode W)
  invalidate_rows [] rows = rows
  invalidate_rows (ep ∷ existing) rows =
      invalidate_rows existing
        (if is_stale valid ep then upsert_row (record ep { status = invalidated }) rows else rows)

  invalidate_rows-IsRetired :
      (existing rows : List (DegradationEpisode W))
      → All (IsPending existing) rows
      → All IsRetired (invalidate_rows existing rows)
  invalidate_rows-IsRetired [] rows p = done_with rows p
  invalidate_rows-IsRetired (ep ∷ existing) rows p = elim (Bool-cases (is_stale valid ep)) [
    | inl stale ↦
        rw stale (invalidate_rows-IsRetired existing _ (upsert-IsPending ep existing rows p))
    | inr fine ↦
        rw fine (invalidate_rows-IsRetired existing rows (All-looked_at ep existing rows fine p))
  ]

  -- The rows of the segment are those found for it.
  IsPending-tail :
      (ep : DegradationEpisode W) (existing rows : List (DegradationEpisode W))
      → All (IsPending existing) rows
      → All (IsPending (ep ∷ existing)) rows
  IsPending-tail ep existing [] p = tt
  IsPending-tail ep existing (row ∷ rows) (inl done, p) =
      (inl done, IsPending-tail ep existing rows p)
  IsPending-tail ep existing (row ∷ rows) (inr m, p) =
      (inr (Memᴰ.tail m), IsPending-tail ep existing rows p)

  All-IsPending :
      (rows : List (DegradationEpisode W))
      → All (IsPending (select (episode_of dimension value) rows)) rows
  All-IsPending [] = tt
  All-IsPending (row ∷ rows) = elim (Bool-cases (episode_of dimension value row)) [
    | inl inside ↦
        let chosen : select (episode_of dimension value) (row ∷ rows)
            ≡ row ∷ select (episode_of dimension value) rows =
          rw inside refl in
        subst (λ existing. All (IsPending existing) (row ∷ rows)) (sym chosen)
          (
            inr (Memᴰ.head refl),
            IsPending-tail row (select (episode_of dimension value) rows) rows (All-IsPending rows),
          )
    | inr outside ↦
        let chosen : select (episode_of dimension value) (row ∷ rows)
            ≡ select (episode_of dimension value) rows =
          rw outside refl in
        subst (λ existing. All (IsPending existing) (row ∷ rows)) (sym chosen)
          (inl (λ inside. absurd (ground (arith, outside, inside))), All-IsPending rows)
  ]

  pub found-IsRetired :
      (rows : List (DegradationEpisode W))
      → All IsRetired (invalidate_rows (select (episode_of dimension value) rows) rows)
  found-IsRetired rows =
      invalidate_rows-IsRetired (select (episode_of dimension value) rows) rows (All-IsPending rows)

  -- The loop over the episodes of the timeline.
  listed-IsRetired :
      (ep row : DegradationEpisode W)
      → is_listed ep.episode_id valid ≡ true
      → IsRetired row
      → IsRetired (update_row ep row)
  listed-IsRetired ep row listed p = elim (Bool-cases (is_episode ep.episode_id row)) [
    | inl same ↦
        let equal = (==_iff row.episode_id ep.episode_id).0 same in
        rw same (λ inside. inl (rw equal listed))
    | inr other ↦ rw other p
  ]

  map-IsRetired :
      (ep : DegradationEpisode W) (rows : List (DegradationEpisode W))
      → is_listed ep.episode_id valid ≡ true
      → All IsRetired rows
      → All IsRetired (map (update_row ep) rows)
  map-IsRetired ep [] listed p = tt
  map-IsRetired ep (row ∷ rows) listed p =
      (listed-IsRetired ep row listed p.0, map-IsRetired ep rows listed p.1)

  upsert-IsRetired :
      (ep : DegradationEpisode W) (rows : List (DegradationEpisode W))
      → is_listed ep.episode_id valid ≡ true
      → All IsRetired rows
      → All IsRetired (upsert_row ep rows)
  upsert-IsRetired ep rows listed p =
      elim (Bool-cases (exists (find (is_episode ep.episode_id) rows))) [
        | inl there ↦ rw there (map-IsRetired ep rows listed p)
        | inr absent ↦ rw absent (All-append IsRetired rows _ p ((λ inside. inl listed), tt))
      ]

  abbrev pub upsert_rows :
      List (DegradationEpisode W) → List (DegradationEpisode W) → List (DegradationEpisode W)
  upsert_rows [] rows = rows
  upsert_rows (ep ∷ eps) rows = upsert_rows eps (upsert_row ep rows)

  pub upsert_rows-IsRetired :
      (eps rows : List (DegradationEpisode W))
      → All (λ (ep : DegradationEpisode W). is_listed ep.episode_id valid ≡ true) eps
      → All IsRetired rows
      → All IsRetired (upsert_rows eps rows)
  upsert_rows-IsRetired [] rows listed p = p
  upsert_rows-IsRetired (ep ∷ eps) rows listed p =
      upsert_rows-IsRetired eps (upsert_row ep rows) listed.1 (upsert-IsRetired ep rows listed.0 p)

module _ {W : Type 0} where
  listed_tail :
      (e : DegradationEpisode W) (valid eps : List (DegradationEpisode W))
      → All (λ (ep : DegradationEpisode W). is_listed ep.episode_id valid ≡ true) eps
      → All (λ (ep : DegradationEpisode W). is_listed ep.episode_id (e ∷ valid) ≡ true) eps
  listed_tail e valid [] p = tt
  listed_tail e valid (ep ∷ eps) p = (ground (arith, p.0), listed_tail e valid eps p.1)

  pub All-listed :
      (valid : List (DegradationEpisode W))
      → All (λ (ep : DegradationEpisode W). is_listed ep.episode_id valid ≡ true) valid
  All-listed [] = tt
  All-listed (ep ∷ valid) = (ground arith, listed_tail ep valid valid (All-listed valid))

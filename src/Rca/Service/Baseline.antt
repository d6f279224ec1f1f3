-- ===== src/Rca/Service/Baseline.antt =====
-- The baseline of all payments that src/core/rca/service.py asks for, on the table that src/core/analytics
-- keeps.
use revenue_degradation_reco.Prelude.{
  ℕ, ◌≡◌, refl, ap, String, List, [], ◌∷◌, false, ◌=s=◌, inl, inr, arith, Bool-cases, select, All,
}
use revenue_degradation_reco.Prelude.Float.{Float}
use revenue_degradation_reco.Store.{Database}
use revenue_degradation_reco.Degradation.Models.{DegradationEpisode, PaymentHealthSnapshot}
use revenue_degradation_reco.Analytics.Repository.{snapshot_at}
use revenue_degradation_reco.Analytics.Calculator.Labels.{IsLabelled}
use revenue_degradation_reco.Analytics.Service.Saved.{IsKept}
use revenue_degradation_reco.Rca.Calculator.{at_least_zero}
use revenue_degradation_reco.Rca.Ranking.{StructuralResult}
use revenue_degradation_reco.Rca.Segments.{baseline_rate}
use revenue_degradation_reco.Rca.Models.{RootCauseAnalysisEvaluation}
use revenue_degradation_reco.Attribution.Repository.{latest}
use revenue_degradation_reco.Rca.Repository.{of_episode, get_latest_evaluation_for_episode}
use revenue_degradation_reco.Rca.Service.{
  RcaNames, Window, failures_of, tuples_of, fingerprint_of, get_hist_snapshot_for_dim, unless_same,
  is_same, judge, episode_total_excess, evaluate_results,
}

not_global : (value : String) → value ≡ "ALL" → (value =s= "GLOBAL") ≡ false
not_global value e = rw e refl

module _ {W : Type 0} where
  misses :
      (starts : List ℕ) (s : PaymentHealthSnapshot W)
      → IsLabelled s
      → snapshot_at starts "GLOBAL" "GLOBAL" s ≡ false
  misses starts s label = elim (Bool-cases (s.segment_dimension =s= "GLOBAL")) [
    | inl global ↦ ground (arith, not_global s.segment_value (label global))
    | inr other ↦ ground arith
  ]

  none_found :
      (starts : List ℕ) (rows : List (PaymentHealthSnapshot W))
      → All IsLabelled rows
      → select (snapshot_at starts "GLOBAL" "GLOBAL") rows ≡ []
  none_found starts [] p = refl
  none_found starts (s ∷ rows) p = rw (misses starts s p.0) (none_found starts rows p.1)

module _ {W : Type 0} ⦃f : Float W⦄ (names : RcaNames) (now : ℕ)
    (episode : DegradationEpisode W) where
  -- The excess where nothing is expected.
  abbrev pub whole_excess : Window → W
  whole_excess w = at_least_zero (f.sub (f.lit (failures_of w) 1) (f.lit 0 1))

  -- On a table of snapshots as the analytics keeps it, an evaluation finds no snapshot of all payments, and
  -- goes on as if no failure were expected, whatever the history of the payments is: the excess of the
  -- episode is the number of its failures.
  pub evaluate_results-whole_excess :
      (w : Window) (starts : List ℕ) (results : List (StructuralResult W)) (db : Database W)
      → IsKept db
      → evaluate_results names now episode w starts results db
        ≡ unless_same names now episode
            (fingerprint_of names now episode w (tuples_of results))
            (judge names now episode w
              (fingerprint_of names now episode w (tuples_of results))
              results
              (whole_excess w))
            db
  unfolding evaluate_results unless_same get_latest_evaluation_for_episode get_hist_snapshot_for_dim
      baseline_rate
  evaluate_results-whole_excess w starts results db kept =
      let none_there = none_found starts db.payment_health_snapshots kept.1 in
      let fingerprint = fingerprint_of names now episode w (tuples_of results) in
      elim (Bool-cases (
        is_same names now episode fingerprint (
          latest (λ (e : RootCauseAnalysisEvaluation). e.evaluation_version)
            (of_episode episode.episode_id) db.rca_evaluations))) [
              | inl same ↦ rw same refl
              | inr other ↦ rw other (
                  ap
                    (λ snapshots.
                      judge names now episode w fingerprint results
                        (episode_total_excess names now episode w snapshots) db)
                    none_there)
            ]

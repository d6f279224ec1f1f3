-- ===== src/Intervention/Service/Reads.antt =====
-- The context that src/core/intervention/service.py gathers does not depend on the decisions stored.
use revenue_degradation_reco.Prelude.{
  ℕ, ◌≡◌, refl, sym, ap, ◌∙◌, select, String, Option, none, some, List, [], ◌∷◌, Bool-cases, inl,
  inr, ◌⊎◌,
}
use revenue_degradation_reco.Errors.{Error, unsupported_provider, Result, ok, err, Result-cases}
use revenue_degradation_reco.Action.{Action, continue, pure, gets, ◌>>=◌}
use revenue_degradation_reco.Action.Keeps.{Reads}
use revenue_degradation_reco.Store.{Database}
use revenue_degradation_reco.Events.{PaymentEvent}
use revenue_degradation_reco.Attempts.Identity.{AttemptRef, validate_provider, is_pipeline_provider}
use revenue_degradation_reco.Attempts.Registry.{require}
use revenue_degradation_reco.Attempts.Registry.Laws.{judge_row_any}
use revenue_degradation_reco.Degradation.Models.{EpisodeStateHistory}
use revenue_degradation_reco.Rca.Models.{RootCauseAnalysisEvaluation}
use revenue_degradation_reco.Features.Repository.{
  get_payment_event_by_id, get_most_severe_active_episode, get_rca_context, rank_1_of, one_or_none,
  rank_1_candidate, most_severe_active, trigger_at,
}
use revenue_degradation_reco.Attribution.Repository.{validated}
use revenue_degradation_reco.Intervention.Models.{InterventionDecision}
use revenue_degradation_reco.Intervention.Repository.{
  check_terminal_event_exists, get_stage5_prediction_as_of,
}
use revenue_degradation_reco.Intervention.Context.{
  gather, diagnose, diagnose_episode, with_rca, in_episode,
}

module _ {W : Type 0} where
  -- The database with another table of decisions.
  abbrev pub with_decisions : List (InterventionDecision W) → Database W → Database W
  with_decisions ds db = record db { intervention_decisions = ds }

  -- The answer does not depend on that table, and nothing is written.
  abbrev pub IsBlind : {A : Type 0} → Action (Database W) A → Type 0
  IsBlind m =
      (ds : List (InterventionDecision W)) (db : Database W)
      → m (with_decisions ds db) ≡ ((m db).0, with_decisions ds db)

module _ {W A : Type 0} where
  pub IsBlind-Reads : (m : Action (Database W) A) → IsBlind m → Reads m
  IsBlind-Reads m blind db = ap (λ r. r.1) (blind db.intervention_decisions db)

module _ {W A B : Type 0} where
  blind_continue :
      (f : A → Action (Database W) B) (r : Result A) (ds : List (InterventionDecision W))
      (db : Database W)
      → ((a : A) → IsBlind (f a))
      → continue (r, with_decisions ds db) f ≡ ((continue (r, db) f).0, with_decisions ds db)
  blind_continue f (ok a) ds db blind = blind a ds db
  blind_continue f (err x) ds db blind = refl

  pub IsBlind-bind :
      (m : Action (Database W) A) (f : A → Action (Database W) B)
      → IsBlind m
      → ((a : A) → IsBlind (f a))
      → IsBlind (m >>= f)
  IsBlind-bind m f bm bf ds db =
      ap (λ r. continue r f) (bm ds db)
      ∙ blind_continue f (m db).0 ds db bf
      ∙ ap (λ s. ((continue ((m db).0, s) f).0, with_decisions ds db)) (sym (IsBlind-Reads m bm db))

module _ {W : Type 0} where
  pub validated-IsBlind : (source : Option String) → IsBlind (validated {W = W} source)
  validated-IsBlind none ds db = refl
  validated-IsBlind (some s) ds db = elim (Result-cases (validate_provider (some s))) [
    | inl (p, e) ↦ rw e refl
    | inr (x, e) ↦ rw e refl
  ]

  -- A query that names its provider.
  asked-IsBlind :
      {A : Type 0} (source : Option String) (query : Option String → Database W → A)
      → ((s : Option String) (ds : List (InterventionDecision W)) (db : Database W)
          → query s (with_decisions ds db) ≡ query s db)
      → IsBlind (validated {W = W} source >>= λ s. gets (query s))
  asked-IsBlind source query same =
      IsBlind-bind (validated source) (λ s. gets (query s)) (validated-IsBlind source)
        (λ s ds db. ap (λ a. (ok a, with_decisions ds db)) (same s ds db))

  require-IsBlind : (attempt : AttemptRef) → IsBlind (require {W = W} attempt)
  unfolding require
  require-IsBlind attempt ds db = judge_row_any attempt _ db (with_decisions ds db)

  one_or_none-IsBlind : {A : Type 0} (rows : List A) → IsBlind (one_or_none {W = W} rows)
  one_or_none-IsBlind [] ds db = refl
  one_or_none-IsBlind (a ∷ []) ds db = refl
  one_or_none-IsBlind (a ∷ b ∷ rest) ds db = refl

  rank_1_candidate-IsBlind :
      (e : Option RootCauseAnalysisEvaluation) → IsBlind (rank_1_candidate {W = W} e)
  unfolding rank_1_candidate
  rank_1_candidate-IsBlind none ds db = refl
  rank_1_candidate-IsBlind (some e) ds db =
      IsBlind-bind (one_or_none (select (rank_1_of e.evaluation_id) db.rca_candidate_causes))
        (λ c. pure (some (e, c))) (one_or_none-IsBlind _) (λ c ds' db'. refl) ds db

  diagnose-IsBlind : (t : ℕ) (e : Option PaymentEvent) → IsBlind (diagnose {W = W} t e)
  unfolding diagnose get_most_severe_active_episode
  diagnose-IsBlind t none ds db = refl
  diagnose-IsBlind t (some e) ds db = go (most_severe_active e t db.episode_state_history)
    where
      go :
          (episode : Option EpisodeStateHistory)
          → diagnose_episode t episode (with_decisions ds db)
            ≡ ((diagnose_episode t episode db).0, with_decisions ds db)
      go none = unfold diagnose_episode in refl
      go (some row) =
          unfold diagnose_episode get_rca_context in
          IsBlind-bind (rank_1_candidate _) (λ rca. pure (with_rca rca (in_episode row)))
            (rank_1_candidate-IsBlind _) (λ c ds' db'. refl) ds db

  pub gather-IsBlind : (attempt : AttemptRef) (t : ℕ) → IsBlind (gather {W = W} attempt t)
  unfolding gather get_payment_event_by_id check_terminal_event_exists get_stage5_prediction_as_of
  gather-IsBlind attempt t =
      IsBlind-bind (require attempt) _ (require-IsBlind attempt) λ registered ds db.
        IsBlind-bind
          (check_terminal_event_exists attempt.payment_attempt_id t (some attempt.source_system)) _
          (asked-IsBlind (some attempt.source_system) _ (λ s ds' db'. refl))
          (λ terminal.
            IsBlind-bind
              (get_stage5_prediction_as_of attempt.payment_attempt_id t
                (some attempt.source_system))
              _ (asked-IsBlind (some attempt.source_system) _ (λ s ds' db'. refl))
              (λ prediction.
                IsBlind-bind
                  (diagnose t (trigger_at attempt.payment_attempt_id t db.payment_events)) _
                  (diagnose-IsBlind t _) (λ d ds' db'. refl)))
          ds db

  -- A provider that is named passes through, or the query raises.
  pub validated_cases :
      (source : String) (db : Database W)
      → (validated (some source) db ≡ (ok (some source), db))
        ⊎ ((x : Error) × (validated (some source) db ≡ (err x, db)))
  unfolding validate_provider
  validated_cases source db = elim (Bool-cases (is_pipeline_provider source)) [
    | inl known ↦ inl (rw known refl)
    | inr foreign ↦ inr (unsupported_provider, rw foreign refl)
  ]

  -- The queries of decisions only read, too.
  pub query-Reads :
      {A : Type 0} (source : Option String) (query : Option String → Database W → A)
      → Reads (validated {W = W} source >>= λ s. gets (query s))
  query-Reads none query db = refl
  query-Reads (some s) query db = elim (Result-cases (validate_provider (some s))) [
    | inl (p, e) ↦ rw e refl
    | inr (x, e) ↦ rw e refl
  ]

-- ===== src/Intervention/Repository.antt =====
-- src/infrastructure/intervention_repository.py: reads and appends of Stage 6. The advisory locks are
-- left out.
use revenue_degradation_reco.Prelude.{
  ℕ, String, Option, none, some, List, [], ◌∷◌, ◌++◌, Bool, true, false, not, ◌&&◌, ◌||◌, ◌==◌,
  ◌=s=◌, leb, ltb, if◌then◌else◌, find, count_if,
}
use revenue_degradation_reco.Errors.{ok, err, integrity_error}
use revenue_degradation_reco.Action.{Action, gets, ◌>>=◌}
use revenue_degradation_reco.Events.{PaymentEvent}
use revenue_degradation_reco.Store.{RegistryRow, FailurePrediction, Database}
use revenue_degradation_reco.Attempts.Identity.{paypal_source_system, paypal_order_id}
use revenue_degradation_reco.Attempts.Registry.{exists}
use revenue_degradation_reco.Intervention.Models.{InterventionRouteKey, InterventionDecision}
use revenue_degradation_reco.Intervention.Ranking.{alphabetical}
use revenue_degradation_reco.Execution.Service.{is_act}
use revenue_degradation_reco.Execution.Repository.{larger}
use revenue_degradation_reco.Execution.Repository.Events.{
  any_event, paypal_terminal, payment_terminal, not_excluded,
}
use revenue_degradation_reco.Attribution.Repository.{latest, validated}

-- The composite identity that the joins ask for.
abbrev pub registers : String → String → RegistryRow → Bool
registers attempt source row = row.payment_attempt_id =s= attempt && row.source_system =s= source

abbrev pub is_registered : String → String → List RegistryRow → Bool
is_registered attempt source rows = exists (find (registers attempt source) rows)

abbrev pub ingested_before : ℕ → (PaymentEvent → Bool) → PaymentEvent → Bool
ingested_before t p e = p e && ltb e.ingested_at t

-- `paypal_order_id(payment_id) or payment_id`
abbrev pub order_or_key : String → String
order_or_key payment_id = elim (paypal_order_id payment_id) [
  | none ↦ payment_id
  | some order ↦ order
]

-- The events that end the attempt, with and without its provider.
unfoldable pub ends_attempt : Option String → String → PaymentEvent → Bool
unfolding paypal_terminal payment_terminal
ends_attempt (some source) payment_id e =
    if source =s= paypal_source_system
    then paypal_terminal (order_or_key payment_id) e
    else payment_terminal (λ s. s =s= source) payment_id e
ends_attempt none payment_id e = elim (paypal_order_id payment_id) [
  | some order ↦ paypal_terminal order e
  | none ↦ payment_terminal not_excluded payment_id e
]

abbrev pub same_route : InterventionRouteKey → Option InterventionRouteKey → Bool
same_route key none = false
same_route key (some k) = alphabetical key == alphabetical k

module _ {W : Type 0} where
  abbrev pub decision_under :
      String → Option String → List RegistryRow → InterventionDecision W → Bool
  decision_under attempt none rows d = d.payment_attempt_id =s= attempt
  decision_under attempt (some source) rows d =
      d.payment_attempt_id =s= attempt
      && (d.source_system =s= source && is_registered attempt source rows)

  -- `max(decision_version) or 0`
  abbrev pub max_version : (InterventionDecision W → Bool) → List (InterventionDecision W) → ℕ
  max_version p [] = 0
  max_version p (d ∷ rest) =
      let later = max_version p rest in if p d then larger d.decision_version later else later

  unfoldable pub get_max_decision_version : String → Option String → Action (Database W) ℕ
  get_max_decision_version attempt source = do
    s ← validated source
    gets (λ (db : Database W).
        max_version (decision_under attempt s db.payment_attempts) db.intervention_decisions)

  unfoldable pub get_latest_decision :
      String → Option String → Action (Database W) (Option (InterventionDecision W))
  get_latest_decision attempt source = do
    s ← validated source
    gets (λ (db : Database W).
        latest (λ (d : InterventionDecision W). d.decision_version)
          (decision_under attempt s db.payment_attempts) db.intervention_decisions)

  unfoldable pub get_decision_by_fingerprint :
      String → Action (Database W) (Option (InterventionDecision W))
  get_decision_by_fingerprint fingerprint = gets (λ db.
      find (λ (d : InterventionDecision W). d.input_fingerprint =s= fingerprint)
        db.intervention_decisions)

  abbrev pub recent_act : ℕ → InterventionDecision W → Bool
  recent_act since d = is_act d.decision_type && leb since d.decided_at

  unfoldable pub count_recent_act_decisions : ℕ → Action (Database W) ℕ
  count_recent_act_decisions since =
      gets (λ db. count_if (recent_act since) db.intervention_decisions)

  abbrev pub of_source : Option String → InterventionDecision W → Bool
  of_source none d = true
  of_source (some source) d = d.source_system =s= source

  abbrev pub recent_route :
      String → InterventionRouteKey → ℕ → Option String → InterventionDecision W → Bool
  recent_route attempt key since source d =
      d.payment_attempt_id =s= attempt
      && (same_route key d.selected_route_id && (recent_act since d && of_source source d))

  unfoldable pub has_recent_route_decision :
      String → InterventionRouteKey → ℕ → Option String → Action (Database W) Bool
  has_recent_route_decision attempt key since source = do
    s ← validated source
    gets (λ (db : Database W).
        ltb 0 (count_if (recent_route attempt key since s) db.intervention_decisions))

  unfoldable pub check_terminal_event_exists : String → ℕ → Option String → Action (Database W) Bool
  unfolding ends_attempt
  check_terminal_event_exists payment_id t source = do
    s ← validated source
    gets (λ (db : Database W).
        any_event (ingested_before t (ends_attempt s payment_id)) db.payment_events)

  abbrev pub prediction_under :
      String → Option String → List RegistryRow → FailurePrediction W → Bool
  prediction_under attempt none rows p = p.payment_attempt_id =s= attempt
  prediction_under attempt (some source) rows p =
      p.payment_attempt_id =s= attempt
      && (p.source_system =s= source && is_registered attempt source rows)

  abbrev pub predicted_by :
      String → ℕ → Option String → List RegistryRow → FailurePrediction W → Bool
  predicted_by attempt t source rows p =
      prediction_under attempt source rows p && leb p.predicted_at t

  unfoldable pub get_stage5_prediction_as_of :
      String → ℕ → Option String → Action (Database W) (Option (FailurePrediction W))
  get_stage5_prediction_as_of attempt t source = do
    s ← validated source
    gets (λ (db : Database W).
        latest (λ (p : FailurePrediction W). p.prediction_version)
          (predicted_by attempt t s db.payment_attempts) db.failure_predictions)

  -- uq_intervention_decision_version and the primary key
  abbrev pub decision_clashes : InterventionDecision W → InterventionDecision W → Bool
  decision_clashes a b =
      a.decision_id == b.decision_id
      || (a.payment_attempt_id =s= b.payment_attempt_id
          && (a.source_system =s= b.source_system && a.decision_version == b.decision_version))

  unfoldable pub append_decision : InterventionDecision W → Action (Database W) Unit
  append_decision d db =
      if exists (find (decision_clashes d) db.intervention_decisions)
        || not (is_registered d.payment_attempt_id d.source_system db.payment_attempts)
      then (err integrity_error, db)
      else (ok tt, record db { intervention_decisions = db.intervention_decisions ++ d ∷ [] })

-- ===== src/Intervention/Context.antt =====
-- src/core/intervention/service.py, steps 1 to 5: what a decision is made from, its fingerprint, and the
-- hard gates.
use revenue_degradation_reco.Prelude.{
  ℕ, String, Option, none, some, Bool, false, not, if◌then◌else◌,
}
use revenue_degradation_reco.Prelude.Int.{ℤ, pos}
use revenue_degradation_reco.Prelude.Decimal.{Decimal}
use revenue_degradation_reco.Action.{Action, pure, ◌>>=◌}
use revenue_degradation_reco.Events.{PaymentEvent}
use revenue_degradation_reco.Store.{FailurePrediction, Database}
use revenue_degradation_reco.Attempts.Identity.{AttemptRef}
use revenue_degradation_reco.Attempts.Registry.{require}
use revenue_degradation_reco.Degradation.Models.{
  EpisodeStatus, active, recovered, invalidated, EpisodeStateHistory,
}
use revenue_degradation_reco.Rca.Models.{
  RcaClassification, segment_specific, systemic, unknown, EvidenceStrength, strong, moderate, weak,
  RcaFlags, RootCauseAnalysisEvaluation, CandidateCause,
}
use revenue_degradation_reco.Features.Repository.{
  get_payment_event_by_id, get_most_severe_active_episode, get_rca_context,
}
use revenue_degradation_reco.Intervention.Models.{GateVerdict}
use revenue_degradation_reco.Intervention.Policy.{InterventionPolicy}
use revenue_degradation_reco.Intervention.Gates.{
  RcaContext, evaluate_kill_switch, evaluate_amount_and_currency, evaluate_pre_terminal_invariance,
  evaluate_stage5_prediction_validity, evaluate_episode_and_traffic_shift,
}
use revenue_degradation_reco.Intervention.Repository.{
  check_terminal_event_exists, get_stage5_prediction_as_of,
}
use revenue_degradation_reco.Execution.Service.{is_passed}

-- The dictionary that compute_decision_fingerprint hashes.
pub record FingerprintInputs (W : Type 0) : Type 0 where
  pub payment_attempt_id : String
  pub t_decide : ℕ
  pub amount_minor_units : ℤ
  pub currency : String
  pub stage5_prediction_id : Option ℕ
  pub failure_probability : Option W
  pub prediction_status : String
  pub episode_id : Option ℕ
  pub episode_status : Option String
  pub rca_classification : Option String
  pub rca_candidate_dimension : Option String
  pub rca_candidate_value : Option String
  pub rca_evidence_strength : Option String
  pub policy_id : String
  pub policy_version : String

-- What libraries make of values: `uuid5` of the attempt and version, the SHA-256 of the JSON text, and
-- `Decimal(str(round(p, 6)))`.
pub record DecisionNames (W : Type 0) : Type 0 where
  pub make_decision_id : String → ℕ → ℕ
  pub compute_decision_fingerprint : FingerprintInputs W → String
  pub rounded_decimal : W → Decimal

abbrev pub status_text : EpisodeStatus → String
status_text active = "ACTIVE"
status_text recovered = "RECOVERED"
status_text invalidated = "INVALIDATED"

abbrev pub classification_text : RcaClassification → String
classification_text segment_specific = "SEGMENT_SPECIFIC"
classification_text systemic = "SYSTEMIC"
classification_text unknown = "UNKNOWN"

abbrev pub strength_text : EvidenceStrength → String
strength_text strong = "STRONG"
strength_text moderate = "MODERATE"
strength_text weak = "WEAK"

-- What step 1 knows of the degradation: the values that stay None are those of an empty record.
pub record Diagnosis : Type 0 where
  pub episode_id : Option ℕ
  pub episode_status : Option String
  pub rca_classification : Option String
  pub rca_candidate_dim : Option String
  pub rca_candidate_val : Option String
  pub rca_evidence_strength : Option String
  pub rca_audit_payload : Option RcaFlags

-- The upstream context of step 1.
pub record Context (W : Type 0) : Type 0 where
  pub terminal_exists : Bool
  pub stage5_pred : Option (FailurePrediction W)
  pub amount_minor_units : ℤ
  pub currency : String
  pub payment_method : Option String
  pub bank : Option String
  pub diagnosis : Diagnosis

abbrev pub undiagnosed : Diagnosis
undiagnosed = record {
  episode_id = none;
  episode_status = none;
  rca_classification = none;
  rca_candidate_dim = none;
  rca_candidate_val = none;
  rca_evidence_strength = none;
  rca_audit_payload = none;
}

abbrev pub in_episode : EpisodeStateHistory → Diagnosis
in_episode episode = record undiagnosed {
  episode_id = some episode.episode_id;
  episode_status = some (status_text episode.status);
}

module _ {W : Type 0} where
  abbrev pub with_candidate : Option (CandidateCause W) → Diagnosis → Diagnosis
  with_candidate none d = d
  with_candidate (some c) d = record d {
    rca_candidate_dim = some c.candidate_dimension;
    rca_candidate_val = some c.candidate_value;
    rca_evidence_strength = some (strength_text c.evidence_strength);
  }

  abbrev pub with_rca :
      Option (RootCauseAnalysisEvaluation × Option (CandidateCause W)) → Diagnosis → Diagnosis
  with_rca none d = d
  with_rca (some (evaluation, candidate)) d = with_candidate candidate (record d {
    rca_classification = some (classification_text evaluation.classification);
    rca_audit_payload = some evaluation.evidence_audit_payload;
  })

  abbrev pub prediction_status_of : Option (FailurePrediction W) → String
  prediction_status_of none = "MISSING"
  prediction_status_of (some p) = p.prediction_status

  abbrev pub prediction_id_of : Option (FailurePrediction W) → Option ℕ
  prediction_id_of none = none
  prediction_id_of (some p) = some p.prediction_id

  abbrev pub probability_in : Option (FailurePrediction W) → Option W
  probability_in none = none
  probability_in (some p) = p.failure_probability

  abbrev pub matches_segment : Option (FailurePrediction W) → Bool
  matches_segment none = false
  matches_segment (some p) = elim p.rca_candidate_matches_payment_segment [
    | none ↦ false
    | some b ↦ b
  ]

  unfoldable pub diagnose_episode : ℕ → Option EpisodeStateHistory → Action (Database W) Diagnosis
  diagnose_episode t none = pure undiagnosed
  diagnose_episode t (some episode) = do
    rca ← get_rca_context episode.episode_id t
    pure (with_rca rca (in_episode episode))

  unfoldable pub diagnose : ℕ → Option PaymentEvent → Action (Database W) Diagnosis
  diagnose t none = pure undiagnosed
  diagnose t (some e) = do episode ← get_most_severe_active_episode e t; diagnose_episode t episode

  abbrev pub context_of :
      Option PaymentEvent → Bool → Option (FailurePrediction W) → Diagnosis → Context W
  context_of none terminal prediction d = record {
    terminal_exists = terminal;
    stage5_pred = prediction;
    amount_minor_units = pos 0;
    currency = "";
    payment_method = none;
    bank = none;
    diagnosis = d;
  }
  context_of (some e) terminal prediction d = record {
    terminal_exists = terminal;
    stage5_pred = prediction;
    amount_minor_units = e.amount_minor_units;
    currency = e.currency;
    payment_method = e.payment_method;
    bank = e.bank;
    diagnosis = d;
  }

  -- Steps 0 and 1.
  unfoldable pub gather : AttemptRef → ℕ → Action (Database W) (Context W)
  unfolding diagnose diagnose_episode
  gather attempt t = do
    registered ← require attempt
    auth_event ← get_payment_event_by_id attempt.payment_attempt_id t
    terminal ← check_terminal_event_exists attempt.payment_attempt_id t (some attempt.source_system)
    prediction ←
        get_stage5_prediction_as_of attempt.payment_attempt_id t (some attempt.source_system)
    d ← diagnose t auth_event
    pure (context_of auth_event terminal prediction d)

  -- Step 2.
  abbrev pub fingerprint_inputs :
      InterventionPolicy W → AttemptRef → ℕ → Context W → FingerprintInputs W
  fingerprint_inputs policy attempt t c = record {
    payment_attempt_id = attempt.payment_attempt_id;
    t_decide = t;
    amount_minor_units = c.amount_minor_units;
    currency = c.currency;
    stage5_prediction_id = prediction_id_of c.stage5_pred;
    failure_probability = probability_in c.stage5_pred;
    prediction_status = prediction_status_of c.stage5_pred;
    episode_id = c.diagnosis.episode_id;
    episode_status = c.diagnosis.episode_status;
    rca_classification = c.diagnosis.rca_classification;
    rca_candidate_dimension = c.diagnosis.rca_candidate_dim;
    rca_candidate_value = c.diagnosis.rca_candidate_val;
    rca_evidence_strength = c.diagnosis.rca_evidence_strength;
    policy_id = policy.policy_id;
    policy_version = policy.policy_version;
  }

  -- The gates 1 to 5 in order: the first that fails decides.
  unfoldable pub hard_gates : InterventionPolicy W → Context W → GateVerdict
  hard_gates policy c =
      let g1 = evaluate_kill_switch policy in
      let g2 = evaluate_amount_and_currency c.amount_minor_units c.currency in
      let g3 = evaluate_pre_terminal_invariance c.terminal_exists in
      let g4 = evaluate_stage5_prediction_validity c.stage5_pred in
      let g5 =
        evaluate_episode_and_traffic_shift c.diagnosis.episode_status
          c.diagnosis.rca_audit_payload in
      if not (is_passed g1)
      then g1
      else if not (is_passed g2)
      then g2
      else if not (is_passed g3)
      then g3
      else if not (is_passed g4)
      then g4
      else g5

  abbrev pub rca_context : Context W → RcaContext
  rca_context c = record {
    rca_classification = c.diagnosis.rca_classification;
    rca_evidence_strength = c.diagnosis.rca_evidence_strength;
    rca_candidate_dimension = c.diagnosis.rca_candidate_dim;
    rca_candidate_matches_payment_segment = matches_segment c.stage5_pred;
    payment_method = c.payment_method;
    bank = c.bank;
  }

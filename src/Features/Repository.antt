-- ===== src/Features/Repository.antt =====
-- src/infrastructure/feature_reconstruction_repository.py: the reads that rebuild what was known at an
-- instant.
use revenue_degradation_reco.Prelude.{
  ℕ, ◌-◌, ◌*◌, String, Option, none, some, List, [], ◌∷◌, ◌++◌, Bool, true, false, not, ◌&&◌, ◌==◌,
  ◌=s=◌, leb, ltb, if◌then◌else◌, count_if, select,
}
use revenue_degradation_reco.Prelude.Texts.{is_empty}
use revenue_degradation_reco.Errors.{multiple_results_found}
use revenue_degradation_reco.Action.{Action, pure, raise, gets, ◌>>=◌}
use revenue_degradation_reco.Events.{PaymentEvent}
use revenue_degradation_reco.Store.{Database}
use revenue_degradation_reco.Attempts.Identity.{
  paypal_source_system, paypal_order_id, is_terminal_type,
}
use revenue_degradation_reco.Degradation.Models.{
  EpisodeStatus, active, recovered, invalidated, EpisodeStateHistory,
}
use revenue_degradation_reco.Degradation.Severity.{order}
use revenue_degradation_reco.Rca.Models.{RootCauseAnalysisEvaluation, CandidateCause}
use revenue_degradation_reco.Execution.Repository.Events.{not_excluded}
use revenue_degradation_reco.Attribution.Calculator.{upper_is}
use revenue_degradation_reco.Attribution.Repository.{latest, by_cutoff, paypal_trigger, authorized}

-- The latest trigger event of the attempt by the instant.
unfoldable pub trigger_at : String → ℕ → List PaymentEvent → Option PaymentEvent
trigger_at payment_id t events = elim (paypal_order_id payment_id) [
  | some order ↦
      latest (λ (e : PaymentEvent). e.ingested_at) (by_cutoff t (paypal_trigger order)) events
  | none ↦
      latest (λ (e : PaymentEvent). e.ingested_at)
        (by_cutoff t (authorized not_excluded payment_id)) events
]

-- Terminal events of a provider scope, with a value in a column, known and dated before the instant.
abbrev pub in_history : (PaymentEvent → Bool) → Bool → ℕ → ℕ → PaymentEvent → Bool
in_history has_value paypal t window_minutes e =
    has_value e
    && (ltb e.ingested_at t
        && (leb (t - window_minutes * 60_000_000) e.timestamp
            && (ltb e.timestamp t
                && (is_terminal_type e.event_type
                    && (if paypal
                        then e.source_system =s= paypal_source_system
                        else not_excluded e.source_system)))))

abbrev pub failed_in : (PaymentEvent → Bool) → PaymentEvent → Bool
failed_in p e = p e && e.event_type =s= "payment.failed"

-- Severities by rank, then the older start, then the larger UUID; an earlier candidate wins a tie.
abbrev pub outranks : EpisodeStateHistory → EpisodeStateHistory → Bool
outranks a b =
    if not (order a.severity == order b.severity)
    then ltb (order b.severity) (order a.severity)
    else if not (a.effective_start_window == b.effective_start_window)
    then ltb a.effective_start_window b.effective_start_window
    else ltb b.episode_id a.episode_id

abbrev pub worse : EpisodeStateHistory → Option EpisodeStateHistory → EpisodeStateHistory
worse a none = a
worse a (some b) = if outranks b a then b else a

-- `candidates.sort(key=…, reverse=True)` and the first
abbrev pub most_severe : List EpisodeStateHistory → Option EpisodeStateHistory
most_severe [] = none
most_severe (a ∷ rest) = some (worse a (most_severe rest))

abbrev pub is_active : EpisodeStatus → Bool
is_active active = true
is_active recovered = false
is_active invalidated = false

abbrev pub of_segment : String → String → EpisodeStateHistory → Bool
of_segment dimension value row =
    upper_is row.segment_dimension dimension && row.segment_value =s= value

-- The two steps of `get_active_episode_context`. The dimension is given in upper case.
abbrev pub known_at : String → String → ℕ → EpisodeStateHistory → Bool
known_at dimension value t row = of_segment dimension value row && leb row.evaluation_timestamp t

abbrev pub active_in : ℕ → String → String → EpisodeStateHistory → Bool
active_in run dimension value row =
    row.reconciliation_run_id == run && (of_segment dimension value row && is_active row.status)

abbrev pub first_of {ℓ} : {A : Type ℓ} → List A → Option A
first_of [] = none
first_of (a ∷ rest) = some a

unfoldable pub active_episode :
    String → String → ℕ → List EpisodeStateHistory → Option EpisodeStateHistory
active_episode dimension value t history =
    elim (latest (λ (r : EpisodeStateHistory). r.evaluation_timestamp) (known_at dimension value t)
      history) [
        | none ↦ none
        | some last ↦
            first_of (select (active_in last.reconciliation_run_id dimension value) history)
      ]

-- The candidate of one segment of the payment, if it has the segment.
abbrev pub of_value :
    String → Option String → ℕ → List EpisodeStateHistory → List EpisodeStateHistory
of_value dimension none t history = []
of_value dimension (some value) t history =
    if is_empty value
    then []
    else elim (active_episode dimension value t history) [ none ↦ [] | some row ↦ row ∷ [] ]

unfoldable pub most_severe_active :
    PaymentEvent → ℕ → List EpisodeStateHistory → Option EpisodeStateHistory
unfolding active_episode
most_severe_active e t history =
    if e.source_system =s= paypal_source_system
    then none
    else most_severe (
        of_value "GLOBAL" (some "ALL") t history
        ++ (of_value "CURRENCY" (some e.currency) t history
            ++ (of_value "PAYMENT_METHOD" e.payment_method t history
                ++ (of_value "BANK" e.bank t history ++ of_value "WALLET" e.wallet t history))))

abbrev pub evaluated_before : ℕ → ℕ → RootCauseAnalysisEvaluation → Bool
evaluated_before episode_id t e = e.episode_id == episode_id && ltb e.generated_at t

module _ {W : Type 0} where
  unfoldable pub get_payment_event_by_id : String → ℕ → Action (Database W) (Option PaymentEvent)
  unfolding trigger_at
  get_payment_event_by_id payment_id t = gets (λ db. trigger_at payment_id t db.payment_events)

  -- `has_value` is the test on the column: the transactions, and the failures among them.
  unfoldable pub get_historical_failure_rate :
      (PaymentEvent → Bool) → ℕ → ℕ → Bool → Action (Database W) (ℕ × ℕ)
  get_historical_failure_rate has_value t window_minutes paypal = gets (λ db.
      let p = in_history has_value paypal t window_minutes in
      (count_if p db.payment_events, count_if (failed_in p) db.payment_events))

  unfoldable pub get_active_episode_context :
      String → String → ℕ → Action (Database W) (Option EpisodeStateHistory)
  get_active_episode_context dimension value t =
      gets (λ db. active_episode dimension value t db.episode_state_history)

  unfoldable pub get_most_severe_active_episode :
      PaymentEvent → ℕ → Action (Database W) (Option EpisodeStateHistory)
  get_most_severe_active_episode e t = gets (λ db. most_severe_active e t db.episode_state_history)

  abbrev pub rank_1_of : ℕ → CandidateCause W → Bool
  rank_1_of evaluation_id c = c.evaluation_id == evaluation_id && c.rank == 1

  -- `scalar_one_or_none`
  abbrev pub one_or_none : {A : Type 0} → List A → Action (Database W) (Option A)
  one_or_none [] = pure none
  one_or_none (a ∷ []) = pure (some a)
  one_or_none (a ∷ b ∷ rest) = raise multiple_results_found

  unfoldable pub rank_1_candidate :
      Option RootCauseAnalysisEvaluation
      → Action (Database W) (Option (RootCauseAnalysisEvaluation × Option (CandidateCause W)))
  rank_1_candidate none = pure none
  rank_1_candidate (some evaluation) = do
    rows ←
        gets
          (λ (db : Database W). select (rank_1_of evaluation.evaluation_id) db.rca_candidate_causes)
    candidate ← one_or_none rows
    pure (some (evaluation, candidate))

  unfoldable pub get_rca_context :
      ℕ → ℕ → Action (Database W) (Option (RootCauseAnalysisEvaluation × Option (CandidateCause W)))
  unfolding rank_1_candidate
  get_rca_context episode_id t = do
    evaluation ← gets (λ (db : Database W).
        latest (λ (e : RootCauseAnalysisEvaluation). e.evaluation_version)
          (evaluated_before episode_id t) db.rca_evaluations)
    rank_1_candidate evaluation

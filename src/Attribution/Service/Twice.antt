-- ===== src/Attribution/Service/Twice.antt =====
-- attribute_payment_intervention (src/core/attribution/attribution_service.py) called twice as of one
-- instant.
use mathlib.Core.Path.{subst}
use revenue_degradation_reco.Prelude.{
  ℕ, ◌≡◌, refl, sym, ap, ◌∙◌, Option, none, some, [], ◌∷◌, ◌++◌, String, true, not, ◌&&◌, ◌||◌,
  ◌=s=◌, ◌==◌, find, arith, Bool-cases, Option-cases, inl, inr, eq_refl,
}
use revenue_degradation_reco.Prelude.Int.{ℤ}
use revenue_degradation_reco.Errors.{guard, attempt_provider_conflict, ok}
use revenue_degradation_reco.Action.{Action, lift, ◌>>=◌}
use revenue_degradation_reco.Action.Keeps.{continue_ok, Reads, Reads-bind}
use revenue_degradation_reco.Store.{Database}
use revenue_degradation_reco.Attempts.Registry.{exists, require}
use revenue_degradation_reco.Attempts.Registry.Laws.{require_reads, find-append_right}
use revenue_degradation_reco.Attempts.Identity.{for_key, validate_provider}
use revenue_degradation_reco.Intervention.Models.{InterventionDecision}
use revenue_degradation_reco.Execution.Repository.{
  command_by_id, is_command_of, is_command, get_command_by_id,
}
use revenue_degradation_reco.Execution.Repository.Rows.{find-passes}
use revenue_degradation_reco.Attribution.Models.{CounterfactualAttribution}
use revenue_degradation_reco.Attribution.Evidence.{
  AttributionNames, same_providers, next_version, or_zero, smaller, prediction_provider,
  attempt_provider, observation_provider,
}
use revenue_degradation_reco.Attribution.Repository.{
  checked, get_attribution_by_as_of, get_latest_attribution, get_canonical_payment_amount,
  get_latest_execution_attempt, get_latest_outcome_observation, get_decision, get_prediction,
  append_attribution, attribution_clashes, attribution_at, attributed_attempt, decision_of, latest,
  attribution_of, of_command,
}
use revenue_degradation_reco.Attribution.Service.{
  Upstream, new_attribution, attribute_payment_intervention, unless_attributed, attribute_new,
  fetch_upstream, check_upstream,
}

module _ {W : Type 0} where
  abbrev pub with_attribution : CounterfactualAttribution → Database W → Database W
  with_attribution a db = record db {
    counterfactual_attributions = db.counterfactual_attributions ++ a ∷ [];
  }

  fetch_upstream-Reads : (command_id as_of : ℕ) → Reads (fetch_upstream {W = W} command_id as_of)
  unfolding fetch_upstream get_command_by_id get_latest_execution_attempt
      get_latest_outcome_observation get_decision get_prediction
  fetch_upstream-Reads command_id as_of db = elim (Option-cases (command_by_id command_id db)) [
    | inl missing ↦ rw missing refl
    | inr (c, found) ↦
        elim (Option-cases (
          find (λ (d : InterventionDecision W). d.decision_id == c.decision_id)
            db.intervention_decisions)) [
              | inl missing ↦ rw (found, missing) refl
              | inr (d, decided) ↦ elim (Option-cases d.stage5_prediction_id) [
                | inl unpredicted ↦ rw (found, decided, unpredicted) refl
                | inr (p, predicted) ↦ rw (found, decided, predicted) refl
              ]
            ]
  ]

  fetch_upstream-command :
      (command_id as_of : ℕ) (db : Database W) (up : Upstream W)
      → (fetch_upstream command_id as_of db).0 ≡ ok up
      → command_by_id command_id db ≡ some up.command
  unfolding fetch_upstream get_command_by_id get_latest_execution_attempt
      get_latest_outcome_observation get_decision get_prediction
  fetch_upstream-command command_id as_of db up e =
      elim (Option-cases (command_by_id command_id db)) [
        | inl missing ↦ absurd (ground (arith, (rw missing at e)))
        | inr (c, found) ↦
            elim (Option-cases (
              find (λ (d : InterventionDecision W). d.decision_id == c.decision_id)
                db.intervention_decisions)) [
                  | inl missing ↦ absurd (ground (arith, (rw (found, missing) at e)))
                  | inr (d, decided) ↦
                      found
                      ∙ ap some (elim (Option-cases d.stage5_prediction_id) [
                        | inl unpredicted ↦ ground (arith, (rw (found, decided, unpredicted) at e))
                        | inr (p, predicted) ↦ ground (arith, (rw (found, decided, predicted) at e))
                      ])
                ]
      ]

  check_upstream-Reads : (up : Upstream W) → Reads (check_upstream up)
  unfolding check_upstream
  check_upstream-Reads up =
      Reads-bind (lift (for_key up.command.source_system up.command.payment_attempt_id)) _
        (λ _. refl)
        (λ ref. Reads-bind (require ref) _ (require_reads ref) (λ _.
          Reads-bind
            (lift (
              same_providers up.command.source_system (
                up.decision.source_system
                ∷ (prediction_provider up.prediction
                    ++ attempt_provider up.attempt
                    ++ observation_provider up.observation))))
            _ (λ _. refl)
            (λ _.
              Reads-bind
                (lift (
                  guard (up.decision.payment_attempt_id =s= up.command.payment_attempt_id)
                    attempt_provider_conflict))
                _ (λ _. refl) (λ _ _. refl))))

  amount-Reads :
      (attempt : String) (as_of : ℕ) (source : String)
      → Reads (get_canonical_payment_amount {W = W} attempt as_of (some source))
  unfolding get_canonical_payment_amount
  amount-Reads attempt as_of source =
      Reads-bind (lift (validate_provider (some source))) _ (λ _. refl) (λ _ _. refl)

  checked-Reads :
      (command_id : ℕ) (source : Option String) (row : Option CounterfactualAttribution)
      → Reads (checked {W = W} command_id source row)
  unfolding checked
  checked-Reads command_id source none db = refl
  checked-Reads command_id source (some a) db = ground arith

  latest-Reads : (command_id : ℕ) → Reads (get_latest_attribution {W = W} command_id none)
  unfolding get_latest_attribution
  latest-Reads command_id db =
      checked-Reads command_id none
        (latest (λ (a : CounterfactualAttribution). a.attribution_version)
          (attribution_of command_id) db.counterfactual_attributions)
        db

  append_attribution-inv :
      (a b : CounterfactualAttribution) (db db' : Database W)
      → append_attribution a db ≡ (ok b, db')
      → (b ≡ a) × (db' ≡ with_attribution a db)
  unfolding append_attribution
  append_attribution-inv a b db db' e =
      elim (Bool-cases (
        exists (find (attribution_clashes a) db.counterfactual_attributions)
        || not (
            exists (find (attributed_attempt a) db.payment_attempts)
            && (exists (find (is_command_of a.command_id a.source_system) db.intervention_commands)
                && exists (find (decision_of a) db.intervention_decisions))))) [
                  | inl refused ↦ absurd (ground (arith, (rw refused at e)))
                  | inr fine ↦ (ground (arith, (rw fine at e)), ground (arith, (rw fine at e)))
                ]

  -- The row of a new attribution, and the command that it is about.
  attribute_new-inv :
      (names : AttributionNames W) (command_id as_of now version : ℕ) (db db' : Database W)
      (a : CounterfactualAttribution)
      → attribute_new names command_id as_of now version db ≡ (ok a, db')
      → (up : Upstream W) × (amount : ℤ) × (command_by_id command_id db ≡ some up.command)
        × (a ≡ new_attribution names up amount version as_of now)
        × (db' ≡ with_attribution a db)
  unfolding attribute_new
  attribute_new-inv names command_id as_of now version db db' a e =
      let (up, fetched, e1) =
        continue_ok (fetch_upstream command_id as_of db) (λ up. check_upstream up >>= λ _. sized up)
          a db' e in
      let e2 =
        subst (λ k. (check_upstream up >>= λ _. sized up) k ≡ (ok a, db'))
          (fetch_upstream-Reads command_id as_of db) e1 in
      let (_, _, e3) = continue_ok (check_upstream up db) (λ _. sized up) a db' e2 in
      let e4 = subst (λ k. sized up k ≡ (ok a, db')) (check_upstream-Reads up db) e3 in
      let (amount, _, e5) = continue_ok (amount_of up db) (appended up) a db' e4 in
      let e6 =
        subst (λ k. appended up amount k ≡ (ok a, db'))
          (amount-Reads up.command.payment_attempt_id (smaller up.decision.decided_at as_of)
            up.command.source_system db)
          e5 in
      let (own, after) =
        append_attribution-inv (new_attribution names up (or_zero amount) version as_of now) a db
          db' e6 in
      (
        up,
        or_zero amount,
        fetch_upstream-command command_id as_of db up fetched,
        own,
        after ∙ ap (λ k. with_attribution k db) (sym own),
      )
    where
      amount_of : Upstream W → Action (Database W) (Option ℤ)
      amount_of up =
          get_canonical_payment_amount up.command.payment_attempt_id
            (smaller up.decision.decided_at as_of) (some up.command.source_system)

      appended : Upstream W → Option ℤ → Action (Database W) CounterfactualAttribution
      appended up amount =
          append_attribution (new_attribution names up (or_zero amount) version as_of now)

      sized : Upstream W → Action (Database W) CounterfactualAttribution
      sized up = amount_of up >>= appended up

  own_key :
      (names : AttributionNames W) (command_id as_of now version : ℕ) (amount : ℤ) (db : Database W)
      (up : Upstream W) (a : CounterfactualAttribution)
      → command_by_id command_id db ≡ some up.command
      → a ≡ new_attribution names up amount version as_of now
      → attribution_at command_id as_of a ≡ true
  unfolding new_attribution
  own_key names command_id as_of now version amount db up a found own = ground (
    arith,
    find-passes (is_command command_id) db.intervention_commands up.command found,
    ap (λ (k : CounterfactualAttribution). k.command_id) own,
    ap (λ (k : CounterfactualAttribution). k.as_of_timestamp) own,
  )

  own_provider :
      (names : AttributionNames W) (command_id as_of now version : ℕ) (amount : ℤ) (db : Database W)
      (up : Upstream W) (a : CounterfactualAttribution)
      → command_by_id command_id db ≡ some up.command
      → a ≡ new_attribution names up amount version as_of now
      → of_command a (command_by_id command_id db) ≡ true
  unfolding new_attribution
  own_provider names command_id as_of now version amount db up a found own = rw found (
      subst (λ s. (s =s= up.command.source_system) ≡ true)
        (sym (ap (λ (k : CounterfactualAttribution). k.source_system) own))
        (eq_refl up.command.source_system))

  -- What is stored for the instant is returned.
  stored_again :
      (names : AttributionNames W) (command_id as_of later : ℕ) (db : Database W)
      (a : CounterfactualAttribution)
      → find (attribution_at command_id as_of) db.counterfactual_attributions ≡ some a
      → of_command a (command_by_id command_id db) ≡ true
      → attribute_payment_intervention names command_id as_of later db ≡ (ok a, db)
  unfolding attribute_payment_intervention unless_attributed get_attribution_by_as_of checked
  stored_again names command_id as_of later db a stored own = rw (stored, own) refl

  -- A re-evaluation as of the same instant is idempotent: it returns the record that is stored, at any
  -- later time, and appends nothing.
  pub attribute_twice :
      (names : AttributionNames W) (command_id as_of now later : ℕ) (db db' : Database W)
      (a : CounterfactualAttribution)
      → attribute_payment_intervention names command_id as_of now db ≡ (ok a, db')
      → attribute_payment_intervention names command_id as_of later db' ≡ (ok a, db')
  unfolding attribute_payment_intervention unless_attributed get_attribution_by_as_of checked
  attribute_twice names command_id as_of now later db db' a e =
      elim (Option-cases (find (attribution_at command_id as_of) db.counterfactual_attributions)) [
        | inr (x, stored) ↦ elim (Bool-cases (of_command x (command_by_id command_id db))) [
          | inr foreign ↦ absurd (ground (arith, (rw (stored, foreign) at e)))
          | inl own ↦
              let e' : (ok x, db) ≡ (ok a, db') = (rw (stored, own) at e) in
              let same : x ≡ a = ground (arith, e') in
              subst (λ d. attribute_payment_intervention names command_id as_of later d ≡ (ok a, d))
                (ap (λ k. k.1) e')
                (stored_again names command_id as_of later db x stored own
                  ∙ ap (λ k. (ok k, db)) same)
        ]
        | inl fresh ↦
            let (newest, _, e1) =
              continue_ok (get_latest_attribution command_id none db)
                (λ newest. attribute_new names command_id as_of now (next_version newest)) a db'
                (rw fresh at e) in
            let e2 =
              subst
                (λ k.
                  attribute_new names command_id as_of now (next_version newest) k ≡ (ok a, db'))
                (latest-Reads command_id db) e1 in
            let (up, amount, found, own, after) =
              attribute_new-inv names command_id as_of now (next_version newest) db db' a e2 in
            subst (λ d. attribute_payment_intervention names command_id as_of later d ≡ (ok a, d))
              (sym after)
              (stored_again names command_id as_of later (with_attribution a db) a
                (find-append_right (attribution_at command_id as_of) db.counterfactual_attributions
                    (a ∷ []) fresh
                  ∙ rw
                      (own_key names command_id as_of now (next_version newest) amount db up a found
                        own)
                      refl)
                (own_provider names command_id as_of now (next_version newest) amount db up a found
                  own))
      ]

-- ===== src/Attempts/Examples.antt =====
-- The theorems on payment attempts at concrete events.
use revenue_degradation_reco.Prelude.{
  ◌≡◌, ◌≢◌, refl, Option, none, some, [], ◌∷◌, String, false, ◌⊎◌, inl, arith, ◌=s=◌, eq_iff,
}
use revenue_degradation_reco.Prelude.Int.{ℤ, pos}
use revenue_degradation_reco.Errors.{ok, err, attempt_provider_conflict}
use revenue_degradation_reco.Events.{PaymentEvent}
use revenue_degradation_reco.Store.{RegistryRow, Database}
use revenue_degradation_reco.Attempts.Identity.{
  AttemptRef, for_key, is_paypal, trigger, terminal, PipelineAttempt, resolve_pipeline_attempt,
  for_trigger_event, paypal_attempt_id, attempt_ref, valid_identity, is_pipeline_provider,
  paypal_order_id, in_paypal_attempt_namespace, pipeline_attempt_refusal, is_terminal_type,
}
use revenue_degradation_reco.Attempts.Lifecycle.{
  classify_paypal_event, paypal_lifecycle_classes, is_terminal_capture, capture_id, capture_outcome,
  is_payment_sizing_event, counts_as_captured_gmv,
}
use revenue_degradation_reco.Attempts.Lifecycle.Laws.{refunded_capture_id-IsApart}
use revenue_degradation_reco.Attempts.Identity.Laws.{IsValidRef, for_key_of_valid, same_key}
use revenue_degradation_reco.Attempts.Identity.Roles.{
  resolve_pipeline_attempt_total, resolve_pipeline_attempt_owner,
}
use revenue_degradation_reco.Attempts.Registry.{RegisteredAttempt, register, require}
use revenue_degradation_reco.Attempts.Registry.Laws.{
  row_of, register_keeps, register_twice, register_conflict,
}

abbrev pub authorized_event : PaymentEvent
authorized_event = record {
  event_id = 1;
  source_system = "razorpay";
  source_event_id = "evt_1";
  payment_id = "pay_1";
  order_id = some "order_1";
  timestamp = 900;
  event_type = "payment.authorized";
  currency = "INR";
  amount_minor_units = pos 50_000;
  payment_status = "authorized";
  payment_method = some "card";
  bank = none;
  wallet = none;
  error_code = none;
  error_description = none;
  error_source = none;
  error_step = none;
  error_reason = none;
  ingested_at = 1_000;
}

abbrev pub pay_1 : AttemptRef
pay_1 = record {
  source_system = "razorpay";
  payment_attempt_id = "pay_1";
  provider_reference = "pay_1";
}

abbrev synthetic_1 : AttemptRef
synthetic_1 = record {
  source_system = "synthetic";
  payment_attempt_id = "pay_1";
  provider_reference = "pay_1";
}

abbrev pub pay_1_row : RegistryRow
pay_1_row = record {
  payment_attempt_id = "pay_1";
  source_system = "razorpay";
  provider_reference = "pay_1";
  trigger_event_id = 1;
  registered_at = 1_000;
}

abbrev empty : Database ℤ
empty = record {
  payment_events = authorized_event ∷ [];
  payment_health_snapshots = [];
  degradation_signals = [];
  degradation_episodes = [];
  episode_state_history = [];
  rca_evaluations = [];
  rca_candidate_causes = [];
  payment_attempts = [];
  intervention_decisions = [];
  intervention_commands = [];
  intervention_execution_attempts = [];
  payment_outcome_observations = [];
  failure_predictions = [];
  counterfactual_attributions = [];
}

abbrev pub registered : Database ℤ
registered = record empty { payment_attempts = pay_1_row ∷ [] }

pay_1-IsValidRef : IsValidRef pay_1
unfolding is_pipeline_provider valid_identity
pay_1-IsValidRef = record { provider = refl; identity = refl }

synthetic_1-IsValidRef : IsValidRef synthetic_1
unfolding is_pipeline_provider valid_identity
synthetic_1-IsValidRef = record { provider = refl; identity = refl }

for_key_of_valid_example : for_key "razorpay" "pay_1" ≡ ok pay_1
for_key_of_valid_example = for_key_of_valid pay_1 pay_1-IsValidRef

same_key_example :
    (is_paypal pay_1 ≡ is_paypal synthetic_1)
    × (pay_1.provider_reference ≡ synthetic_1.provider_reference)
same_key_example = same_key pay_1 synthetic_1 pay_1-IsValidRef synthetic_1-IsValidRef refl

abbrev pay_1_trigger : PipelineAttempt
pay_1_trigger = record { role = trigger; ref = pay_1 }

resolved_event : resolve_pipeline_attempt authorized_event ≡ ok (some pay_1_trigger)
unfolding resolve_pipeline_attempt pipeline_attempt_refusal in_paypal_attempt_namespace for_key
    attempt_ref valid_identity is_pipeline_provider is_terminal_type paypal_order_id
resolved_event = refl

resolve_pipeline_attempt_total_example :
    (r : Option PipelineAttempt) × (resolve_pipeline_attempt authorized_event ≡ ok r)
resolve_pipeline_attempt_total_example = resolve_pipeline_attempt_total authorized_event

resolve_pipeline_attempt_owner_example :
    IsValidRef pay_1_trigger.ref
    × (pay_1_trigger.ref.source_system ≡ authorized_event.source_system)
    × (authorized_event.source_system ≢ "paypal"
        → pay_1_trigger.ref.payment_attempt_id ≡ authorized_event.payment_id)
    × (authorized_event.source_system ≡ "paypal"
        → (pay_1_trigger.role ≡ trigger)
            × (pay_1_trigger.ref.payment_attempt_id ≡ paypal_attempt_id authorized_event.payment_id)
          ⊎ (pay_1_trigger.role ≡ terminal)
            × ((order : String) × (authorized_event.order_id ≡ some order)
                × (pay_1_trigger.ref.payment_attempt_id ≡ paypal_attempt_id order)))
resolve_pipeline_attempt_owner_example =
    resolve_pipeline_attempt_owner authorized_event pay_1_trigger resolved_event

abbrev pay_1_attempt : RegisteredAttempt
pay_1_attempt = record { ref = pay_1; trigger_event_id = 1; registered_at = 1_000 }

register_run : register authorized_event 1_000 empty ≡ (ok pay_1_attempt, registered)
unfolding register for_trigger_event attempt_ref valid_identity is_pipeline_provider require
register_run = refl

register_twice_example :
    (require pay_1 registered ≡ (ok pay_1_attempt, registered))
    × (register authorized_event 2_000 registered ≡ (ok pay_1_attempt, registered))
register_twice_example =
    register_twice authorized_event 1_000 2_000 empty registered pay_1_attempt register_run

abbrev other_event : PaymentEvent
other_event = record authorized_event { event_id = 2; payment_id = "pay_2" }

register_keeps_example : row_of (register other_event 3_000 registered).1 "pay_1" ≡ some pay_1_row
register_keeps_example = register_keeps other_event 3_000 registered "pay_1" pay_1_row refl

abbrev foreign_event : PaymentEvent
foreign_event = record authorized_event { event_id = 3; source_system = "synthetic" }

foreign_ref : for_trigger_event foreign_event ≡ ok synthetic_1
unfolding for_trigger_event attempt_ref valid_identity is_pipeline_provider
foreign_ref = refl

different : (s t : String) → (s =s= t) ≡ false → s ≢ t
different s t h e = ground (arith, h, (eq_iff s t).1 e)

register_conflict_example :
    register foreign_event 3_000 registered ≡ (err attempt_provider_conflict, registered)
register_conflict_example =
    register_conflict foreign_event 3_000 registered synthetic_1 pay_1_row foreign_ref refl
      (inl (different "razorpay" "synthetic" refl))

abbrev captured_order : PaymentEvent
captured_order = record authorized_event {
  source_system = "paypal";
  event_type = "payment.captured";
  order_id = some "O-1";
}

abbrev refunded_order : PaymentEvent
refunded_order = record captured_order { event_type = "payment.refunded" }

refunded_capture_id-IsApart_example :
    (refunded_order.payment_id ≡ refunded_order.payment_id)
    × (capture_id refunded_order ≡ ok none)
    × (capture_outcome refunded_order ≡ ok none)
    × (is_terminal_capture refunded_order ≡ ok false)
    × (is_payment_sizing_event refunded_order ≡ ok false)
    × (counts_as_captured_gmv refunded_order ≡ ok false)
unfolding classify_paypal_event paypal_lifecycle_classes
refunded_capture_id-IsApart_example =
    refunded_capture_id-IsApart refunded_order refunded_order.payment_id refl

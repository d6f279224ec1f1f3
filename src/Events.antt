-- ===== src/Events.antt =====
-- src/core/domain/models.py: the canonical payment fact.
use revenue_degradation_reco.Prelude.{ℕ, String, Option}
use revenue_degradation_reco.Prelude.Int.{ℤ}

pub record PaymentEvent : Type 0 where
  pub event_id : ℕ
  pub source_system : String
  pub source_event_id : String
  pub payment_id : String
  pub order_id : Option String
  pub timestamp : ℕ
  pub event_type : String
  pub currency : String
  pub amount_minor_units : ℤ
  pub payment_status : String
  pub payment_method : Option String
  pub bank : Option String
  pub wallet : Option String
  pub error_code : Option String
  pub error_description : Option String
  pub error_source : Option String
  pub error_step : Option String
  pub error_reason : Option String
  pub ingested_at : ℕ

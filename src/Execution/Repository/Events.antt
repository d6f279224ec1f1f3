-- ===== src/Execution/Repository/Events.antt =====
-- The queries of payment events in src/infrastructure/execution_repository.py and
-- paypal_attempt_queries.py.
use Prim.Native.String.{String}
use revenue_degradation_reco.Prelude.{
  ℕ, Option, none, some, List, [], ◌∷◌, Bool, false, not, ◌&&◌, ◌||◌, ◌=s=◌, leb, if◌then◌else◌,
  select,
}
use revenue_degradation_reco.Action.{Action, lift, gets, ◌>>=◌}
use revenue_degradation_reco.Events.{PaymentEvent}
use revenue_degradation_reco.Store.{Database}
use revenue_degradation_reco.Attempts.Identity.{
  paypal_source_system, paypal_order_id, is_terminal_type, validate_provider,
}

abbrev pub is_order : String → Option String → Bool
is_order order none = false
is_order order (some o) = o =s= order

-- `paypal_terminal_events`: outcomes are found by order_id.
unfoldable pub paypal_terminal : String → PaymentEvent → Bool
unfolding is_terminal_type
paypal_terminal order e =
    e.source_system =s= paypal_source_system
    && (is_terminal_type e.event_type && is_order order e.order_id)

-- The conditions on a payment event of another provider; `source_ok` is the one on its source.
unfoldable pub payment_terminal : (String → Bool) → String → PaymentEvent → Bool
unfolding is_terminal_type
payment_terminal source_ok attempt e =
    e.payment_id =s= attempt && (is_terminal_type e.event_type && source_ok e.source_system)

-- `source_system NOT IN NON_RAZORPAY_PIPELINE_SOURCES`
abbrev pub not_excluded : String → Bool
not_excluded s = not (s =s= paypal_source_system)

-- The events that end an attempt, when no provider is given: the key decides.
unfoldable pub terminal_by_key : String → PaymentEvent → Bool
unfolding paypal_terminal payment_terminal
terminal_by_key attempt e = elim (paypal_order_id attempt) [
  | none ↦ payment_terminal not_excluded attempt e
  | some order ↦ paypal_terminal order e
]

-- And when the provider is given.
unfoldable pub terminal_of_provider : String → String → PaymentEvent → Bool
unfolding paypal_terminal payment_terminal
terminal_of_provider source attempt e =
    if source =s= paypal_source_system
    then elim (paypal_order_id attempt) [ none ↦ false | some order ↦ paypal_terminal order e ]
    else payment_terminal (λ s. s =s= source) attempt e

abbrev pub ingested_by : ℕ → (PaymentEvent → Bool) → PaymentEvent → Bool
ingested_by as_of p e = p e && leb e.ingested_at as_of

-- ORDER BY ingested_at ASC; rows of one instant stay in insertion order, which SQL leaves open.
abbrev pub insert_event : PaymentEvent → List PaymentEvent → List PaymentEvent
insert_event e [] = e ∷ []
insert_event e (x ∷ xs) =
    let rest = x ∷ insert_event e xs in if leb e.ingested_at x.ingested_at then e ∷ x ∷ xs else rest

abbrev pub order_by_ingested : List PaymentEvent → List PaymentEvent
order_by_ingested [] = []
order_by_ingested (e ∷ es) = insert_event e (order_by_ingested es)

abbrev pub any_event : (PaymentEvent → Bool) → List PaymentEvent → Bool
any_event p [] = false
any_event p (e ∷ es) = p e || any_event p es

module _ {W : Type 0} where
  unfoldable pub check_terminal_event_exists_before :
      String → ℕ → Option String → Action (Database W) Bool
  check_terminal_event_exists_before attempt as_of none =
      gets (λ db. any_event (ingested_by as_of (terminal_by_key attempt)) db.payment_events)
  check_terminal_event_exists_before attempt as_of (some source) =
      lift (validate_provider (some source)) >>= λ _.
      gets (λ db.
        any_event (ingested_by as_of (terminal_of_provider source attempt)) db.payment_events)

  unfoldable pub get_canonical_terminal_events :
      String → ℕ → Option String → Action (Database W) (List PaymentEvent)
  get_canonical_terminal_events attempt as_of none = gets (λ db.
      order_by_ingested (select (ingested_by as_of (terminal_by_key attempt)) db.payment_events))
  get_canonical_terminal_events attempt as_of (some source) =
      lift (validate_provider (some source)) >>= λ _. gets (λ db.
        order_by_ingested
          (select (ingested_by as_of (terminal_of_provider source attempt)) db.payment_events))

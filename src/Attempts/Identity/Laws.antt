-- ===== src/Attempts/Identity/Laws.antt =====
-- An attempt key determines the provider's kind and the reference.
use revenue_degradation_reco.Prelude.{
  ◌≡◌, refl, sym, ◌∙◌, ap, some, Bool, true, false, String, arith, eq_iff, Bool-cases, inl, inr,
}
use revenue_degradation_reco.Prelude.Texts.{is_empty, strip_prefix-concat, concat_injective}
use revenue_degradation_reco.Errors.{ok}
use revenue_degradation_reco.Attempts.Identity.{
  paypal_attempt_prefix, paypal_attempt_id, paypal_order_id, has_paypal_prefix,
  is_paypal_identifier, is_pipeline_provider, AttemptRef, is_paypal, valid_identity, attempt_ref,
  for_key,
}

-- What the constructor has checked.
pub record IsValidRef (ref : AttemptRef) : Type 0 where
  pub provider : is_pipeline_provider ref.source_system ≡ true
  pub identity :
      valid_identity ref.source_system ref.payment_attempt_id ref.provider_reference ≡ true

pub attempt_ref-IsValidRef :
    (source key reference : String) (ref : AttemptRef)
    → attempt_ref source key reference ≡ ok ref
    → IsValidRef ref
      × (ref.source_system ≡ source)
      × (ref.payment_attempt_id ≡ key)
      × (ref.provider_reference ≡ reference)
unfolding attempt_ref
attempt_ref-IsValidRef source key reference ref e = ground arith

identifier_nonempty : (s : String) → is_paypal_identifier s ≡ true → is_empty s ≡ false
unfolding is_paypal_identifier
identifier_nonempty String.[] h = cc
identifier_nonempty (String.◌∷◌ c s) h = refl

-- The order id comes back out of a PayPal attempt key.
pub paypal_order_id-paypal_attempt_id :
    (order_id : String)
    → is_empty order_id ≡ false
    → paypal_order_id (paypal_attempt_id order_id) ≡ some order_id
unfolding paypal_order_id paypal_attempt_id
paypal_order_id-paypal_attempt_id order_id h =
    rw (strip_prefix-concat paypal_attempt_prefix order_id) (rw h)

has_paypal_prefix-paypal_attempt_id :
    (order_id : String) → has_paypal_prefix (paypal_attempt_id order_id) ≡ true
unfolding has_paypal_prefix paypal_attempt_id
has_paypal_prefix-paypal_attempt_id order_id = refl

module _ (ref : AttemptRef) (v : IsValidRef ref) where
  paypal_parts :
      is_paypal ref ≡ true
      → (is_paypal_identifier ref.provider_reference ≡ true)
        × (ref.payment_attempt_id ≡ paypal_attempt_id ref.provider_reference)
  unfolding is_paypal valid_identity
  paypal_parts p =
      ground (
        arith,
        v.identity,
        eq_iff ref.payment_attempt_id (paypal_attempt_id ref.provider_reference),
      )

  other_parts :
      is_paypal ref ≡ false
      → (ref.payment_attempt_id ≡ ref.provider_reference)
        × (has_paypal_prefix ref.payment_attempt_id ≡ false)
  unfolding is_paypal valid_identity
  other_parts p = ground (arith, v.identity, eq_iff ref.payment_attempt_id ref.provider_reference)

  -- The reference of a valid attempt is recovered from its provider and key: what was constructed is what
  -- `for_key` finds.
  pub for_key_of_valid : for_key ref.source_system ref.payment_attempt_id ≡ ok ref
  unfolding for_key attempt_ref
  for_key_of_valid = elim (Bool-cases (is_paypal ref)) [
    | inl paypal ↦
        let (id, key) = paypal_parts paypal in
        let found : paypal_order_id ref.payment_attempt_id ≡ some ref.provider_reference =
          ap paypal_order_id key
          ∙ paypal_order_id-paypal_attempt_id ref.provider_reference
              (identifier_nonempty ref.provider_reference id) in
        unfold is_paypal in ground (arith, v.provider, v.identity, found)
    | inr other ↦
        let (key, free) = other_parts other in
        unfold is_paypal in ground (arith, v.provider, v.identity, key)
  ]

-- Two valid attempts under one key are of one kind, PayPal or not, and have the same reference: an
-- overlapping payment id or order id never joins a PayPal attempt to another provider's.
pub same_key :
    (a b : AttemptRef)
    → IsValidRef a
    → IsValidRef b
    → a.payment_attempt_id ≡ b.payment_attempt_id
    → (is_paypal a ≡ is_paypal b) × (a.provider_reference ≡ b.provider_reference)
same_key a b va vb e = go (is_paypal a) (is_paypal b) refl refl
  where
    go :
        (p q : Bool)
        → is_paypal a ≡ p
        → is_paypal b ≡ q
        → (is_paypal a ≡ is_paypal b) × (a.provider_reference ≡ b.provider_reference)
    go true true pa pb =
        let (ia, ka) = paypal_parts a va pa in
        let (ib, kb) = paypal_parts b vb pb in
        (
          pa ∙ sym pb,
          concat_injective paypal_attempt_prefix _ _ (unfold paypal_attempt_id in sym ka ∙ e ∙ kb),
        )
    go false false pa pb =
        let (ka, fa) = other_parts a va pa in
        let (kb, fb) = other_parts b vb pb in (pa ∙ sym pb, sym ka ∙ e ∙ kb)
    go true false pa pb =
        let (ia, ka) = paypal_parts a va pa in
        let (kb, fb) = other_parts b vb pb in
        let t = has_paypal_prefix-paypal_attempt_id a.provider_reference in
        let u = ap has_paypal_prefix (sym ka ∙ e) in cc
    go false true pa pb =
        let (ib, kb) = paypal_parts b vb pb in
        let (ka, fa) = other_parts a va pa in
        let t = has_paypal_prefix-paypal_attempt_id b.provider_reference in
        let u = ap has_paypal_prefix (sym kb ∙ sym e) in cc

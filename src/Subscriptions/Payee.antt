-- ===== src/Subscriptions/Payee.antt =====
-- For whom the billing worker makes its payments.
use pay_fast_processor.Prelude.{
  String, false, List, [], ◌∷◌, ◌++◌, update, ◌≡◌, refl, ◌∙◌, ap, inl, inr, Bool-cases, ◌==◌,
  if◌then◌else◌,
}
use pay_fast_processor.Store.Schema.{Payment, PaymentStatus}
use pay_fast_processor.Runtime.World.{Env, World, idle}
use pay_fast_processor.Subscriptions.Billing.{process_due_subscriptions}
use pay_fast_processor.Subscriptions.Rest.{process_due_subscriptions-AtRest}

-- The payments of a merchant, by id.
abbrev pub payment_ids : String → List Payment → List String
payment_ids m [] = []
payment_ids m (p ∷ l) = if p.merchant_id == m then p.id ∷ payment_ids m l else payment_ids m l

module _ (m : String) where
  payment_ids-append :
      (l : List Payment) (p : Payment)
      → (p.merchant_id == m) ≡ false
      → payment_ids m (l ++ p ∷ []) ≡ payment_ids m l
  payment_ids-append [] p other = rw other refl
  payment_ids-append (x ∷ l) p other = elim (Bool-cases (x.merchant_id == m)) [
    | inl own ↦ rw (own, payment_ids-append l p other) refl
    | inr not_own ↦ rw (not_own, payment_ids-append l p other) refl
  ]

  payment_ids-update :
      (l : List Payment) (id : String) (s : PaymentStatus)
      → payment_ids m (update (λ p. p.id == id) (λ p. record p { status = s }) l) ≡ payment_ids m l
  payment_ids-update [] id s = refl
  payment_ids-update (x ∷ l) id s = elim (Bool-cases (x.id == id)) [
    | inl hit ↦ rw (hit, payment_ids-update l id s) refl
    | inr miss ↦ rw (miss, payment_ids-update l id s) refl
  ]

module _ (env : Env) (m : String) (w : World) where
  -- Whatever subscriptions are due, and whichever calls fail: a poll of the billing worker neither
  -- adds nor removes a payment of a merchant other than "merch_01test".
  pub payment_ids-process_due_subscriptions :
      ("merch_01test" == m) ≡ false
      → w.tx ≡ idle
      → payment_ids m (process_due_subscriptions env w).1.db.payments ≡ payment_ids m w.db.payments
  payment_ids-process_due_subscriptions other closed =
      (process_due_subscriptions-AtRest env
        (λ d. payment_ids m d.payments ≡ payment_ids m w.db.payments)
        (λ d p test h. payment_ids-append m d.payments p (ap (λ i. i == m) test ∙ other) ∙ h)
        (λ d id s h. payment_ids-update m d.payments id s ∙ h) (λ d l h. h) (λ d l h. h)
        (λ d l h. h) w (record { holds = refl; closed = closed })).holds

-- ===== src/Admin/Refunding/Written.antt =====
-- What a refund writes, and what its query finds.
use pay_fast_processor.Prelude.{
  ℕ, String, true, none, some, [], ◌∷◌, ◌++◌, ◌≡◌, refl, find, update, subst, Option-cases, inl,
  inr, arith,
}
use pay_fast_processor.Prelude.Int.{ℤ, pos, eqb_ℤ, ◌<ℤ◌}
use pay_fast_processor.Store.Schema.{
  Db, SameRest, Payment, PaymentStatus, created, processing, requires_action, authorized, captured,
  failed, canceled, initiated, settled, refunded, processed, LedgerEntry, merchant_payable,
  is_processed,
}
use pay_fast_processor.Store.Sql.{SqlError, Result, ok, err}
use pay_fast_processor.Runtime.World.{World}
use pay_fast_processor.Runtime.Act.{as_error}
use pay_fast_processor.Runtime.Transaction.{Reads}
use pay_fast_processor.Books.Balance.{IsPair}
use pay_fast_processor.Books.Accounts.{HasAccount, Found}
use pay_fast_processor.Admin.Refunds.{
  is_payment_of, select_payment, refund_of, has_id, refund_payment,
}

pub processed_of_test : (s : PaymentStatus) → is_processed s ≡ true → s ≡ processed
processed_of_test processed h = refl
processed_of_test created h = cc h
processed_of_test processing h = cc h
processed_of_test requires_action h = cc h
processed_of_test authorized h = cc h
processed_of_test captured h = cc h
processed_of_test failed h = cc h
processed_of_test canceled h = cc h
processed_of_test initiated h = cc h
processed_of_test settled h = cc h
processed_of_test refunded h = cc h

pub equal_of_test : (a b : ℤ) → eqb_ℤ a b ≡ true → a ≡ b
equal_of_test a b h = ground arith

pub Reads-of_found :
    (P : String → Type 0) {F : Type 0} (r : Result SqlError String)
    → Found (as_error r) P
    → F
    → Reads (λ a. F × P a) r
Reads-of_found P (ok a) p f = (f, p)
Reads-of_found P (err e) p f = tt

module _ (merchant_id payment_id : String) (amount : ℤ) (w0 : World) where
  -- The refund is recorded and the payment marked, and nothing is booked.
  abbrev pub Recorded : String → Db → Type 0
  Recorded id d =
      (d.refunds ≡ w0.db.refunds ++ refund_of id payment_id merchant_id amount w0.now ∷ [])
      × (d.payments ≡ update (has_id payment_id) refund_payment w0.db.payments)
      × (d.accounts ≡ w0.db.accounts)
      × (d.settlements ≡ w0.db.settlements)
      × SameRest w0.db d

  -- The refund is recorded and booked.
  pub record Written (d : Db) : Type 0 where
    pub refund_id : String
    pub recorded : Recorded refund_id d
    pub debited : LedgerEntry
    pub credited : LedgerEntry
    pub entries : d.ledger_entries ≡ w0.db.ledger_entries ++ debited ∷ credited ∷ []
    pub pair : IsPair debited credited
    pub credited_amount : credited.amount ≡ amount
    pub unlabelled : credited.payment_id ≡ none
    pub positive : pos 0 <ℤ amount
    pub payable : HasAccount merchant_payable merchant_id "usd" debited.account_id d
    pub system : credited.account_id ≡ "acc_system_01"

  -- The payment is refunded in full and the refund is booked.
  pub record Refunded (d : Db) : Type 0 where
    pub refund_id : String
    pub recorded : Recorded refund_id d
    pub payment : Payment
    pub found : find (is_payment_of payment_id merchant_id) w0.db.payments ≡ some payment
    pub was_processed : payment.status ≡ processed
    pub full : amount ≡ payment.amount
    pub debited : LedgerEntry
    pub credited : LedgerEntry
    pub entries : d.ledger_entries ≡ w0.db.ledger_entries ++ debited ∷ credited ∷ []
    pub pair : IsPair debited credited
    pub credited_amount : credited.amount ≡ amount
    pub unlabelled : credited.payment_id ≡ none
    pub positive : pos 0 <ℤ amount
    pub payable : HasAccount merchant_payable merchant_id "usd" debited.account_id d
    pub system : credited.account_id ≡ "acc_system_01"

  -- The payment that the checks passed.
  abbrev pub IsChecked : Type 0
  IsChecked =
      (p : Payment) × (find (is_payment_of payment_id merchant_id) w0.db.payments ≡ some p)
      × (p.status ≡ processed)
      × (amount ≡ p.amount)

  abbrev pub IsFound : ℕ → PaymentStatus × ℤ → Db → Type 0
  IsFound now (status, original) d =
      (d ≡ w0.db)
      × (now ≡ w0.now)
      × (p : Payment) × (find (is_payment_of payment_id merchant_id) w0.db.payments ≡ some p)
      × (p.status ≡ status)
      × (p.amount ≡ original)

  pub found_lem :
      (now : ℕ) (d : Db)
      → (d ≡ w0.db) × (now ≡ w0.now)
      → Reads (λ s. IsFound now s d) (select_payment payment_id merchant_id d)
  unfolding select_payment
  found_lem now d h = elim (Option-cases (find (is_payment_of payment_id merchant_id) d.payments)) [
    | inl missing ↦ rw missing tt
    | inr (p, f) ↦ rw f (
      h.0,
      h.1,
      p,
      subst (λ x. find (is_payment_of payment_id merchant_id) x.payments ≡ some p) h.0 f,
      refl,
      refl,
    )
  ]

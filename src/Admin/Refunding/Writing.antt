-- ===== src/Admin/Refunding/Writing.antt =====
-- The statements of a refund, up to its commit.
use pay_fast_processor.Prelude.{ℕ, String, [], ◌∷◌, ◌++◌, ◌≡◌, refl, ap, append_assoc, concat}
use pay_fast_processor.Prelude.Int.{ℤ, pos, ◌<ℤ◌}
use pay_fast_processor.Store.Schema.{Db, LedgerEntry, merchant_payable}
use pay_fast_processor.Runtime.World.{Env, World}
use pay_fast_processor.Runtime.Triple.{Triple, Triple-bind, Triple-wrapping, Triple-weaken}
use pay_fast_processor.Runtime.Transaction.{
  InTx, Any, Leads, Reads, Committed, Triple-commit, Triple-tx_exec, Triple-tx_query,
  Triple-nano_text,
}
use pay_fast_processor.Books.{account_of}
use pay_fast_processor.Books.Inserts.{Leads-constrained, Leads-insert_ledger_entry}
use pay_fast_processor.Books.Accounts.{HasAccount, account_of-Found}
use pay_fast_processor.Admin.Refunds.{
  insert_refund, refund_constraints, refund_of, mark_refunded, debit_entry, credit_entry,
  post_entries, write_refund,
}
use pay_fast_processor.Admin.Refunding.Written.{
  Reads-of_found, Recorded, Written, Refunded, IsChecked,
}

module _ (merchant_id payment_id : String) (amount : ℤ) (w0 : World)
    (checked : IsChecked merchant_id payment_id amount w0) where
  Refunded-Written :
      (d : Db)
      → Written merchant_id payment_id amount w0 d
      → Refunded merchant_id payment_id amount w0 d
  Refunded-Written d h = record {
    refund_id = h.refund_id;
    recorded = h.recorded;
    payment = checked.0;
    found = checked.1;
    was_processed = checked.2;
    full = checked.3;
    debited = h.debited;
    credited = h.credited;
    entries = h.entries;
    pair = h.pair;
    credited_amount = h.credited_amount;
    unlabelled = h.unlabelled;
    positive = h.positive;
    payable = h.payable;
    system = h.system;
  }

module _ (env : Env) (merchant_id payment_id : String) (amount : ℤ) (w0 : World) where
  abbrev IsRecorded : String → Db → Type 0
  IsRecorded id d =
      Recorded merchant_id payment_id amount w0 id d × (d.ledger_entries ≡ w0.db.ledger_entries)

  abbrev Ready : String → String → Db → Type 0
  Ready id account d = IsRecorded id d × HasAccount merchant_payable merchant_id "usd" account d

  abbrev HalfPosted : String → String → LedgerEntry → Db → Type 0
  HalfPosted id account e d =
      Recorded merchant_id payment_id amount w0 id d
      × (d.ledger_entries ≡ w0.db.ledger_entries ++ e ∷ [])
      × HasAccount merchant_payable merchant_id "usd" account d
      × (pos 0 <ℤ amount)

  HalfPosted-Written :
      (id account debit_nano credit_nano group : String) (now : ℕ) (d : Db)
      → HalfPosted id account (debit_entry debit_nano account group amount now) d
      → Written merchant_id payment_id amount w0 (record d {
        ledger_entries = d.ledger_entries ++ credit_entry credit_nano group amount now ∷ [];
      })
  HalfPosted-Written id account debit_nano credit_nano group now d h = record {
    refund_id = id;
    recorded = h.0;
    debited = debit_entry debit_nano account group amount now;
    credited = credit_entry credit_nano group amount now;
    entries = rw (h.1, append_assoc);
    pair = record { debits = refl; credits = refl; group = refl; amount = refl; currency = refl };
    credited_amount = refl;
    unlabelled = refl;
    positive = h.3;
    payable = h.2;
    system = refl;
  }

  account_lem :
      (id : String) (d : Db)
      → IsRecorded id d
      → Reads (λ account. Ready id account d) (account_of merchant_payable merchant_id "usd" d)
  account_lem id d h = Reads-of_found _ _ (account_of-Found merchant_payable merchant_id "usd" d) h

  post_entries_lem :
      (id : String) (now : ℕ)
      → Triple
          (InTx w0 (IsRecorded id))
          (post_entries env merchant_id payment_id amount id now)
          (λ _. InTx w0 (Written merchant_id payment_id amount w0))
          (InTx w0 Any)
  unfolding post_entries
  post_entries_lem id now =
      let group = concat "tx_ref_" id in
      Triple-bind _ _ (Triple-wrapping _ _ (Triple-tx_query env w0 _ (Ready id) _ (account_lem id)))
        λ account. Triple-bind _ _ (Triple-nano_text env w0 _) λ debit_nano.
          let e = debit_entry debit_nano account group amount now in
          Triple-bind _ _
            (Triple-wrapping _ _ (
              Triple-tx_exec env w0 _ (λ _. HalfPosted id account e) _
                λ d h.
                  Leads-insert_ledger_entry _ e d
                    (λ p. (h.0.0, ap (λ l. l ++ e ∷ []) h.0.1, h.1, p))))
            λ _. Triple-bind _ _ (Triple-nano_text env w0 _) λ credit_nano. Triple-wrapping _ _ (
              Triple-tx_exec env w0 _ _ _ λ d h.
                Leads-insert_ledger_entry _ _ d
                  (λ _. HalfPosted-Written id account debit_nano credit_nano group now d h))

  pub recorded :
      (id : String) (now : ℕ) (d : Db)
      → (d ≡ w0.db) × (now ≡ w0.now)
      → Leads
          (λ _ d'.
            (d' ≡ record w0.db {
              refunds = w0.db.refunds ++ refund_of id payment_id merchant_id amount w0.now ∷ [];
            }))
          (insert_refund (refund_of id payment_id merchant_id amount now) d)
  unfolding insert_refund
  recorded id now d h =
      let r = refund_of id payment_id merchant_id amount now in
      Leads-constrained _ (refund_constraints r d) tt _ (λ _. rw (h.0, h.1) refl)

  pub write_refund-Written :
      (now : ℕ)
      → now ≡ w0.now
      → Triple
          (InTx w0 (λ d. d ≡ w0.db))
          (write_refund env merchant_id payment_id amount now)
          (λ _. Committed w0 (Written merchant_id payment_id amount w0))
          (InTx w0 Any)
  unfolding write_refund mark_refunded
  write_refund-Written now same = Triple-bind _ _ (Triple-nano_text env w0 _) λ nano.
      let id = concat "ref_" nano in
      Triple-bind _ _
        (Triple-wrapping _ _ (
          Triple-tx_exec env w0 _
            (λ _ d'. d' ≡ record w0.db {
              refunds = w0.db.refunds ++ refund_of id payment_id merchant_id amount w0.now ∷ [];
            })
            _ λ d h. recorded id now d (h, same)))
        λ _.
          Triple-bind _ _
            (Triple-wrapping _ _ (
              Triple-tx_exec env w0 _ (λ _. IsRecorded id) _
                λ d h. rw h ((refl, refl, refl, refl, (refl, refl, refl, refl, refl)), refl)))
            λ _. Triple-bind _ _ (post_entries_lem id now) λ _. Triple-commit env w0 _

module _ (env : Env) (merchant_id payment_id : String) (amount : ℤ) (w0 : World)
    (checked : IsChecked merchant_id payment_id amount w0) where
  pub write_refund_lem :
      (now : ℕ)
      → now ≡ w0.now
      → Triple
          (InTx w0 (λ d. d ≡ w0.db))
          (write_refund env merchant_id payment_id amount now)
          (λ _. Committed w0 (Refunded merchant_id payment_id amount w0))
          (InTx w0 Any)
  write_refund_lem now same =
      Triple-weaken _ (write_refund-Written env merchant_id payment_id amount w0 now same)
        (λ w h. h)
        (λ _ w h. record {
          tx = h.tx;
          holds = Refunded-Written merchant_id payment_id amount w0 checked w.db h.holds;
          outside = h.outside;
        })
        (λ w h. h)

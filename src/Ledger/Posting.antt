-- ===== src/Ledger/Posting.antt =====
-- What booking an event does to the database.
use pay_fast_processor.Prelude.{
  ℕ, String, Bool, true, false, some, [], ◌∷◌, ◌++◌, ◌≡◌, refl, find, ap, subst, append_assoc,
  Bool-cases, Option-cases, inl, inr,
}
use pay_fast_processor.Prelude.Int.{pos, ◌<ℤ◌}
use pay_fast_processor.Store.Schema.{Db, Payment, LedgerEntry, merchant_payable}
use pay_fast_processor.Runtime.World.{Env, World}
use pay_fast_processor.Runtime.Act.{in_background, publish_webhook_event}
use pay_fast_processor.Runtime.Triple.{Triple, Triple-bind, Triple-wrapping, Triple-pure}
use pay_fast_processor.Runtime.Transaction.{
  InTx, Any, Reads, Leads, Triple-tx_exec, Triple-tx_query, Triple-generate, Triple-now,
  Triple-commit, Committed,
}
use pay_fast_processor.Books.Inserts.{Leads-insert_account, Leads-insert_ledger_entry}
use pay_fast_processor.Books.Accounts.{
  AllowsAccounts, HasAccount, HasAccount-AllowsAccounts, Triple-find_account, Triple-ensure_account,
  account_exists-Reads,
}
use pay_fast_processor.Ledger.{
  PaymentEvent, debit_entry, credit_entry, has_id, merchant_of, merchant_of_payment, mark_initiated,
  ensure_system_account, post_entries, book, webhook_event,
}
use pay_fast_processor.Ledger.Booked.{Marked, IsMarked, Posted, Marked-same, announcement, Booked}

module _ (env : Env) (w0 : World) (event : PaymentEvent) where
  publish_lem :
      Triple
        (Committed w0 (Posted event w0.now w0.db))
        (in_background (publish_webhook_event env event.payment_id (webhook_event event)))
        (λ _. Booked w0 event)
        (InTx w0 Any)
  unfolding in_background publish_webhook_event
  publish_lem = record {
    run = λ w h. elim (Bool-cases (env.fails w.tick)) [
      | inl f ↦ rw f (record {
        tx = h.tx;
        posted = h.holds;
        cache = h.outside.0;
        payment_events = h.outside.1;
        now = h.outside.3;
        webhook_events = inl h.outside.2;
      })
      | inr f ↦ rw f (record {
        tx = h.tx;
        posted = h.holds;
        cache = h.outside.0;
        payment_events = h.outside.1;
        now = h.outside.3;
        webhook_events = inr (ap (λ l. l ++ announcement event ∷ []) h.outside.2);
      })
    ];
  }

  abbrev Ready : String → String → Db → Type 0
  Ready m id d = IsMarked event w0.now w0.db m d × HasAccount merchant_payable m event.currency id d

  -- The debit is there, and the credit is not.
  abbrev HalfPosted : String → String → LedgerEntry → Db → Type 0
  HalfPosted m id e d =
      Marked event w0.now w0.db m d
      × HasAccount merchant_payable m event.currency id d
      × (d.ledger_entries ≡ w0.db.ledger_entries ++ e ∷ [])
      × (pos 0 <ℤ event.amount)

  Ready-HalfPosted :
      (m id : String) (e : LedgerEntry) (d : Db)
      → Ready m id d
      → pos 0 <ℤ event.amount
      → HalfPosted m id e (record d { ledger_entries = d.ledger_entries ++ e ∷ [] })
  Ready-HalfPosted m id e d h positive = (
    Marked-same event w0.now w0.db h.0.0 refl (refl, refl, refl, refl, refl, refl, refl),
    h.1,
    ap (λ l. l ++ e ∷ []) h.0.1,
    positive,
  )

  HalfPosted-Posted :
      (m id debit_id credit_id group : String) (now : ℕ) (d : Db)
      → HalfPosted m id (debit_entry event debit_id group now) d
      → Posted event w0.now w0.db (record d {
        ledger_entries = d.ledger_entries ++ credit_entry event credit_id group id now ∷ [];
      })
  HalfPosted-Posted m id debit_id credit_id group now d h = record {
    merchant_id = m;
    marked = Marked-same event w0.now w0.db h.0 refl (refl, refl, refl, refl, refl, refl, refl);
    debited = debit_entry event debit_id group now;
    credited = credit_entry event credit_id group id now;
    entries = rw (h.2, append_assoc);
    pair = record { debits = refl; credits = refl; group = refl; amount = refl; currency = refl };
    side = record { amount = refl; currency = refl; payment_id = refl };
    debit_payment = refl;
    positive = h.3;
    system = refl;
    payable = h.1;
  }

  post_entries_lem :
      (m id group : String) (now : ℕ)
      → Triple
          (InTx w0 (Ready m id))
          (post_entries env event group id now)
          (λ _. InTx w0 (Posted event w0.now w0.db))
          (InTx w0 Any)
  unfolding post_entries
  post_entries_lem m id group now = Triple-bind _ _ (Triple-generate env w0 _ "le_") λ debit_id.
      let e = debit_entry event debit_id group now in
      Triple-bind _ _
        (Triple-wrapping _ _ (
          Triple-tx_exec env w0 _ (λ _. HalfPosted m id e) _
            λ d h. Leads-insert_ledger_entry _ e d (Ready-HalfPosted m id e d h)))
        λ _. Triple-bind _ _ (Triple-generate env w0 _ "le_") λ credit_id. Triple-wrapping _ _ (
          Triple-tx_exec env w0 _ _ _ λ d h.
            Leads-insert_ledger_entry _ _ d
              (λ _. HalfPosted-Posted m id debit_id credit_id group now d h))

  IsMarked-AllowsAccounts : (m : String) → AllowsAccounts (IsMarked event w0.now w0.db m)
  IsMarked-AllowsAccounts m d a h =
      (Marked-same event w0.now w0.db h.0 refl (refl, refl, refl, refl, refl, refl, refl), h.1)

  ensure_system_account_lem :
      (m id : String) (exists : Bool)
      → Triple
          (InTx w0 (Ready m id))
          (ensure_system_account env exists event.currency)
          (λ _. InTx w0 (Ready m id))
          (InTx w0 Any)
  unfolding ensure_system_account
  ensure_system_account_lem m id true = Triple-pure tt (λ w h. h)
  ensure_system_account_lem m id false = Triple-wrapping _ _ (
      Triple-tx_exec env w0 _ _ _ λ d h. Leads-insert_account _ _ d (
        IsMarked-AllowsAccounts m d _ h.0,
        HasAccount-AllowsAccounts merchant_payable m event.currency id d _ h.1,
      ))

  abbrev IsFound : String → ℕ → Db → Type 0
  IsFound m now d =
      (d ≡ w0.db)
      × (now ≡ w0.now)
      × (p : Payment) × (find (has_id event.payment_id) w0.db.payments ≡ some p)
      × (p.merchant_id ≡ m)

  found_lem :
      (now : ℕ) (d : Db)
      → (d ≡ w0.db) × (now ≡ w0.now)
      → Reads (λ m. IsFound m now d) (merchant_of_payment event.payment_id d)
  unfolding merchant_of_payment
  found_lem now d h = elim (Option-cases (find (has_id event.payment_id) d.payments)) [
    | inl missing ↦ rw (missing, merchant_of) tt
    | inr (p, f) ↦
        rw (f, merchant_of)
          (h.0, h.1, p, subst (λ x. find (has_id event.payment_id) x.payments ≡ some p) h.0 f, refl)
  ]

  marked_lem :
      (m : String) (now : ℕ) (d : Db)
      → IsFound m now d
      → Leads (λ _. IsMarked event w0.now w0.db m) (mark_initiated event.payment_id now d)
  unfolding mark_initiated
  marked_lem m now d h = (
    record {
      payment = h.2;
      found = h.3;
      merchant = h.4;
      payments = rw (h.0, h.1);
      elsewhere = rw h.0 (refl, refl, refl, refl, refl, refl, refl);
    },
    rw h.0,
  )

  -- The statements up to the commit.
  pub book_lem :
      Triple (InTx w0 (λ d. d ≡ w0.db)) (book env event) (λ _. Booked w0 event) (InTx w0 Any)
  unfolding book
  book_lem = Triple-bind _ _ (Triple-now env w0 _) λ now.
      Triple-bind _ _
        (Triple-wrapping _ _ (Triple-tx_query env w0 _ (λ m. IsFound m now) _ (found_lem now)))
        λ m.
          Triple-bind _ _
            (Triple-wrapping _ _
              (Triple-tx_exec env w0 _ (λ _. IsMarked event w0.now w0.db m) _ (marked_lem m now)))
            λ _.
              Triple-bind _ _ (Triple-find_account env w0 merchant_payable m event.currency _) λ r.
                Triple-bind _ _
                  (Triple-ensure_account env w0 merchant_payable m event.currency _
                    (IsMarked-AllowsAccounts m) _ r)
                  λ id. Triple-bind _ _ (Triple-generate env w0 _ "txg_") λ group.
                    Triple-bind _ _
                      (Triple-wrapping _ _ (
                        Triple-tx_query env w0 _ (λ _. Ready m id) _
                          (λ d. account_exists-Reads (Ready m id) _ d)))
                      λ exists. Triple-bind _ _ (ensure_system_account_lem m id exists) λ _.
                        Triple-bind _ _ (post_entries_lem m id group now) λ _.
                          Triple-bind _ _ (Triple-wrapping _ _ (Triple-commit env w0 _))
                            λ _. publish_lem

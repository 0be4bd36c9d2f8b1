-- ===== src/Settlement/Payout.antt =====
-- What paying out an event does to the database.
use pay_fast_processor.Prelude.{
  ℕ, String, none, some, List, [], ◌∷◌, ◌++◌, ◌≡◌, refl, count, update, ◌∙◌, ap, append_assoc,
  append-nil, sym, inl, inr, All, All-concat, Bool-cases,
}
use pay_fast_processor.Prelude.Int.{pos, ◌<ℤ◌}
use pay_fast_processor.Store.Schema.{
  Db, SameRest, LedgerEntry, merchant_payable, merchant_settlement,
}
use pay_fast_processor.Runtime.World.{Env, World, Message, idle}
use pay_fast_processor.Runtime.Act.{in_background, publish_payment_event}
use pay_fast_processor.Runtime.Triple.{
  Triple, Triple-bind, Triple-wrapping, Triple-pure, Triple-weaken,
}
use pay_fast_processor.Runtime.Transaction.{
  InTx, Any, Triple-tx_exec, Triple-generate, Triple-commit, Committed,
}
use pay_fast_processor.Books.Balance.{IsPair}
use pay_fast_processor.Books.Inserts.{Leads-insert_ledger_entry}
use pay_fast_processor.Books.Accounts.{
  HasAccount, HasAccount-AllowsAccounts, Triple-find_account, Triple-ensure_account,
}
use pay_fast_processor.Settlement.{
  SettleEvent, target_payment_ids, settlement_of, is_open_target, settle, debit_entry, credit_entry,
  settled_event, announce, post_entries, pay_out,
}

module _ (w0 : World) (event : SettleEvent) where
  -- No target is left that has no settlement.
  abbrev pub IsSettled : Type 0
  IsSettled = count (is_open_target (target_payment_ids event)) w0.db.payments ≡ 0

  -- The open targets carry its id, and there was one.
  abbrev pub Attached : String → Db → Type 0
  Attached sid d =
      (d.settlements ≡ w0.db.settlements ++ settlement_of event sid w0.now ∷ [])
      × (d.payments
          ≡ update (is_open_target (target_payment_ids event)) (settle sid w0.now) w0.db.payments)
      × SameRest w0.db d
      × (d.refunds ≡ w0.db.refunds)
      × (IsSettled → ⊥)

  pub record Settled (d : Db) : Type 0 where
    pub settlement_id : String
    pub attached : Attached settlement_id d
    pub debited : LedgerEntry
    pub credited : LedgerEntry
    pub entries : d.ledger_entries ≡ w0.db.ledger_entries ++ debited ∷ credited ∷ []
    pub pair : IsPair debited credited
    pub amount : credited.amount ≡ event.amount
    pub positive : pos 0 <ℤ event.amount
    pub currency : credited.currency ≡ event.currency
    pub no_payment : (debited.payment_id ≡ none) × (credited.payment_id ≡ none)
    pub payable : HasAccount merchant_payable event.merchant_id event.currency debited.account_id d
    pub payout :
        HasAccount merchant_settlement event.merchant_id event.currency credited.account_id d

  abbrev pub IsAnnouncement : Message → Type 0
  IsAnnouncement m =
      (id : String) × (m ≡ record { key = id; value = some (settled_event event id) })

  -- After the commit: the webhook events of the settled payments go to "payment_events".
  pub record Paid (w : World) : Type 0 where
    pub tx : w.tx ≡ idle
    pub settled : Settled w.db
    pub cache : w.cache ≡ w0.cache
    pub webhook_events : w.webhook_events ≡ w0.webhook_events
    pub now : w.now ≡ w0.now
    pub published : List Message
    pub payment_events : w.payment_events ≡ w0.payment_events ++ published
    pub announcements : All IsAnnouncement published

  Committed-Paid : (w : World) → Committed w0 Settled w → Paid w
  Committed-Paid w h = record {
    tx = h.tx;
    settled = h.holds;
    cache = h.outside.0;
    webhook_events = h.outside.2;
    now = h.outside.3;
    published = [];
    payment_events = h.outside.1 ∙ sym (append-nil _);
    announcements = tt;
  }

module _ (env : Env) (w0 : World) (event : SettleEvent) where
  announce_one :
      (id : String)
      → Triple
          (Paid w0 event)
          (in_background (publish_payment_event env id (settled_event event id)))
          (λ _. Paid w0 event)
          (InTx w0 Any)
  unfolding in_background publish_payment_event
  announce_one id = record {
    run = λ w h. elim (Bool-cases (env.fails w.tick)) [
      | inl f ↦ rw f (record {
        tx = h.tx;
        settled = h.settled;
        cache = h.cache;
        webhook_events = h.webhook_events;
        now = h.now;
        published = h.published;
        payment_events = h.payment_events;
        announcements = h.announcements;
      })
      | inr f ↦ rw f (record {
        tx = h.tx;
        settled = h.settled;
        cache = h.cache;
        webhook_events = h.webhook_events;
        now = h.now;
        published = h.published ++ record { key = id; value = some (settled_event event id) } ∷ [];
        payment_events = rw (h.payment_events, append_assoc);
        announcements =
            All-concat (IsAnnouncement w0 event) h.published _ h.announcements (id, refl);
      })
    ];
  }

  announce_lem :
      (ids : List String)
      → Triple (Paid w0 event) (announce env event ids) (λ _. Paid w0 event) (InTx w0 Any)
  unfolding announce
  announce_lem [] = Triple-pure tt (λ w h. h)
  announce_lem (id ∷ ids) = Triple-bind _ _ (announce_one id) λ _. announce_lem ids

  abbrev Ready : String → String → String → Db → Type 0
  Ready sid pid oid d =
      (Attached w0 event sid d × (d.ledger_entries ≡ w0.db.ledger_entries))
      × HasAccount merchant_payable event.merchant_id event.currency pid d
      × HasAccount merchant_settlement event.merchant_id event.currency oid d

  abbrev HalfPosted : String → String → String → LedgerEntry → Db → Type 0
  HalfPosted sid pid oid e d =
      (Attached w0 event sid d × (d.ledger_entries ≡ w0.db.ledger_entries ++ e ∷ []))
      × HasAccount merchant_payable event.merchant_id event.currency pid d
      × HasAccount merchant_settlement event.merchant_id event.currency oid d
      × (pos 0 <ℤ event.amount)

  HalfPosted-Settled :
      (sid pid oid debit_id credit_id group : String) (now : ℕ) (d : Db)
      → HalfPosted sid pid oid (debit_entry event debit_id group pid now) d
      → Settled w0 event (record d {
        ledger_entries = d.ledger_entries ++ credit_entry event credit_id group oid now ∷ [];
      })
  HalfPosted-Settled sid pid oid debit_id credit_id group now d h = record {
    settlement_id = sid;
    attached = h.0.0;
    debited = debit_entry event debit_id group pid now;
    credited = credit_entry event credit_id group oid now;
    entries = rw (h.0.1, append_assoc);
    pair = record { debits = refl; credits = refl; group = refl; amount = refl; currency = refl };
    amount = refl;
    positive = h.3;
    currency = refl;
    no_payment = (refl, refl);
    payable = h.1;
    payout = h.2;
  }

  post_entries_lem :
      (sid pid oid : String) (now : ℕ)
      → Triple
          (InTx w0 (Ready sid pid oid))
          (post_entries env event pid oid now)
          (λ _. InTx w0 (Settled w0 event))
          (InTx w0 Any)
  unfolding post_entries
  post_entries_lem sid pid oid now = Triple-bind _ _ (Triple-generate env w0 _ "txg_") λ group.
      Triple-bind _ _ (Triple-generate env w0 _ "le_") λ debit_id.
        let e = debit_entry event debit_id group pid now in
        Triple-bind _ _
          (Triple-wrapping _ _ (
            Triple-tx_exec env w0 _ (λ _. HalfPosted sid pid oid e) _
              λ d h.
                Leads-insert_ledger_entry _ e d
                  (λ p. ((h.0.0, ap (λ l. l ++ e ∷ []) h.0.1), h.1, h.2, p))))
          λ _. Triple-bind _ _ (Triple-generate env w0 _ "le_") λ credit_id. Triple-wrapping _ _ (
            Triple-tx_exec env w0 _ _ _ λ d h.
              Leads-insert_ledger_entry _ _ d
                (λ _. HalfPosted-Settled sid pid oid debit_id credit_id group now d h))

  pub pay_out_lem :
      (sid : String) (ids : List String) (now : ℕ)
      → Triple
          (InTx w0 (λ d. Attached w0 event sid d × (d.ledger_entries ≡ w0.db.ledger_entries)))
          (pay_out env event ids now)
          (λ _. Paid w0 event)
          (InTx w0 Any)
  unfolding pay_out
  pay_out_lem sid ids now =
      let m = event.merchant_id in
      let c = event.currency in
      Triple-bind _ _ (Triple-find_account env w0 merchant_payable m c _) λ r.
        Triple-bind _ _ (Triple-ensure_account env w0 merchant_payable m c _ (λ d a h. h) _ r)
          λ pid. Triple-bind _ _ (Triple-find_account env w0 merchant_settlement m c _) λ r'.
            Triple-bind _ _
              (Triple-ensure_account env w0 merchant_settlement m c _
                (λ d a h. (h.0, HasAccount-AllowsAccounts merchant_payable m c pid d a h.1)) _ r')
              λ oid.
                Triple-bind _ _
                  (Triple-weaken _ (post_entries_lem sid pid oid now)
                    (λ w h. record {
                      began = h.began;
                      live = λ alive. let l = h.live alive in (l.0.0, l.0.1, l.1);
                      outside = h.outside;
                    })
                    (λ _ w h. h) (λ w h. h))
                  λ _. Triple-bind _ _ (Triple-wrapping _ _ (Triple-commit env w0 _)) λ _.
                    Triple-weaken _ (announce_lem ids) (Committed-Paid w0 event) (λ _ w h. h)
                      (λ w h. h)

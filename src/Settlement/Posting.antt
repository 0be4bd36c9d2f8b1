-- ===== src/Settlement/Posting.antt =====
-- What settling an event does to the database, up to its return.
use pay_fast_processor.Prelude.{
  ℕ, String, true, false, List, [], ◌∷◌, ◌++◌, ◌≡◌, refl, arith, count, update, eqb, ◌∙◌, sym, ◌⊎◌,
  inl, inr, if◌then◌else◌,
}
use pay_fast_processor.Store.Schema.{Db, SameRest, Payment}
use pay_fast_processor.Runtime.World.{Env, World}
use pay_fast_processor.Runtime.Act.{pure}
use pay_fast_processor.Runtime.Triple.{
  Triple, Triple-bind, Triple-wrapping, Triple-pure, Triple-if, Triple-because, Triple-weaken,
}
use pay_fast_processor.Runtime.Transaction.{
  InTx, Any, Leads, InTx-Any, Triple-tx_exec, Triple-generate, Triple-now,
}
use pay_fast_processor.Runtime.Alive.{Triple-tx_exec_alive}
use pay_fast_processor.Books.Inserts.{Leads-constrained}
use pay_fast_processor.Settlement.Payout.{IsSettled, Paid, pay_out_lem}
use pay_fast_processor.Settlement.{
  SettleEvent, target_payment_ids, settlement_of, settlement_constraints, insert_settlement,
  is_open_target, settle, attach_settlement, pay_out, attach, settle_payments,
}

zero_of_eqb : (n : ℕ) → eqb n 0 ≡ true → n ≡ 0
zero_of_eqb n h = ground arith

not_eqb_zero : (n : ℕ) → eqb n 0 ≡ false → n ≡ 0 → ⊥
not_eqb_zero n h e = ground arith

module _ (w0 : World) (event : SettleEvent) where
  -- The settlement is recorded, and nothing else is done.
  abbrev Recorded : String → Db → Type 0
  Recorded sid d =
      (d.settlements ≡ w0.db.settlements ++ settlement_of event sid w0.now ∷ [])
      × (d.payments ≡ w0.db.payments)
      × (d.ledger_entries ≡ w0.db.ledger_entries)
      × SameRest w0.db d
      × (d.refunds ≡ w0.db.refunds)

module _ (env : Env) (w0 : World) (event : SettleEvent) where
  -- The event is paid, or nothing was to be done and the transaction is still open.
  abbrev pub Ended : World → Type 0
  Ended w = Paid w0 event w ⊎ (InTx w0 Any w × IsSettled w0 event)

  -- The update has run, and this many rows were affected.
  abbrev Updated : String → ℕ → Db → Type 0
  Updated sid n d =
      (n ≡ count (is_open_target (target_payment_ids event)) w0.db.payments)
      × (d.settlements ≡ w0.db.settlements ++ settlement_of event sid w0.now ∷ [])
      × (d.payments
          ≡ update (is_open_target (target_payment_ids event)) (settle sid w0.now) w0.db.payments)
      × SameRest w0.db d
      × (d.refunds ≡ w0.db.refunds)
      × (d.ledger_entries ≡ w0.db.ledger_entries)

  attach_settlement_lem :
      (sid : String) (ids : List String) (now : ℕ) (d : Db)
      → target_payment_ids event ≡ ids
      → now ≡ w0.now
      → Recorded w0 event sid d
      → Leads (Updated sid) (attach_settlement sid ids now d)
  unfolding attach_settlement
  attach_settlement_lem sid ids now d e n h = (rw (e, h.1), h.0, rw (e, n, h.1), h.3, h.4, h.2)

  after_update :
      (sid : String) (ids : List String) (now n : ℕ)
      → Triple
          (λ w. InTx w0 (Updated sid n) w × Updated sid n w.db)
          (if eqb n 0 then pure tt else pay_out env event ids now)
          (λ _. Ended)
          (InTx w0 Any)
  after_update sid ids now n =
      Triple-because (λ w h. h.1.0)
        λ rows.
          Triple-if _ _ _
            (λ none_left.
              Triple-pure tt λ w h. inr (InTx-Any w0 _ w h.0, sym rows ∙ zero_of_eqb n none_left))
            (λ some_left.
              Triple-weaken _ (pay_out_lem env w0 event sid ids now)
                (λ w h. record {
                  began = h.0.began;
                  live = λ alive.
                      let u = h.0.live alive in
                      ((u.1, u.2, u.3, u.4, λ z. not_eqb_zero n some_left (rows ∙ z)), u.5);
                  outside = h.0.outside;
                })
                (λ _ w h. inl h) (λ w h. h))

  count-none : (l : List Payment) → count (is_open_target []) l ≡ 0
  count-none [] = refl
  count-none (p ∷ l) = count-none l

  attach_lem :
      (ids : List String) (sid : String) (now : ℕ)
      → target_payment_ids event ≡ ids
      → Triple
          (InTx w0 (λ d. Recorded w0 event sid d × (now ≡ w0.now)))
          (attach env event ids sid now)
          (λ _. Ended)
          (InTx w0 Any)
  unfolding attach
  attach_lem [] sid now e =
      Triple-pure tt λ w h. inr (InTx-Any w0 _ w h, rw e (count-none w0.db.payments))
  attach_lem (id ∷ ids) sid now e =
      Triple-bind _ _
        (Triple-wrapping _ _ (
          Triple-tx_exec_alive env w0 _ (Updated sid) _
            λ d h. attach_settlement_lem sid (id ∷ ids) now d e h.1 h.0))
        λ n. after_update sid (id ∷ ids) now n

  recorded :
      (sid : String) (now : ℕ) (d : Db)
      → d ≡ w0.db
      → now ≡ w0.now
      → Recorded w0 event sid
          (record d { settlements = d.settlements ++ settlement_of event sid now ∷ [] })
  recorded sid now d e n = rw (e, n) (refl, refl, refl, (refl, refl, refl, refl, refl), refl)

  -- The statements up to the return.
  pub settle_payments_lem :
      Triple (InTx w0 (λ d. d ≡ w0.db)) (settle_payments env event) (λ _. Ended) (InTx w0 Any)
  unfolding settle_payments insert_settlement
  settle_payments_lem = Triple-bind _ _ (Triple-now env w0 _) λ now.
      Triple-bind _ _ (Triple-generate env w0 _ "set_") λ sid.
        Triple-bind _ _
          (Triple-wrapping _ _ (
            Triple-tx_exec env w0 _ (λ _ d. Recorded w0 event sid d × (now ≡ w0.now)) _
              λ d h.
                Leads-constrained _ (settlement_constraints (settlement_of event sid now) d) tt _
                  (λ _. (recorded sid now d h.0 h.1, h.1))))
          λ _. attach_lem (target_payment_ids event) sid now refl

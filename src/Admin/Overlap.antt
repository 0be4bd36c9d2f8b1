-- ===== src/Admin/Overlap.antt =====
-- Two refunds of one payment at the same time. `IssueRefund` of
-- services/admin_api/service/admin_service.go reads the payment without a lock, and its update does
-- not ask for the status again; PostgreSQL's transactions are READ COMMITTED here.
use pay_fast_processor.Prelude.{
  ℕ, String, some, subst, [], ◌∷◌, ◌++◌, ◌≡◌, refl, find, sym, ap, ◌∙◌, append_assoc, Bool-cases,
  Option-cases, inl, inr, ◌+◌,
}
use pay_fast_processor.Prelude.Int.{ℤ, eqb_ℤ}
use pay_fast_processor.Store.Schema.{Payment, PaymentStatus, LedgerEntry, is_processed, processed}
use pay_fast_processor.Store.Sql.{ok}
use pay_fast_processor.Runtime.World.{Env, World, idle, open_at}
use pay_fast_processor.Runtime.Act.{
  Act, gets, replacing, rolling_back, begin, tx_query, ◌>>=◌, ◌>>◌,
}
use pay_fast_processor.Runtime.Triple.{Triple, Triple-if, Triple-raise, Triple-weaken, Post-ok}
use pay_fast_processor.Runtime.Transaction.{InTx, Any, InTx-Any, Committed, Unchanged}
use pay_fast_processor.Runtime.Transaction.Rollback.{
  Triple-rolling_back, rollback-InTx, rollback-idle,
}
use pay_fast_processor.Admin.Refunds.{
  is_payment_of, select_payment, refund_of, check_refund, refund, issue_refund,
}
use pay_fast_processor.Admin.Refunding.{Done, issue_refund-Refunded}
use pay_fast_processor.Admin.Refunding.Written.{Written}
use pay_fast_processor.Admin.Refunding.Writing.{write_refund-Written}

module _ (env : Env) (merchant_id payment_id : String) (amount : ℤ) where
  -- `IssueRefund`, where something else happens between its query and its first write.
  unfoldable pub issue_with : (World → World) → Act Unit
  issue_with other = do
    begin env
    rolling_back (do
      now ← gets (λ w. w.now)
      found ← replacing "payment not found" (tx_query env (select_payment payment_id merchant_id))
      (λ w. (ok tt, other w))
      check_refund env merchant_id payment_id amount found now)

  alone : issue_with (λ w. w) ≡ issue_refund env merchant_id payment_id amount
  unfolding issue_with issue_refund refund ◌>>=◌
  alone = refl

  -- The second request, on a connection of its own. The first has written nothing, so that what the
  -- second commits is what the first then sees, and what its rollback would go back to.
  abbrev pub second_request : World → World
  second_request w =
      let u = (issue_refund env merchant_id payment_id amount (record w { tx = idle })).1 in
      record u { tx = open_at u.db }

  module _ (u : World) where
    check_refund-Written :
        (status : PaymentStatus) (original : ℤ)
        → Triple
            (InTx u (λ d. d ≡ u.db))
            (check_refund env merchant_id payment_id amount (status, original) u.now)
            (λ _. Committed u (Written merchant_id payment_id amount u))
            (InTx u Any)
    unfolding check_refund
    check_refund-Written status original =
        Triple-if (is_processed status) _ _
          (λ _.
            Triple-if (eqb_ℤ amount original) _ _
              (λ _. write_refund-Written env merchant_id payment_id amount u u.now refl)
              (λ _. Triple-raise _ (InTx-Any u _)))
          (λ _. Triple-raise _ (InTx-Any u _))

    first_lem :
        (now : ℕ) (status : PaymentStatus) (original : ℤ)
        → now ≡ u.now
        → Triple
            (λ v. v ≡ record u { tx = open_at u.db })
            (rolling_back (check_refund env merchant_id payment_id amount (status, original) now))
            (λ _. Committed u (Written merchant_id payment_id amount u))
            (Unchanged u)
    first_lem now status original same =
        subst
          (λ n.
            Triple (λ v. v ≡ record u { tx = open_at u.db })
              (rolling_back (check_refund env merchant_id payment_id amount (status, original) n))
              (λ _. Committed u (Written merchant_id payment_id amount u)) (Unchanged u))
          (sym same)
          (Triple-weaken _ (Triple-rolling_back _ (check_refund-Written status original))
            (λ v e. rw e (record {
              began = refl;
              live = λ _. refl;
              outside = (refl, refl, refl, refl, refl, refl);
            }))
            (λ _ u' (v, h, e). rw (e ∙ rollback-idle v h.tx) h)
            λ u' (v, h, e). rw e (rollback-InTx u v Any h))

  -- The payment is refunded twice: two refunds of it are recorded, each of its whole amount, and
  -- both are booked.
  pub record RefundedTwice (w0 w : World) : Type 0 where
    pub payment : Payment
    pub found : find (is_payment_of payment_id merchant_id) w0.db.payments ≡ some payment
    pub was_processed : payment.status ≡ processed
    pub full : amount ≡ payment.amount
    pub one : String
    pub two : String
    pub refunds :
        w.db.refunds
        ≡ w0.db.refunds
          ++ refund_of two payment_id merchant_id amount w0.now
            ∷ refund_of one payment_id merchant_id amount w0.now
            ∷ []
    pub debits : LedgerEntry × LedgerEntry
    pub credits : LedgerEntry × LedgerEntry
    pub entries :
        w.db.ledger_entries
        ≡ w0.db.ledger_entries ++ debits.0 ∷ credits.0 ∷ debits.1 ∷ credits.1 ∷ []
    pub amounts : (credits.0.amount ≡ amount) × (credits.1.amount ≡ amount)

  -- The world in which the second request runs.
  abbrev pub meanwhile : World → World
  meanwhile w0 = record w0 { tx = idle; tick = w0.tick + 1 + 1 }

  twice :
      (w0 u w : World)
      → Done env merchant_id payment_id amount (meanwhile w0) u
      → Committed u (Written merchant_id payment_id amount u) w
      → RefundedTwice w0 w
  twice w0 u w second first =
      let s = second.holds in
      let f = first.holds in
      record {
        payment = s.payment;
        found = s.found;
        was_processed = s.was_processed;
        full = s.full;
        one = f.refund_id;
        two = s.refund_id;
        refunds =
            f.recorded.0
            ∙ ap (λ n. u.db.refunds ++ refund_of f.refund_id payment_id merchant_id amount n ∷ [])
                second.outside.3
            ∙ ap (λ l. l ++ refund_of f.refund_id payment_id merchant_id amount w0.now ∷ [])
                s.recorded.0
            ∙ append_assoc w0.db.refunds _ _;
        debits = (s.debited, f.debited);
        credits = (s.credited, f.credited);
        entries =
            f.entries
            ∙ ap (λ l. l ++ f.debited ∷ f.credited ∷ []) s.entries
            ∙ append_assoc w0.db.ledger_entries _ _;
        amounts = (s.credited_amount, f.credited_amount);
      }

  module _ (w0 : World)
      (second : (issue_refund env merchant_id payment_id amount (meanwhile w0)).0 ≡ ok tt) where
    -- The second request has ended.
    abbrev between : World
    between = (issue_refund env merchant_id payment_id amount (meanwhile w0)).1

    done : Done env merchant_id payment_id amount (meanwhile w0) between
    done = issue_refund-Refunded env merchant_id payment_id amount (meanwhile w0) refl second

    after_both :
        (status : PaymentStatus) (original : ℤ)
        → let first =
            rolling_back
              (check_refund env merchant_id payment_id amount (status, original) w0.now)
              (record between { tx = open_at between.db }) in
          first.0 ≡ ok tt → RefundedTwice w0 first.1
    after_both status original fine = twice w0 between _ done (
        Post-ok (λ _. Committed between (Written merchant_id payment_id amount between))
          (Unchanged between) _ _
          ((first_lem between w0.now status original (sym done.outside.3)).run _ refl) fine)

    -- If a second request for the refund of the same payment runs between the query and the first
    -- write of the first request, and both succeed, then the payment is refunded twice. Without the
    -- second request the first is `IssueRefund` as it is.
    pub overlapping_refunds :
        (issue_with second_request w0).0 ≡ ok tt
        → (issue_with (λ w. w) ≡ issue_refund env merchant_id payment_id amount)
          × RefundedTwice w0 (issue_with second_request w0).1
    unfolding issue_with ◌>>=◌ begin tx_query replacing select_payment rolling_back
    overlapping_refunds first = (
      alone,
      elim (Bool-cases (env.fails w0.tick)) [
        | inl broken ↦ cc (rw broken at first)
        | inr begins ↦ elim (Bool-cases (env.fails (w0.tick + 1))) [
          | inl broken ↦ cc (rw (begins, broken) at first)
          | inr reads ↦
              elim (Option-cases (find (is_payment_of payment_id merchant_id) w0.db.payments)) [
                | inl none ↦ cc (rw (begins, reads, none) at first)
                | inr (p, found) ↦
                    rw (begins, reads, found)
                      (after_both p.status p.amount (rw (begins, reads, found) at first))
              ]
        ]
      ],
    )

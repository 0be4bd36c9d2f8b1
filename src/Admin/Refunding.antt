-- ===== src/Admin/Refunding.antt =====
-- What `AdminService.IssueRefund` does on every branch.
pub mod Written
pub mod Writing
use pay_fast_processor.Prelude.{
  ℕ, String, true, Option, none, some, List, [], ◌∷◌, ◌≡◌, ◌≢◌, refl, find, update, ap, sym, ◌∙◌,
  inl, inr, Bool-cases, ◌==◌,
}
use pay_fast_processor.Prelude.Int.{ℤ, eqb_ℤ}
use pay_fast_processor.Store.Schema.{Payment, PaymentStatus, refunded, is_processed}
use pay_fast_processor.Store.Sql.{ok, err}
use pay_fast_processor.Runtime.Json.{Error}
use pay_fast_processor.Runtime.World.{Env, World, idle}
use pay_fast_processor.Runtime.Triple.{
  Triple, Triple-bind, Triple-replacing, Triple-if, Triple-raise, Triple-weaken, Triple-because,
  Post-ok, Post-err, Post-both,
}
use pay_fast_processor.Runtime.Transaction.{
  InTx, Any, InTx-Any, Committed, Unchanged, Triple-begin, Triple-now,
}
use pay_fast_processor.Runtime.Transaction.Rollback.{
  Triple-rolling_back, rollback-InTx, rollback-idle,
}
use pay_fast_processor.Runtime.Alive.{Triple-tx_query_alive}
use pay_fast_processor.Books.Balance.{IsBalanced, IsPair-IsBalanced}
use pay_fast_processor.Admin.Refunds.{
  is_payment_of, has_id, refund_payment, check_refund, refund, issue_refund,
}
use pay_fast_processor.Admin.Refunding.Written.{
  processed_of_test, equal_of_test, Refunded, IsChecked, IsFound, found_lem,
}
use pay_fast_processor.Admin.Refunding.Writing.{write_refund_lem}

module _ (env : Env) (merchant_id payment_id : String) (amount : ℤ) (w0 : World) where
  abbrev pub Done : World → Type 0
  Done = Committed w0 (Refunded merchant_id payment_id amount w0)

  -- What a successful query of the payment shows.
  abbrev IsRead : ℕ → PaymentStatus × ℤ → Type 0
  IsRead now (status, original) =
      (now ≡ w0.now)
      × (p : Payment) × (find (is_payment_of payment_id merchant_id) w0.db.payments ≡ some p)
      × (p.status ≡ status)
      × (p.amount ≡ original)

  checked_lem :
      (status : PaymentStatus) (original : ℤ) (now : ℕ)
      → IsRead now (status, original)
      → is_processed status ≡ true
      → eqb_ℤ amount original ≡ true
      → IsChecked merchant_id payment_id amount w0
  checked_lem status original now (_, p, found, same, full) is_done in_full = (
    p,
    found,
    same ∙ processed_of_test status is_done,
    equal_of_test amount original in_full ∙ sym full,
  )

  check_refund_lem :
      (status : PaymentStatus) (original : ℤ) (now : ℕ)
      → IsRead now (status, original)
      → Triple
          (InTx w0 (λ d. d ≡ w0.db))
          (check_refund env merchant_id payment_id amount (status, original) now)
          (λ _. Done)
          (InTx w0 Any)
  unfolding check_refund
  check_refund_lem status original now read =
      Triple-if (is_processed status) _ _
        (λ is_done.
          Triple-if (eqb_ℤ amount original) _ _
            (λ in_full.
              write_refund_lem env merchant_id payment_id amount w0
                (checked_lem status original now read is_done in_full) now read.0)
            (λ _. Triple-raise _ (InTx-Any w0 _)))
        (λ _. Triple-raise _ (InTx-Any w0 _))

  refund_lem :
      Triple
        (InTx w0 (λ d. d ≡ w0.db))
        (refund env merchant_id payment_id amount)
        (λ _. Done)
        (InTx w0 Any)
  unfolding refund
  refund_lem = Triple-bind _ _ (Triple-now env w0 _) λ now.
      Triple-bind _ _
        (Triple-replacing _ _ (
          Triple-tx_query_alive env w0 _ (IsFound merchant_id payment_id amount w0 now) _
            (found_lem merchant_id payment_id amount w0 now)))
        λ (status, original).
          Triple-because (λ w h. let r = h.1 in (r.1, r.2, r.3, r.4, r.5))
            λ read.
              Triple-weaken _ (check_refund_lem status original now read)
                (λ w h. record {
                  began = h.0.began;
                  live = λ alive. (h.0.live alive).0;
                  outside = h.0.outside;
                })
                (λ _ w h. h) (λ w h. h)

  module _ (at_rest : w0.tx ≡ idle) where
    issue_refund_lem :
        Triple
          (λ w. w ≡ w0)
          (issue_refund env merchant_id payment_id amount)
          (λ _. Done)
          (Unchanged w0)
    unfolding issue_refund
    issue_refund_lem = Triple-bind _ _ (Triple-begin env w0 at_rest) λ _.
        Triple-weaken _ (Triple-rolling_back _ refund_lem) (λ w h. h)
          (λ _ u (v, h, e). rw (e ∙ rollback-idle v h.tx) h)
          λ u (v, h, e). rw e (rollback-InTx w0 v Any h)

    abbrev after : World
    after = (issue_refund env merchant_id payment_id amount w0).1

    -- A refund that succeeds was of a payment of this merchant that was processed, and of its whole
    -- amount, which is positive. It is recorded, the payment is marked, one debit of the merchant's
    -- payable account and one credit of the system account are booked, and nothing else changes.
    pub issue_refund-Refunded :
        (issue_refund env merchant_id payment_id amount w0).0 ≡ ok tt → Done after
    issue_refund-Refunded fine =
        Post-ok (λ _. Done) (Unchanged w0) _ after (issue_refund_lem.run w0 refl) fine

    -- A refund that returns an error has changed nothing.
    pub issue_refund-Unchanged :
        {e : Error}
        → (issue_refund env merchant_id payment_id amount w0).0 ≡ err e
        → Unchanged w0 after
    issue_refund-Unchanged broken =
        Post-err (λ _. Done) (Unchanged w0) _ after (issue_refund_lem.run w0 refl) broken

    -- Whatever is asked and wherever a call fails, balanced books stay balanced.
    pub issue_refund-IsBalanced :
        IsBalanced w0.db.ledger_entries → IsBalanced after.db.ledger_entries
    issue_refund-IsBalanced h =
        Post-both (λ _. Done) (Unchanged w0) _ after (issue_refund_lem.run w0 refl)
          (λ _ d. rw d.holds.entries (IsPair-IsBalanced _ _ _ d.holds.pair h))
          (λ same. rw same.db h)

    pub issue_refund-idle : after.tx ≡ idle
    issue_refund-idle =
        Post-both (λ _. Done) (Unchanged w0) _ after (issue_refund_lem.run w0 refl) (λ _ d. d.tx)
          (λ same. same.tx)

abbrev status_of : Option Payment → PaymentStatus
status_of none = refunded
status_of (some p) = p.status

refunded_in_update :
    (id m : String) (l : List Payment) (p : Payment)
    → find (is_payment_of id m) (update (has_id id) refund_payment l) ≡ some p
    → p.status ≡ refunded
refunded_in_update id m [] p e = cc e
refunded_in_update id m (q ∷ l) p e = elim (Bool-cases (q.id == id)) [
  | inl same ↦ elim (Bool-cases (q.merchant_id == m)) [
    | inl hit ↦ sym (ap status_of (rw (same, same, hit) at e))
    | inr other ↦ refunded_in_update id m l p (rw (same, same, other) at e)
  ]
  | inr other ↦ refunded_in_update id m l p (rw (other, other) at e)
]

module _ (env env2 : Env) (merchant_id payment_id : String) (amount again : ℤ) (w0 : World)
    (at_rest : w0.tx ≡ idle) where
  -- A request that starts when a refund of the same payment has succeeded and ended is refused,
  -- whatever its amount and whatever else has changed, as long as the payments are as that refund
  -- left them. It is a statement on requests one after the other.
  pub later_refund_refused :
      let first = issue_refund env merchant_id payment_id amount w0 in
      first.0 ≡ ok tt
      → (w : World) → w.tx ≡ idle
      → w.db.payments ≡ first.1.db.payments
      → (issue_refund env2 merchant_id payment_id again w).0 ≢ ok tt
  later_refund_refused fine w closed same fine2 =
      let d = issue_refund-Refunded env merchant_id payment_id amount w0 at_rest fine in
      let d2 = issue_refund-Refunded env2 merchant_id payment_id again w closed fine2 in
      let s =
        refunded_in_update payment_id merchant_id w0.db.payments d2.holds.payment
          (rw d.holds.recorded.1 at (rw same at d2.holds.found)) in
      cc (s, d2.holds.was_processed)

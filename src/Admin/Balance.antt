-- ===== src/Admin/Balance.antt =====
-- A change of the payout schedule keeps the books balanced, whatever accounts there are.
use pay_fast_processor.Prelude.{
  ℕ, String, Bool, true, false, [], ◌∷◌, ◌++◌, ◌≡◌, refl, concat, eqb, ◌==◌, ◌⊎◌, inl, inr,
  append_assoc, Option-cases,
}
use pay_fast_processor.Prelude.Int.{ℤ}
use pay_fast_processor.Store.Schema.{Db}
use pay_fast_processor.Store.Sql.{Result, ok, err}
use pay_fast_processor.Runtime.Json.{Error}
use pay_fast_processor.Runtime.World.{Env, World, idle}
use pay_fast_processor.Runtime.Act.{rollback}
use pay_fast_processor.Runtime.Triple.{
  Triple, Triple-bind, Triple-wrapping, Triple-pure, Triple-if, Triple-weaken, Post-both,
}
use pay_fast_processor.Runtime.Transaction.{
  InTx, Any, InTx-Any, Committed, Unchanged, Triple-begin, Triple-tx_exec, Triple-nano_text,
  Triple-now, Triple-attempt, Triple-commit,
}
use pay_fast_processor.Runtime.Transaction.Rollback.{
  Triple-rolling_back, rollback-InTx, rollback-idle,
}
use pay_fast_processor.Runtime.Rest.{
  AtRest, Moves, AtRest-Stable, Keeping, Keeping-bind, Keeping-attempt,
}
use pay_fast_processor.Runtime.Rest.Calls.{Keeping-pool_exec}
use pay_fast_processor.Books.Balance.{Balanced, IsBalanced, IsPair-IsBalanced}
use pay_fast_processor.Books.Inserts.{Leads-constrained, Leads-insert_ledger_entry}
use pay_fast_processor.Settlement.{settlement_constraints, insert_settlement}
use pay_fast_processor.Admin.Settings.{
  schedule_of, set_schedule, pending_settlement, attach_pending, pending_debit, pending_credit,
  settle_total, settle_found, settle_instantly, settle_pending_payments, update_merchant_settings,
}

module _ (env : Env) (merchant_id : String) (w0 : World) (balanced : Balanced w0.db) where
  abbrev SameBooks : Db → Type 0
  SameBooks d = d.ledger_entries ≡ w0.db.ledger_entries

  abbrev Debited : String → String → ℤ → ℕ → Db → Type 0
  Debited nano group total now d =
      d.ledger_entries ≡ w0.db.ledger_entries ++ pending_debit nano merchant_id group total now ∷ []

  -- The settlement was booked, or nothing was committed.
  abbrev Ended : World → Type 0
  Ended w = Committed w0 Balanced w ⊎ InTx w0 Any w

  credited_lem :
      (debit_nano credit_nano group : String) (total : ℤ) (now : ℕ) (d : Db)
      → Debited debit_nano group total now d
      → IsBalanced (d.ledger_entries ++ pending_credit credit_nano merchant_id group total now ∷ [])
  credited_lem debit_nano credit_nano group total now d h =
      rw (h, append_assoc)
        (IsPair-IsBalanced w0.db.ledger_entries
          (pending_debit debit_nano merchant_id group total now)
          (pending_credit credit_nano merchant_id group total now)
          (record { debits = refl; credits = refl; group = refl; amount = refl; currency = refl })
          balanced)

  settle_total_lem :
      (total : ℤ) (now : ℕ)
      → Triple
          (InTx w0 SameBooks)
          (settle_total env merchant_id total now)
          (λ _. Ended)
          (InTx w0 Any)
  unfolding settle_total insert_settlement attach_pending
  settle_total_lem total now = Triple-bind _ _ (Triple-nano_text env w0 _) λ nano.
      let s = pending_settlement (concat "set_" nano) merchant_id total now in
      Triple-bind _ _
        (Triple-wrapping _ _ (
          Triple-tx_exec env w0 _ (λ _. SameBooks) _
            λ d h. Leads-constrained _ (settlement_constraints s d) tt _ (λ _. h)))
        λ _.
          Triple-bind _ _
            (Triple-wrapping _ _ (Triple-tx_exec env w0 _ (λ _. SameBooks) _ λ d h. h))
            λ _. Triple-bind _ _ (Triple-nano_text env w0 _) λ group_nano.
              Triple-bind _ _ (Triple-nano_text env w0 _) λ debit_nano.
                Triple-bind _ _
                  (Triple-wrapping _ _ (
                    Triple-tx_exec env w0 _
                      (λ _. Debited debit_nano (concat "txg_" group_nano) total now) _
                      λ d h. Leads-insert_ledger_entry _ _ d (λ _. rw h refl)))
                  λ _. Triple-bind _ _ (Triple-nano_text env w0 _) λ credit_nano.
                    Triple-bind _ _
                      (Triple-wrapping _ _ (
                        Triple-tx_exec env w0 _ (λ _. Balanced) _
                          λ d h. Leads-insert_ledger_entry _ _ d (λ _.
                            credited_lem debit_nano credit_nano (concat "txg_" group_nano) total now
                              d h)))
                      λ _.
                        Triple-weaken _ (Triple-commit env w0 _) (λ w h. h) (λ _ w h. inl h)
                          (λ w h. h)

  settle_found_lem :
      (now : ℕ) (found : Result Error (ℤ × ℕ))
      → Triple
          (InTx w0 SameBooks)
          (settle_found env merchant_id now found)
          (λ _. Ended)
          (InTx w0 Any)
  settle_found_lem now (err e) = Triple-pure tt (λ w h. inr (InTx-Any w0 SameBooks w h))
  settle_found_lem now (ok (total, n)) =
      Triple-if (eqb n 0) _ _ (λ _. Triple-pure tt (λ w h. inr (InTx-Any w0 SameBooks w h)))
        (λ _. settle_total_lem total now)

  unchanged_lem : (w : World) → Unchanged w0 w → AtRest Balanced w
  unchanged_lem w same = record { holds = rw same.db balanced; closed = same.tx }

  ended_lem : (v : World) → Ended v → AtRest Balanced (rollback v)
  ended_lem v (inl done_) =
      rw (rollback-idle v done_.tx) (record { holds = done_.holds; closed = done_.tx })
  ended_lem v (inr open_) = unchanged_lem (rollback v) (rollback-InTx w0 v Any open_)

  settle_pending_payments_lem :
      w0.tx ≡ idle
      → Triple
          (λ w. w ≡ w0)
          (settle_pending_payments env merchant_id)
          (λ _. AtRest Balanced)
          (AtRest Balanced)
  unfolding settle_pending_payments
  settle_pending_payments_lem at_rest =
      Triple-weaken _
        (Triple-bind _ _ (Triple-begin env w0 at_rest) λ _.
          Triple-weaken _
            (Triple-rolling_back _ (
              Triple-bind _ _ (Triple-now env w0 _) λ now.
                Triple-bind _ _ (Triple-attempt env w0 _ (λ _. SameBooks) _ λ d h. rw h.0 refl)
                  λ found. settle_found_lem now found))
            (λ w h. h) (λ _ u (v, h, e). rw e (ended_lem v h))
            λ u (v, h, e). rw e (rollback-InTx w0 v Any h))
        (λ w h. h) (λ _ w h. h) unchanged_lem

module _ (env : Env) (merchant_id schedule : String) where
  set_schedule_lem : (now : ℕ) → Moves Balanced Balanced (set_schedule merchant_id schedule now)
  unfolding set_schedule
  set_schedule_lem now d h = elim (Option-cases (schedule_of schedule)) [
    | inl unknown ↦ rw unknown tt
    | inr (s, known) ↦ rw known h
  ]

  settle_pending_payments-AtRest :
      Keeping (AtRest Balanced) (settle_pending_payments env merchant_id)
  settle_pending_payments-AtRest w h =
      Post-both (λ _. AtRest Balanced) (AtRest Balanced) _ _
        ((settle_pending_payments_lem env merchant_id w h.holds h.closed).run w refl) (λ _ a. a)
        (λ a. a)

  settle_instantly-AtRest :
      (instantly : Bool) → Keeping (AtRest Balanced) (settle_instantly env merchant_id instantly)
  settle_instantly-AtRest true =
      Keeping-bind _ _ _ (Keeping-attempt _ _ settle_pending_payments-AtRest) (λ _ w h. h)
  settle_instantly-AtRest false = λ w h. h

  pub update_merchant_settings-AtRest :
      Keeping (AtRest Balanced) (update_merchant_settings env merchant_id schedule)
  unfolding update_merchant_settings
  update_merchant_settings-AtRest =
      Keeping-bind _ _ _ (λ w h. h)
        λ now.
          Keeping-bind _ _ _
            (Keeping-pool_exec env Balanced _ (AtRest-Stable Balanced) _ (set_schedule_lem now))
            λ _. settle_instantly-AtRest (schedule == "instant")

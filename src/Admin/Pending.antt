-- ===== src/Admin/Pending.antt =====
-- The settlement that a change to "instant" starts never commits.
use pay_fast_processor.Prelude.{
  ℕ, String, Bool, true, false, some, ◌≡◌, refl, concat, eqb, ◌==◌, ◌⊎◌, inl, inr, Bool-cases,
  Option-cases, ◌∙◌, ◌≢◌, ap,
}
use pay_fast_processor.Prelude.Int.{ℤ}
use pay_fast_processor.Store.Schema.{Db, PayoutSchedule}
use pay_fast_processor.Store.Sql.{Result, ok, err}
use pay_fast_processor.Runtime.Json.{Error}
use pay_fast_processor.Runtime.World.{Env, World, idle}
use pay_fast_processor.Runtime.Act.{◌>>=◌, gets, attempt, pool_exec}
use pay_fast_processor.Runtime.Triple.{
  Triple, Triple-bind, Triple-wrapping, Triple-pure, Triple-if, Triple-weaken, Triple-because,
  Triple-given, Post, Post-both,
}
use pay_fast_processor.Runtime.Transaction.{
  InTx, Any, InTx-Any, Leads, Unchanged, Triple-begin, Triple-tx_exec, Triple-nano_text, Triple-now,
  Triple-attempt,
}
use pay_fast_processor.Runtime.Transaction.Rollback.{Triple-rolling_back, rollback-InTx}
use pay_fast_processor.Runtime.Alive.{Triple-tx_exec_alive}
use pay_fast_processor.Books.{has_account, entry_constraints, insert_ledger_entry}
use pay_fast_processor.Books.Inserts.{Leads-constrained}
use pay_fast_processor.Settlement.{settlement_constraints, insert_settlement}
use pay_fast_processor.Admin.Settings.{
  schedule_of, rescheduled, set_schedule, pending_settlement, attach_pending, pending_debit,
  settle_total, settle_found, settle_instantly, settle_pending_payments, update_merchant_settings,
}

module _ (env : Env) (merchant_id : String) (w0 : World) where
  -- No account has the id that is debited.
  abbrev HasNone : Db → Type 0
  HasNone d = has_account (concat "acc_merchant_payable_" merchant_id) d ≡ false

  refused :
      (nano group : String) (total : ℤ) (now : ℕ) (d : Db)
      → HasNone d
      → Leads (λ _ _. ⊥) (insert_ledger_entry (pending_debit nano merchant_id group total now) d)
  unfolding insert_ledger_entry
  refused nano group total now d none_there =
      let e = pending_debit nano merchant_id group total now in
      Leads-constrained (λ _ _. ⊥) (entry_constraints e d) tt _ λ m. cc (m.1.1.0, none_there)

  settle_total_lem :
      (total : ℤ) (now : ℕ)
      → Triple
          (InTx w0 HasNone)
          (settle_total env merchant_id total now)
          (λ _. InTx w0 Any)
          (InTx w0 Any)
  unfolding settle_total insert_settlement attach_pending
  settle_total_lem total now = Triple-bind _ _ (Triple-nano_text env w0 _) λ nano.
      let s = pending_settlement (concat "set_" nano) merchant_id total now in
      Triple-bind _ _
        (Triple-wrapping _ _ (
          Triple-tx_exec env w0 _ (λ _. HasNone) _
            λ d h. Leads-constrained _ (settlement_constraints s d) tt _ (λ _. h)))
        λ _.
          Triple-bind _ _ (Triple-wrapping _ _ (Triple-tx_exec env w0 _ (λ _. HasNone) _ λ d h. h))
            λ _. Triple-bind _ _ (Triple-nano_text env w0 _) λ group_nano.
              Triple-bind _ _ (Triple-nano_text env w0 _) λ debit_nano.
                Triple-bind _ _
                  (Triple-wrapping _ _ (
                    Triple-tx_exec_alive env w0 _ (λ _ _. ⊥) _
                      λ d h. refused debit_nano (concat "txg_" group_nano) total now d h))
                  λ _. Triple-because (λ w h. h.1) (λ none. absurd none)

  settle_found_lem :
      (now : ℕ) (found : Result Error (ℤ × ℕ))
      → Triple
          (InTx w0 HasNone)
          (settle_found env merchant_id now found)
          (λ _. InTx w0 Any)
          (InTx w0 Any)
  settle_found_lem now (err e) = Triple-pure tt (InTx-Any w0 HasNone)
  settle_found_lem now (ok (total, n)) =
      Triple-if (eqb n 0) _ _ (λ _. Triple-pure tt (InTx-Any w0 HasNone))
        (λ _. settle_total_lem total now)

  settle_pending_payments_lem :
      w0.tx ≡ idle
      → HasNone w0.db
      → Triple
          (λ w. w ≡ w0)
          (settle_pending_payments env merchant_id)
          (λ _. Unchanged w0)
          (Unchanged w0)
  unfolding settle_pending_payments
  settle_pending_payments_lem at_rest none_there =
      Triple-bind _ _ (Triple-begin env w0 at_rest) λ _.
        Triple-weaken _
          (Triple-rolling_back _ (
            Triple-bind _ _ (Triple-now env w0 _) λ now.
              Triple-bind _ _ (Triple-attempt env w0 _ (λ _. HasNone) _ λ d h. rw h.0 none_there)
                λ found. settle_found_lem now found))
          (λ w h. h) (λ _ u (v, h, e). rw e (rollback-InTx w0 v Any h))
          λ u (v, h, e). rw e (rollback-InTx w0 v Any h)

module _ (env : Env) (merchant_id schedule : String) (w0 : World) (at_rest : w0.tx ≡ idle)
    (none_there : has_account (concat "acc_merchant_payable_" merchant_id) w0.db ≡ false) where
  -- Only the schedule has changed, to the value that the text names.
  abbrev pub Rescheduled : World → Type 0
  Rescheduled w =
      (s : PayoutSchedule) × (schedule_of schedule ≡ some s)
      × (w.db ≡ rescheduled merchant_id s w0.now w0.db)
      × (w.tx ≡ idle)
      × (w.payment_events ≡ w0.payment_events)
      × (w.webhook_events ≡ w0.webhook_events)

  set_schedule_lem :
      Triple
        (λ w. w ≡ w0)
        (pool_exec env (set_schedule merchant_id schedule w0.now))
        (λ _ w. Rescheduled w × HasNone env merchant_id w0 w.db)
        (Unchanged w0)
  unfolding pool_exec set_schedule
  set_schedule_lem = record {
    run = λ w e. rw e (elim (Bool-cases (env.fails w0.tick)) [
      | inl broken ↦
          rw broken
            (record { db = refl; tx = at_rest; outside = (refl, refl, refl, refl, refl, refl) })
      | inr works ↦ rw works (elim (Option-cases (schedule_of schedule)) [
        | inl unknown ↦
            rw unknown
              (record { db = refl; tx = at_rest; outside = (refl, refl, refl, refl, refl, refl) })
        | inr (s, known) ↦ rw known ((s, refl, refl, at_rest, refl, refl), none_there)
      ])
    ]);
  }

  Unchanged-Rescheduled : (v w : World) → Rescheduled v → Unchanged v w → Rescheduled w
  Unchanged-Rescheduled v w h same =
      (h.0, h.1, same.db ∙ h.2, same.tx, same.outside.1 ∙ h.4, same.outside.2 ∙ h.5)

  settle_instantly_lem :
      (instantly : Bool)
      → Triple
          (λ w. Rescheduled w × HasNone env merchant_id w0 w.db)
          (settle_instantly env merchant_id instantly)
          (λ _. Rescheduled)
          (Unchanged w0)
  unfolding attempt ◌>>=◌
  settle_instantly_lem true = record {
    run = λ w (h, absent). Unchanged-Rescheduled w (settle_pending_payments env merchant_id w).1 h (
        Post-both (λ _. Unchanged w) (Unchanged w) _ _
          ((settle_pending_payments_lem env merchant_id w h.3 absent).run w refl) (λ _ same. same)
          (λ same. same));
  }
  settle_instantly_lem false = Triple-pure tt (λ w h. h.0)

  update_lem :
      Triple
        (λ w. w ≡ w0)
        (update_merchant_settings env merchant_id schedule)
        (λ _. Rescheduled)
        (Unchanged w0)
  unfolding update_merchant_settings
  update_lem = Triple-bind _ _ now_lem λ now. Triple-given λ same.
      rw same (Triple-bind _ _ set_schedule_lem λ _. settle_instantly_lem (schedule == "instant"))
    where
      now_lem :
          Triple (λ w. w ≡ w0) (gets (λ w. w.now)) (λ n w. (w ≡ w0) × (n ≡ w0.now)) (Unchanged w0)
      now_lem = record { run = λ w e. (e, ap (λ (v : World). v.now) e) }

  -- Where no account has the id "acc_merchant_payable_" and the merchant, a change of the payout
  -- schedule changes the schedule and nothing else, or it returns an error and changes nothing: also
  -- a change to "instant" settles no payment, and reports nothing of that.
  pub update_merchant_settings-Rescheduled :
      let (result, w) = update_merchant_settings env merchant_id schedule w0 in
      ((result ≡ ok tt) × Rescheduled w) ⊎ ((result ≢ ok tt) × Unchanged w0 w)
  update_merchant_settings-Rescheduled =
      let (result, w) = update_merchant_settings env merchant_id schedule w0 in
      outcome result w (update_lem.run w0 refl)
    where
      outcome :
          (result : Result Error Unit) (w : World)
          → Post (λ _. Rescheduled) (Unchanged w0) result w
          → ((result ≡ ok tt) × Rescheduled w) ⊎ ((result ≢ ok tt) × Unchanged w0 w)
      outcome (ok _) w h = inl (refl, h)
      outcome (err e) w h = inr (λ same. cc same, h)

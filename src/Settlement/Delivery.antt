-- ===== src/Settlement/Delivery.antt =====
-- What the settlement consumer does with a message of the topic "payment_events".
use pay_fast_processor.Prelude.{Option, ◌≡◌, ◌≢◌, refl, ◌∙◌, ◌⊎◌, inl, inr, eq_iff}
use pay_fast_processor.Store.Sql.{ok, err}
use pay_fast_processor.Runtime.Json.{Json, Error}
use pay_fast_processor.Runtime.World.{Env, World, idle}
use pay_fast_processor.Runtime.Act.{rolling_back, rollback}
use pay_fast_processor.Runtime.Triple.{
  Post-ok, Post-err, Post-both, Triple, Post, Triple-given, Triple-lift, Triple-bind,
  Triple-wrapping, Triple-pure, Triple-weaken, Triple-if,
}
use pay_fast_processor.Runtime.Transaction.{Unchanged, Unchanged-refl, Triple-begin, InTx, Any}
use pay_fast_processor.Runtime.Transaction.Rollback.{
  Triple-rolling_back, rollback-InTx, rollback-idle,
}
use pay_fast_processor.Books.Balance.{IsBalanced, IsPair-IsBalanced}
use pay_fast_processor.Settlement.{
  SettleEvent, decode_event, settle_payments, process_event, handle_settle_event,
}
use pay_fast_processor.Settlement.Payout.{IsSettled, Paid}
use pay_fast_processor.Settlement.Posting.{Ended, settle_payments_lem}

module _ (w0 : World) where
  -- What a delivery has done, by the status of the event.
  abbrev pub Outcome : SettleEvent → World → Type 0
  Outcome event w =
      ((event.status ≡ "initiated") × (Paid w0 event w ⊎ (Unchanged w0 w × IsSettled w0 event)))
      ⊎ ((event.status ≢ "initiated") × Unchanged w0 w)

  -- The message was well-formed, and this was done with its event.
  abbrev pub Delivered : Option Json → World → Type 0
  Delivered value w = (event : SettleEvent) × (decode_event value ≡ ok event) × Outcome event w

module _ (env : Env) (w0 : World) (at_rest : w0.tx ≡ idle) where
  after_rollback :
      (event : SettleEvent) (u : World)
      → (v : World) × Ended env w0 event v × (u ≡ rollback v)
      → Paid w0 event u ⊎ (Unchanged w0 u × IsSettled w0 event)
  after_rollback event u (v, inl p, e) = inl (rw (e ∙ rollback-idle v p.tx) p)
  after_rollback event u (v, inr (h, s), e) = inr (rw e (rollback-InTx w0 v Any h), s)

  settle_outcome :
      (event : SettleEvent)
      → Triple
          (InTx w0 (λ d. d ≡ w0.db))
          (rolling_back (settle_payments env event))
          (λ _ u. Paid w0 event u ⊎ (Unchanged w0 u × IsSettled w0 event))
          (Unchanged w0)
  settle_outcome event =
      Triple-weaken _ (Triple-rolling_back _ (settle_payments_lem env w0 event)) (λ w h. h)
        (λ _. after_rollback event) λ u (v, h, e). rw e (rollback-InTx w0 v Any h)

  process_event_lem :
      (event : SettleEvent)
      → Triple (λ w. w ≡ w0) (process_event env event) (λ _. Outcome w0 event) (Unchanged w0)
  unfolding process_event
  process_event_lem event =
      Triple-if _ _ _
        (λ initiated. Triple-bind _ _ (Triple-wrapping _ _ (Triple-begin env w0 at_rest)) λ _.
          Triple-weaken _ (settle_outcome event) (λ w h. h)
            (λ _ w b. inl ((eq_iff _ _).0 initiated, b)) (λ w h. h))
        λ other. Triple-pure tt λ w e. inr (
          λ same. cc (other, (eq_iff event.status "initiated").1 same),
          rw e (Unchanged-refl w0 at_rest),
        )

  handle_lem :
      (value : Option Json)
      → Triple
          (λ w. w ≡ w0)
          (handle_settle_event env value)
          (λ _. Delivered w0 value)
          (Unchanged w0)
  unfolding handle_settle_event
  handle_lem value =
      Triple-bind _ _
        (Triple-wrapping _ _
          (Triple-lift (decode_event value) (λ w e. rw e (Unchanged-refl w0 at_rest))))
        λ event. Triple-given λ decoded.
          Triple-weaken _ (process_event_lem event) (λ w h. h) (λ _ w o. (event, decoded, o))
            (λ w h. h)

module _ (env : Env) (w0 : World) (value : Option Json) (at_rest : w0.tx ≡ idle) where
  abbrev pub after : World
  after = (handle_settle_event env value w0).1

  pub outcome :
      Post (λ _. Delivered w0 value) (Unchanged w0) (handle_settle_event env value w0).0 after
  outcome = (handle_lem env w0 at_rest value).run w0 refl

  -- A delivery that returns an error has changed nothing: the database is the one before it, no
  -- transaction stays open, and nothing is published.
  pub handle_settle_event-Unchanged :
      {e : Error} → (handle_settle_event env value w0).0 ≡ err e → Unchanged w0 after
  handle_settle_event-Unchanged failed = Post-err _ _ _ after outcome failed

  -- A delivery that returns no error was of a well-formed event. If the event's status is
  -- "initiated" then either one of its payments had no settlement, and it is paid: a settlement of
  -- the event's amount is recorded, exactly the target payments without a settlement carry it and
  -- are processed, one debit of the merchant's payable account and one credit of its settlement
  -- account are added with the event's amount and currency, which is positive, and only
  -- "payment.settled" events are published, on the topic "payment_events". Or every target had a
  -- settlement, and nothing has changed. With any other status nothing has changed.
  pub handle_settle_event-Delivered :
      (handle_settle_event env value w0).0 ≡ ok tt → Delivered w0 value after
  handle_settle_event-Delivered fine = Post-ok _ _ _ after outcome fine

  IsBalanced-after :
      (event : SettleEvent)
      → Outcome w0 event after
      → IsBalanced w0.db.ledger_entries
      → IsBalanced after.db.ledger_entries
  IsBalanced-after event (inl (_, inl p)) h =
      rw p.settled.entries (IsPair-IsBalanced _ _ _ p.settled.pair h)
  IsBalanced-after event (inl (_, inr (same, _))) h = rw same.db h
  IsBalanced-after event (inr (_, same)) h = rw same.db h

  -- Whatever the message and wherever a call fails, balanced books stay balanced.
  pub handle_settle_event-IsBalanced :
      IsBalanced w0.db.ledger_entries → IsBalanced after.db.ledger_entries
  handle_settle_event-IsBalanced h =
      Post-both (λ _. Delivered w0 value) (Unchanged w0) _ after outcome
        (λ _ d. IsBalanced-after d.0 d.2 h) (λ same. rw same.db h)

  pub handle_settle_event-idle : after.tx ≡ idle
  handle_settle_event-idle =
      Post-both (λ _. Delivered w0 value) (Unchanged w0) _ after outcome (λ _ d. closed d.0 d.2)
        (λ same. same.tx)
    where
      closed : (event : SettleEvent) → Outcome w0 event after → after.tx ≡ idle
      closed event (inl (_, inl p)) = p.tx
      closed event (inl (_, inr (same, _))) = same.tx
      closed event (inr (_, same)) = same.tx

  webhook_events-after :
      (event : SettleEvent) → Outcome w0 event after → after.webhook_events ≡ w0.webhook_events
  webhook_events-after event (inl (_, inl p)) = p.webhook_events
  webhook_events-after event (inl (_, inr (same, _))) = same.outside.2
  webhook_events-after event (inr (_, same)) = same.outside.2

  -- No settlement reaches the topic "webhook_events", which the webhook service reads: whatever the
  -- message, that topic is as before.
  pub webhook_events-handle_settle_event : after.webhook_events ≡ w0.webhook_events
  webhook_events-handle_settle_event =
      Post-both (λ _. Delivered w0 value) (Unchanged w0) _ after outcome
        (λ _ d. webhook_events-after d.0 d.2) (λ same. same.outside.2)

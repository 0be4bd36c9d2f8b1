-- ===== src/Ledger/Delivery.antt =====
-- What the ledger service does with a message of the topic "payment_events".
use pay_fast_processor.Prelude.{
  Option, ◌≡◌, refl, ◌⊎◌, ◌≢◌, inl, inr, eq_iff, ◌∙◌, length, ◌+◌, length-append, arith, sym, ap,
}
use pay_fast_processor.Store.Sql.{ok, err}
use pay_fast_processor.Runtime.Json.{Json, Error}
use pay_fast_processor.Runtime.World.{Env, World, idle}
use pay_fast_processor.Runtime.Act.{rolling_back, rollback}
use pay_fast_processor.Runtime.Triple.{
  Triple, Post, ok-injective, Post-ok, Post-err, Post-both, Triple-given, Triple-lift, Triple-bind,
  Triple-wrapping, Triple-pure, Triple-weaken, Triple-if,
}
use pay_fast_processor.Runtime.Transaction.{Unchanged, Unchanged-refl, Triple-begin, InTx, Any}
use pay_fast_processor.Runtime.Transaction.Rollback.{
  Triple-rolling_back, rollback-InTx, rollback-idle,
}
use pay_fast_processor.Books.Balance.{IsBalanced, IsPair-IsBalanced}
use pay_fast_processor.Ledger.{
  PaymentEvent, decode_event, book, process_event, handle_payment_event,
}
use pay_fast_processor.Ledger.Booked.{Booked}
use pay_fast_processor.Ledger.Posting.{book_lem}

module _ (w0 : World) where
  -- What a delivery has done, by the status of the event.
  abbrev pub Outcome : PaymentEvent → World → Type 0
  Outcome event w =
      ((event.status ≡ "created") × Booked w0 event w)
      ⊎ ((event.status ≢ "created") × Unchanged w0 w)

  -- The message was well-formed, and this was done with its event.
  abbrev pub Delivered : Option Json → World → Type 0
  Delivered event_data w =
      (event : PaymentEvent) × (decode_event event_data ≡ ok event) × Outcome event w

module _ (env : Env) (w0 : World) (at_rest : w0.tx ≡ idle) where
  settled_by_rollback :
      (event : PaymentEvent) (u : World)
      → (v : World) × Booked w0 event v × (u ≡ rollback v)
      → Booked w0 event u
  settled_by_rollback event u (v, b, e) = rw (e ∙ rollback-idle v b.tx) b

  book_outcome :
      (event : PaymentEvent)
      → Triple
          (InTx w0 (λ d. d ≡ w0.db))
          (rolling_back (book env event))
          (λ _. Booked w0 event)
          (Unchanged w0)
  book_outcome event =
      Triple-weaken _ (Triple-rolling_back _ (book_lem env w0 event)) (λ w h. h)
        (λ _. settled_by_rollback event) λ u (v, h, e). rw e (rollback-InTx w0 v Any h)

  process_event_lem :
      (event : PaymentEvent)
      → Triple (λ w. w ≡ w0) (process_event env event) (λ _. Outcome w0 event) (Unchanged w0)
  unfolding process_event
  process_event_lem event =
      Triple-if _ _ _
        (λ created. Triple-bind _ _ (Triple-wrapping _ _ (Triple-begin env w0 at_rest)) λ _.
          Triple-weaken _ (book_outcome event) (λ w h. h) (λ _ w b. inl ((eq_iff _ _).0 created, b))
            (λ w h. h))
        λ other. Triple-pure tt λ w e. inr (
          λ same. cc (other, (eq_iff event.status "created").1 same),
          rw e (Unchanged-refl w0 at_rest),
        )

  handle_lem :
      (event_data : Option Json)
      → Triple
          (λ w. w ≡ w0)
          (handle_payment_event env event_data)
          (λ _. Delivered w0 event_data)
          (Unchanged w0)
  unfolding handle_payment_event
  handle_lem event_data =
      Triple-bind _ _
        (Triple-wrapping _ _
          (Triple-lift (decode_event event_data) (λ w e. rw e (Unchanged-refl w0 at_rest))))
        λ event. Triple-given λ decoded.
          Triple-weaken _ (process_event_lem event) (λ w h. h) (λ _ w o. (event, decoded, o))
            (λ w h. h)

module _ (env : Env) (w0 : World) (event_data : Option Json) (at_rest : w0.tx ≡ idle) where
  abbrev after : World
  after = (handle_payment_event env event_data w0).1

  outcome :
      Post
        (λ _. Delivered w0 event_data)
        (Unchanged w0)
        (handle_payment_event env event_data w0).0
        after
  outcome = (handle_lem env w0 at_rest event_data).run w0 refl

  -- A delivery that returns an error has changed nothing: the database is the one before it, no
  -- transaction stays open, and nothing is published.
  pub handle_payment_event-Unchanged :
      {e : Error} → (handle_payment_event env event_data w0).0 ≡ err e → Unchanged w0 after
  handle_payment_event-Unchanged failed = Post-err _ _ _ after outcome failed

  -- A delivery that returns no error was of a well-formed event. If the event's status is "created"
  -- it is booked: its payment exists and is initiated now, one debit of the system account and one
  -- credit of the payable account of the payment's merchant are added with the event's amount and
  -- currency, which is positive, and at most one webhook event is published. With any other status
  -- nothing has changed.
  pub handle_payment_event-Delivered :
      (handle_payment_event env event_data w0).0 ≡ ok tt → Delivered w0 event_data after
  handle_payment_event-Delivered fine = Post-ok _ _ _ after outcome fine

  -- Whatever the message and wherever a call fails, balanced books stay balanced.
  pub handle_payment_event-IsBalanced :
      IsBalanced w0.db.ledger_entries → IsBalanced after.db.ledger_entries
  handle_payment_event-IsBalanced h =
      Post-both (λ _. Delivered w0 event_data) (Unchanged w0) _ after outcome
        (λ _ d. balanced d.0 d.2) (λ same. rw same.db h)
    where
      balanced :
          (event : PaymentEvent) → Outcome w0 event after → IsBalanced after.db.ledger_entries
      balanced event (inl (_, b)) = rw b.posted.entries (IsPair-IsBalanced _ _ _ b.posted.pair h)
      balanced event (inr (_, same)) = rw same.db h

  pub handle_payment_event-idle : after.tx ≡ idle
  handle_payment_event-idle =
      Post-both (λ _. Delivered w0 event_data) (Unchanged w0) _ after outcome
        (λ _ d. closed d.0 d.2) (λ same. same.tx)
    where
      closed : (event : PaymentEvent) → Outcome w0 event after → after.tx ≡ idle
      closed event (inl (_, b)) = b.tx
      closed event (inr (_, same)) = same.tx

module _ (env : Env) (event_data : Option Json) (event : PaymentEvent)
    (decoded : decode_event event_data ≡ ok event) (created : event.status ≡ "created") where
  same_event : (e : PaymentEvent) → decode_event event_data ≡ ok e → e ≡ event
  same_event e d = ok-injective (sym d ∙ decoded)

  pub Booked-of_ok :
      (w0 : World)
      → w0.tx ≡ idle
      → (handle_payment_event env event_data w0).0 ≡ ok tt
      → Booked w0 event (handle_payment_event env event_data w0).1
  Booked-of_ok w0 at_rest fine =
      let (e, d, o) = handle_payment_event-Delivered env w0 event_data at_rest fine in
      done e (same_event e d) o
    where
      done :
          (e : PaymentEvent)
          → e ≡ event
          → Outcome w0 e (handle_payment_event env event_data w0).1
          → Booked w0 event (handle_payment_event env event_data w0).1
      done e same (inl (_, b)) = rw same at b
      done e same (inr (other, _)) =
          absurd (other (ap (λ (x : PaymentEvent). x.status) same ∙ created))

  two_more :
      (w0 w : World)
      → Booked w0 event w
      → length w.db.ledger_entries ≡ length w0.db.ledger_entries + 2
  two_more w0 w b = rw (b.posted.entries, length-append) refl

  -- Booking is not idempotent: a second delivery of an event with status "created" that also
  -- succeeds books the payment once more, so that the ledger has four new entries.
  pub redelivery_books_again :
      (w0 : World)
      → w0.tx ≡ idle
      → let first = handle_payment_event env event_data w0 in
        let second = handle_payment_event env event_data first.1 in
        first.0 ≡ ok tt
        → second.0 ≡ ok tt
        → length second.1.db.ledger_entries ≡ length w0.db.ledger_entries + 4
  redelivery_books_again w0 at_rest fine again =
      let first = Booked-of_ok w0 at_rest fine in
      let w1 = (handle_payment_event env event_data w0).1 in
      let second = Booked-of_ok w1 first.tx again in
      omega (arith, two_more w0 w1 first, two_more w1 _ second)

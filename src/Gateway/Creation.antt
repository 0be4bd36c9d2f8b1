-- ===== src/Gateway/Creation.antt =====
-- What `PaymentService.ProcessPayment` and its handler do on every branch.
pub mod Storing
use pay_fast_processor.Prelude.{
  String, Bool, true, false, some, List, [], ◌∷◌, ◌++◌, ◌≡◌, refl, ◌⊎◌, inl, inr, any, not, update,
  concat, subst, sym, Bool-cases, ◌∙◌, ap, eq_refl, ◌==◌, arith,
}
use pay_fast_processor.Prelude.Int.{ℤ, pos, leb_ℤ, ◌<ℤ◌}
use pay_fast_processor.Store.Schema.{Db, Payment, MethodType, created}
use pay_fast_processor.Store.Sql.{ok, err}
use pay_fast_processor.Runtime.Json.{Error}
use pay_fast_processor.Runtime.World.{Env, World, idle, Message}
use pay_fast_processor.Runtime.Act.{
  ◌>>=◌, wrapping, rolling_back, rollback, begin, generate, in_background, publish_payment_event,
  next_call,
}
use pay_fast_processor.Runtime.Triple.{
  Triple, Triple-bind, Triple-pure, Triple-raise, Triple-wrapping, Triple-weaken, Triple-if,
  Triple-given, Post-ok, Post-err,
}
use pay_fast_processor.Runtime.Transaction.{
  Unchanged, Unchanged-refl, InTx, Committed, Any, Triple-begin, Triple-commit, Triple-tx_exec,
  Triple-now, Leads,
}
use pay_fast_processor.Runtime.Transaction.Rollback.{
  Triple-rolling_back, rollback-InTx, rollback-idle,
}
use pay_fast_processor.Runtime.Pool.{Triple-pool_query, Triple-pool_exec}
use pay_fast_processor.Books.Inserts.{Leads-constrained}
use pay_fast_processor.Gateway.Payments.{
  CreatePaymentRequest, PaymentResponse, method_type, insert_payment, payment_constraints, has_key,
  payment_of, set_status, store_payment, authorize, process_payment, payment_event,
}
-- An update of the rows that pass a test changes nothing where none does.
use pay_fast_processor.Gateway.Creation.Storing.{IsStored, Created, Failed, Answered, body_lem}

module _ (merchant_id key : String) (req : CreatePaymentRequest) (w0 : World) (id : String) where
  IsStored-next_call :
      (d : Db)
      → IsStored merchant_id key req (next_call w0) id d
      → IsStored merchant_id key req w0 id d
  IsStored-next_call d h = record {
    kind = h.kind;
    token = h.token;
    new_id = h.new_id;
    new_key = h.new_key;
    db = h.db;
  }

  Created-next_call :
      (w : World)
      → Created merchant_id key req (next_call w0) id w
      → Created merchant_id key req w0 id w
  Created-next_call w h = record {
    tx = h.tx;
    stored = IsStored-next_call w.db h.stored;
    cache = h.cache;
    webhook_events = h.webhook_events;
    now = h.now;
    payment_events = h.payment_events;
  }

  Failed-next_call :
      (w : World)
      → Failed merchant_id key req (next_call w0) id w
      → Failed merchant_id key req w0 id w
  Failed-next_call w (inl h) = inl (record { db = h.db; tx = h.tx; outside = h.outside })
  Failed-next_call w (inr h) =
      inr (record { tx = h.tx; holds = IsStored-next_call w.db h.holds; outside = h.outside })

positive_of_test : (z : ℤ) → leb_ℤ z (pos 0) ≡ false → pos 0 <ℤ z
positive_of_test z h = ground arith

module _ (env : Env) (merchant_id key : String) (req : CreatePaymentRequest) (w0 : World)
    (at_rest : w0.tx ≡ idle) where
  -- The id that the payment gets.
  abbrev pub new_id : String
  new_id = concat "py_" (env.ulid w0.tick)

  abbrev pub Accepted : PaymentResponse → World → Type 0
  Accepted resp w = (pos 0 <ℤ req.amount) × Answered merchant_id key req w0 env new_id resp w

  begun :
      Triple
        (λ w. w ≡ w0)
        (generate env "py_")
        (λ id w. (w ≡ next_call w0) × (id ≡ new_id))
        (Failed merchant_id key req w0 new_id)
  unfolding generate
  begun = record { run = λ w e. rw e (refl, refl) }

  in_transaction :
      Triple
        (λ w. w ≡ next_call w0)
        (wrapping "failed to begin transaction" (begin env) >>= λ _. rolling_back (
          store_payment env new_id merchant_id key req >>= λ _.
          authorize env new_id merchant_id req))
        (Answered merchant_id key req (next_call w0) env new_id)
        (Failed merchant_id key req (next_call w0) new_id)
  in_transaction =
      Triple-bind _ _
        (Triple-weaken _ (Triple-wrapping _ _ (Triple-begin env (next_call w0) at_rest)) (λ w h. h)
          (λ _ w h. h) (λ w h. inl h))
        λ _. body_lem merchant_id key req (next_call w0) env new_id

  in_transaction_of :
      (id : String)
      → id ≡ new_id
      → pos 0 <ℤ req.amount
      → Triple
          (λ w. w ≡ next_call w0)
          (wrapping "failed to begin transaction" (begin env) >>= λ _.
            rolling_back
              (store_payment env id merchant_id key req >>= λ _. authorize env id merchant_id req))
          Accepted
          (Failed merchant_id key req w0 new_id)
  in_transaction_of id same positive = rw same (
      Triple-weaken _ in_transaction (λ w h. h)
        (λ _ w h. (positive, (h.0, Created-next_call merchant_id key req w0 new_id w h.1)))
        (Failed-next_call merchant_id key req w0 new_id))

  pub process_payment_lem :
      Triple
        (λ w. w ≡ w0)
        (process_payment env merchant_id key req)
        Accepted
        (Failed merchant_id key req w0 new_id)
  unfolding process_payment
  process_payment_lem =
      Triple-if _ _ _ (λ refused. Triple-raise _ λ w e. inl (rw e (Unchanged-refl w0 at_rest)))
        λ positive. Triple-bind _ _ begun λ id.
          Triple-given λ same. in_transaction_of id same (positive_of_test req.amount positive)

  -- A payment that is accepted has a positive amount. It is stored under a new id with the status
  -- "created", its merchant had no payment with this key before, its token is known, and nothing
  -- else in the database has changed. It is announced at most once on the topic "payment_events".
  pub process_payment-Accepted :
      {resp : PaymentResponse}
      → (process_payment env merchant_id key req w0).0 ≡ ok resp
      → Accepted resp (process_payment env merchant_id key req w0).1
  process_payment-Accepted fine = Post-ok Accepted _ _ _ (process_payment_lem.run w0 refl) fine

  -- Where the creation of a payment returns an error, either nothing has changed, or the commit was
  -- reached: then the payment stays stored with the status "created", and no event announces it.
  pub process_payment-Failed :
      {e : Error}
      → (process_payment env merchant_id key req w0).0 ≡ err e
      → Failed merchant_id key req w0 new_id (process_payment env merchant_id key req w0).1
  process_payment-Failed failed = Post-err Accepted _ _ _ (process_payment_lem.run w0 refl) failed

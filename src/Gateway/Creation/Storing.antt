-- ===== src/Gateway/Creation/Storing.antt =====
-- The transaction that stores a payment, and the calls after its commit.
use pay_fast_processor.Prelude.{
  String, Bool, true, false, some, List, [], ◌∷◌, ◌++◌, ◌≡◌, refl, ◌⊎◌, inl, inr, any, not, update,
  subst, sym, Bool-cases, ◌∙◌, ap, eq_refl, ◌==◌,
}
use pay_fast_processor.Store.Schema.{Db, Payment, MethodType, created}
use pay_fast_processor.Store.Sql.{ok}
use pay_fast_processor.Runtime.World.{Env, World, idle, Message}
use pay_fast_processor.Runtime.Act.{
  ◌>>=◌, rolling_back, rollback, in_background, publish_payment_event,
}
use pay_fast_processor.Runtime.Triple.{
  Triple, Triple-bind, Triple-pure, Triple-wrapping, Triple-weaken,
}
use pay_fast_processor.Runtime.Transaction.{
  Unchanged, InTx, Committed, Any, Triple-commit, Triple-tx_exec, Triple-now, Leads,
}
use pay_fast_processor.Runtime.Transaction.Rollback.{
  Triple-rolling_back, rollback-InTx, rollback-idle,
}
use pay_fast_processor.Runtime.Pool.{Triple-pool_query, Triple-pool_exec}
use pay_fast_processor.Books.Inserts.{Leads-constrained}
use pay_fast_processor.Gateway.Payments.{
  CreatePaymentRequest, PaymentResponse, method_type, insert_payment, payment_constraints, has_key,
  payment_of, set_status, store_payment, authorize, payment_event,
}

-- An update of the rows that pass a test changes nothing where none does.

update-none :
    {A : Type 0} (p : A → Bool) (f : A → A) (l : List A) → any p l ≡ false → update p f l ≡ l
update-none p f [] e = refl
update-none p f (x ∷ l) e = elim (Bool-cases (p x)) [
  | inl hit ↦ cc (rw hit at e)
  | inr miss ↦ rw (miss, update-none p f l (rw miss at e)) refl
]

update-append :
    {A : Type 0} (p : A → Bool) (f : A → A) (l r : List A)
    → update p f (l ++ r) ≡ update p f l ++ update p f r
update-append p f [] r = refl
update-append p f (x ∷ l) r = rw (update-append p f l r) refl

false_of_not : (b : Bool) → not b ≡ true → b ≡ false
false_of_not false h = refl
false_of_not true h = cc h

module _ (merchant_id key : String) (req : CreatePaymentRequest) (w0 : World) where
  -- One payment is added under a new id, and nothing else in the database is changed.
  pub record IsStored (id : String) (d : Db) : Type 0 where
    pub kind : MethodType
    pub token : method_type req.token_id w0.db ≡ ok kind
    pub new_id : any (λ q. q.id == id) w0.db.payments ≡ false
    pub new_key : any (has_key merchant_id key) w0.db.payments ≡ false
    pub db : d ≡ record w0.db {
      payments = w0.db.payments ++ payment_of id merchant_id key kind req w0.now ∷ [];
    }

  abbrev announcement : String → Message
  announcement id = record { key = id; value = some (payment_event id merchant_id req "created") }

  -- The payment is stored, and announced at most once.
  pub record Created (id : String) (w : World) : Type 0 where
    pub tx : w.tx ≡ idle
    pub stored : IsStored id w.db
    pub cache : w.cache ≡ w0.cache
    pub webhook_events : w.webhook_events ≡ w0.webhook_events
    pub now : w.now ≡ w0.now
    pub payment_events :
        (w.payment_events ≡ w0.payment_events)
        ⊎ (w.payment_events ≡ w0.payment_events ++ announcement id ∷ [])

  -- What an error leaves: nothing, or a payment that is stored and never announced.
  abbrev pub Failed : String → World → Type 0
  Failed id w = Unchanged w0 w ⊎ Committed w0 (IsStored id) w

  insert_lem :
      (id : String) (kind : MethodType) (d : Db)
      → (d ≡ w0.db) × (method_type req.token_id w0.db ≡ ok kind)
      → Leads (λ _. IsStored id) (insert_payment (payment_of id merchant_id key kind req w0.now) d)
  unfolding insert_payment
  insert_lem id kind d h =
      let p = payment_of id merchant_id key kind req w0.now in
      Leads-constrained (λ _. IsStored id) (payment_constraints p d) tt _
        λ m. record {
          kind = kind;
          token = h.1;
          new_id = rw h.0 at (false_of_not _ m.1.0);
          new_key = rw h.0 at (false_of_not _ m.1.1.0);
          db = rw h.0;
        }

  module _ (env : Env) (id : String) where
    store_payment_lem :
        Triple
          (InTx w0 (λ d. d ≡ w0.db))
          (store_payment env id merchant_id key req)
          (λ _. Committed w0 (IsStored id))
          (InTx w0 Any)
    unfolding store_payment
    store_payment_lem = Triple-bind _ _ (Triple-now env w0 _) λ now.
        Triple-bind _ _ (Triple-wrapping _ _ (Triple-pool_query env w0 _ _)) λ kind.
          Triple-bind _ _
            (Triple-wrapping _ _ (
              Triple-tx_exec env w0 _ (λ _. IsStored id) _
                λ d h.
                  subst
                    (λ n.
                      Leads (λ _. IsStored id)
                        (insert_payment (payment_of id merchant_id key kind req n) d))
                    (sym h.0.1) (insert_lem id kind d (h.0.0, h.1))))
            λ _. Triple-wrapping _ _ (Triple-commit env w0 _)

    same_payments :
        (kind : MethodType) (ps : List Payment)
        → any (λ q. q.id == id) ps ≡ false
        → let p = payment_of id merchant_id key kind req w0.now in
          update (λ q. q.id == id) (λ q. record q { status = created }) (ps ++ p ∷ [])
          ≡ ps ++ p ∷ []
    same_payments kind ps fresh =
        rw (update-append, update-none (λ q. q.id == id) _ ps fresh, eq_refl id) refl

    status_stays : (d : Db) → IsStored id d → Leads (λ _. IsStored id) (set_status created id d)
    unfolding set_status
    status_stays d h = record {
      kind = h.kind;
      token = h.token;
      new_id = h.new_id;
      new_key = h.new_key;
      db = rw h.db (
          ap (λ ps. record w0.db { payments = ps }) (same_payments h.kind w0.db.payments h.new_id));
    }

    publish_lem :
        Triple
          (Committed w0 (IsStored id))
          (in_background
            (publish_payment_event env id (payment_event id merchant_id req "created")))
          (λ _. Created id)
          (Committed w0 (IsStored id))
    unfolding in_background publish_payment_event
    publish_lem = record {
      run = λ w h. elim (Bool-cases (env.fails w.tick)) [
        | inl f ↦ rw f (record {
          tx = h.tx;
          stored = h.holds;
          cache = h.outside.0;
          webhook_events = h.outside.2;
          now = h.outside.3;
          payment_events = inl h.outside.1;
        })
        | inr f ↦ rw f (record {
          tx = h.tx;
          stored = h.holds;
          cache = h.outside.0;
          webhook_events = h.outside.2;
          now = h.outside.3;
          payment_events = inr (ap (λ l. l ++ announcement id ∷ []) h.outside.1);
        })
      ];
    }

    -- The answer names the payment.
    abbrev pub Answered : PaymentResponse → World → Type 0
    Answered resp w = (resp ≡ record { payment_id = id; status = "created" }) × Created id w

    authorize_lem :
        Triple
          (Committed w0 (IsStored id))
          (authorize env id merchant_id req)
          Answered
          (Committed w0 (IsStored id))
    unfolding authorize
    authorize_lem =
        Triple-bind _ _ (Triple-wrapping _ _ (Triple-pool_exec env w0 _ _ _ status_stays))
          λ _. Triple-bind _ _ publish_lem λ _. Triple-pure _ λ w h. (refl, h)

    pub body_lem :
        Triple
          (InTx w0 (λ d. d ≡ w0.db))
          (rolling_back
            (store_payment env id merchant_id key req >>= λ _. authorize env id merchant_id req))
          Answered
          (Failed id)
    body_lem =
        Triple-weaken _
          (Triple-rolling_back _ (
            Triple-bind _ _
              (Triple-weaken _ store_payment_lem (λ w h. h) (λ _ w h. h) (λ w h. inl h))
              λ _. Triple-weaken _ authorize_lem (λ w h. h) (λ _ w h. h) (λ w h. inr h)))
          (λ w h. h) (λ resp u (v, (same, c), e). (same, rw (e ∙ rollback-idle v c.tx) c)) undone
      where
        undone :
            (u : World)
            → (v : World) × (InTx w0 Any v ⊎ Committed w0 (IsStored id) v) × (u ≡ rollback v)
            → Failed id u
        undone u (v, inl h, e) = inl (rw e (rollback-InTx w0 v Any h))
        undone u (v, inr h, e) = inr (rw (e ∙ rollback-idle v h.tx) h)

-- A call of the environment leaves what these compare with as it is.

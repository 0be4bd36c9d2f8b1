-- ===== src/Gateway/Retry.antt =====
-- `POST /v1/payments` sent twice with the same idempotency key.
use pay_fast_processor.Prelude.{
  ℕ, String, true, false, Option, none, some, ◌≡◌, refl, ◌≢◌, inl, inr, Bool-cases, eq_iff, ◌∙◌,
  ◌==◌, ap, find,
}
use pay_fast_processor.Store.Schema.{IdempotencyKey}
use pay_fast_processor.Store.Sql.{Result, ok, err}
use pay_fast_processor.Runtime.Json.{Error}
use pay_fast_processor.Runtime.World.{Env, World, idle}
use pay_fast_processor.Runtime.Act.{next_call}
use pay_fast_processor.Runtime.Cache.{get}
use pay_fast_processor.Runtime.Triple.{Post-both}
use pay_fast_processor.Gateway.Http.{Request, Response, Handler, json}
use pay_fast_processor.Gateway.Keys.{lock_key, is_record}
use pay_fast_processor.Gateway.Middleware.{idempotency, with_key, stored_body}
use pay_fast_processor.Gateway.Payments.{
  CreatePaymentRequest, create_payment, create_for, create_decoded, decode_request, process_payment,
}
use pay_fast_processor.Gateway.Creation.{Accepted, process_payment_lem, new_id}
use pay_fast_processor.Gateway.Creation.Storing.{Failed}
use pay_fast_processor.Gateway.Replay.{record_in, LeavesKeys, with_key-Stored, with_key-replays}

-- No transaction is left open, and the idempotency keys are as before.
abbrev pub SameKeys : World → World → Type 0
SameKeys w w' = (w'.tx ≡ idle) × (w'.db.idempotency_keys ≡ w.db.idempotency_keys)

module _ (env : Env) (w : World) (at_rest : w.tx ≡ idle) where
  process_payment-SameKeys :
      (merchant_id key : String) (req : CreatePaymentRequest)
      → SameKeys w (process_payment env merchant_id key req w).1
  process_payment-SameKeys merchant_id key req =
      Post-both (Accepted env merchant_id key req w at_rest)
        (Failed merchant_id key req w (new_id env merchant_id key req w at_rest)) _ _
        ((process_payment_lem env merchant_id key req w at_rest).run w refl)
        (λ resp h. (h.1.1.tx, rw h.1.1.stored.db refl)) refused
    where
      refused : {id : String} {u : World} → Failed merchant_id key req w id u → SameKeys w u
      refused (inl h) = (h.tx, rw h.db refl)
      refused (inr h) = (h.tx, rw h.holds.db refl)

  nothing : SameKeys w w
  nothing = (at_rest, refl)

  create_decoded-SameKeys :
      (merchant_id : String) (r : Request) (d : Result Error CreatePaymentRequest)
      → SameKeys w (create_decoded env d merchant_id r w).1
  create_decoded-SameKeys merchant_id r (err e) = nothing
  create_decoded-SameKeys merchant_id r (ok req) =
      process_payment-SameKeys merchant_id r.idempotency_key req

  create_for-SameKeys :
      (r : Request) (merchant_id : Option String) → SameKeys w (create_for env merchant_id r w).1
  create_for-SameKeys r none = nothing
  create_for-SameKeys r (some m) = elim (Bool-cases (m == "")) [
    | inl empty ↦ rw empty nothing
    | inr named ↦ rw named (create_decoded-SameKeys m r (decode_request r.body))
  ]

  pub create_payment-SameKeys : (r : Request) → SameKeys w (create_payment env r w).1
  unfolding create_payment
  create_payment-SameKeys r = create_for-SameKeys r r.merchant_id

module _ (env : Env) (r : Request) (merchant_id : String) (w v : World) where
  -- The payment route behind the authentication.
  abbrev route : Handler
  route = idempotency env (create_payment env)

  abbrev record_there : World → Option IdempotencyKey
  record_there = record_in env (create_payment env) merchant_id r

  create_payment-LeavesKeys : LeavesKeys env (create_payment env) merchant_id r
  create_payment-LeavesKeys u at_rest =
      let (idle_after, same) = create_payment-SameKeys env u at_rest r in
      (idle_after, ap (find (is_record merchant_id r.idempotency_key)) same)

  module _ (posted : r.method ≡ "POST") (keyed : r.idempotency_key ≢ "")
      (named : r.merchant_id ≡ some merchant_id) where
    route_lem : (u : World) → route r u ≡ with_key env (create_payment env) merchant_id r u
    unfolding idempotency
    route_lem u = elim (Bool-cases (r.idempotency_key == "")) [
      | inl empty ↦ absurd (keyed ((eq_iff _ _).0 empty))
      | inr other ↦ rw (posted, other, named) refl
    ]

    -- A payment is posted for the first time: there is no record of its key and no lock. Where no
    -- call fails, its answer is stored, and whenever the request is sent again while that record
    -- stands, it gets the same status and the stored body, marked as replayed, and has no effect.
    pub retry-replays :
        ((n : ℕ) → env.fails n ≡ false)
        → w.tx ≡ idle
        → record_there w ≡ none
        → get w.now (lock_key merchant_id r.idempotency_key) w.cache ≡ none
        → v.tx ≡ idle
        → let (answer, u) = route r w in
          record_there v ≡ record_there u
          → route r v ≡ (
            record {
              status = answer.status;
              body = json (stored_body answer.body);
              replayed = true;
            },
            next_call v,
          )
    retry-replays works at_rest missing free later stands =
        let first = create_payment env in
        let (idle_then, stored) =
          with_key-Stored env first merchant_id r works create_payment-LeavesKeys w at_rest missing
            free in
        let same : record_there v ≡ record_there (with_key env first merchant_id r w).1 =
          stands ∙ ap (λ (p : Response × World). record_there p.1) (route_lem w) in
        rw (route_lem w, route_lem v)
          (with_key-replays env first merchant_id r v _ later (works _) (same ∙ stored))

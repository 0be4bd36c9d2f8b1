-- ===== src/Gateway/Rest.antt =====
-- A request to POST /v1/payments changes the tables of payments and of idempotency keys only, and
-- what it adds is a payment of the test merchant.
pub mod Creation
pub mod Middleware
use pay_fast_processor.Prelude.{
  update, ◌++◌, ◌≡◌, refl, String, Bool, true, false, Option, none, some, List, inl, inr,
  Bool-cases, ◌==◌, [], ◌∷◌,
}
use pay_fast_processor.Prelude.Int.{leb_ℤ, pos}
use pay_fast_processor.Store.Schema.{Db, Payment, PaymentStatus, IdempotencyKey}
use pay_fast_processor.Store.Sql.{Result, ok, err}
use pay_fast_processor.Runtime.Json.{Error}
use pay_fast_processor.Runtime.World.{Env, World}
use pay_fast_processor.Runtime.Rest.{
  Kept, AtRest, AtRest-Stable, Kept-Stable, Keeping, Keeping-bind, Keeping-wrapping,
  Keeping-in_background, Keeping-if,
}
use pay_fast_processor.Runtime.Rest.Calls.{
  Keeping-generate, Keeping-pool_query, Keeping-pool_exec, Keeping-publish_payment_event,
  Keeping-set_nx, Keeping-del,
}
use pay_fast_processor.Runtime.Rest.Scope.{
  Keeping-tx_exec, Keeping-commit, transaction_wrapped-AtRest,
}
use pay_fast_processor.Books.Inserts.{Leads-constrained}
use pay_fast_processor.Gateway.Http.{Request, Handler}
use pay_fast_processor.Gateway.Keys.{
  IdempotencyRecord, get_record, create_pending_record, complete_record, acquire_lock, release_lock,
  insert_record, update_record, pending, record_constraints,
}
use pay_fast_processor.Gateway.Middleware.{
  run_handler, after_pending, locked_section, after_lock, after_check, with_key, for_merchant,
  idempotency,
}
use pay_fast_processor.Gateway.Payments.{
  CreatePaymentRequest, insert_payment, payment_constraints, set_status, payment_of, store_payment,
  authorize, process_payment, create_decoded, create_for, create_payment, decode_request,
}
use pay_fast_processor.Gateway.Auth.{
  api_auth, with_header, with_parts, with_api_key, Bytes, split, space, bearer, eqb_bytes,
  has_prefix, key_prefix, test_merchant, payments_route,
}
use pay_fast_processor.Gateway.Rest.Creation.{create_payment-Safe}
use pay_fast_processor.Gateway.Rest.Middleware.{Preserves, idempotency-Safe, api_auth-Preserves}

module _ (env : Env) (P : Db → Type 0)
    (insert : (d : Db) (p : Payment)
      → p.merchant_id ≡ test_merchant
      → P d
      → P (record d { payments = d.payments ++ p ∷ [] }))
    (restate : (d : Db) (id : String) (s : PaymentStatus)
      → P d
      → P (record d {
        payments = update (λ p. p.id == id) (λ p. record p { status = s }) d.payments;
      }))
    (keys : (d : Db) (l : List IdempotencyKey) → P d → P (record d { idempotency_keys = l })) where
  pub payments_route-Preserves : Preserves P (payments_route env)
  unfolding payments_route
  payments_route-Preserves =
      api_auth-Preserves P (idempotency env (create_payment env)) (
        idempotency-Safe env P keys (create_payment env) (create_payment-Safe env P insert restate))

module _ (env : Env) (P : Db → Type 0)
    (payments : (d : Db) (l : List Payment) → P d → P (record d { payments = l }))
    (keys : (d : Db) (l : List IdempotencyKey) → P d → P (record d { idempotency_keys = l })) where
  -- Where the table of payments plays no part.
  pub payments_route-Safe : Preserves P (payments_route env)
  payments_route-Safe =
      payments_route-Preserves env P (λ d p _ h. payments d _ h) (λ d id s h. payments d _ h) keys

-- ===== src/Gateway/Payments.antt =====
-- services/gateway/service/payment_service.go and services/gateway/handler/payment_handler.go: a
-- payment is created.
use pay_fast_processor.Prelude.{
  ℕ, String, Bool, true, false, Option, none, some, List, [], ◌∷◌, ◌++◌, not, any, find, update,
  ◌&&◌, ◌==◌, if◌then◌else◌,
}
use pay_fast_processor.Prelude.Int.{ℤ, pos, ltb_ℤ, leb_ℤ}
use pay_fast_processor.Store.Schema.{
  Db, MethodType, PaymentMethod, Payment, PaymentStatus, created, failed,
}
use pay_fast_processor.Store.Sql
use pay_fast_processor.Store.Sql.{
  SqlError, no_rows, unique_violation, foreign_key_violation, check_violation, Result, ok, err,
  Stmt, Query, constrained,
}
use pay_fast_processor.Runtime.Json.{
  Json, Error, message, unmarshal, text, number, text_field, number_field,
}
use pay_fast_processor.Runtime.World.{Env}
use pay_fast_processor.Runtime.Act.{
  Act, pure, raise, wrapping, gets, ◌>>=◌, ◌>>◌, rolling_back, pool_query, pool_exec, tx_exec,
  begin, commit, generate, publish_payment_event, in_background,
}
use pay_fast_processor.Books.{has_merchant}
use pay_fast_processor.Gateway.Http.{Response, json, Handler, http_error, error_text}

pub record CreatePaymentRequest : Type 0 where
  pub amount : ℤ
  pub currency : String
  pub token_id : String

pub record PaymentResponse : Type 0 where
  pub payment_id : String
  pub status : String

abbrev kind_of : Option PaymentMethod → Result SqlError MethodType
kind_of none = err no_rows
kind_of (some m) = ok m.kind

-- `SELECT type FROM payment_methods WHERE id = $1`.
unfoldable pub method_type : String → Query MethodType
method_type id d = kind_of (find (λ m. m.id == id) d.payment_methods)

abbrev pub has_key : String → String → Payment → Bool
has_key merchant_id key p = p.merchant_id == merchant_id && p.idempotency_key == key

abbrev pub payment_constraints : Payment → Db → List (Bool × SqlError)
payment_constraints p d =
    (ltb_ℤ (pos 0) p.amount, check_violation)
    ∷ (not (any (λ q. q.id == p.id) d.payments), unique_violation)
    ∷ (not (any (has_key p.merchant_id p.idempotency_key) d.payments), unique_violation)
    ∷ (has_merchant (some p.merchant_id) d, foreign_key_violation)
    ∷ (any (λ m. m.id == p.payment_method_id) d.payment_methods, foreign_key_violation)
    ∷ []

unfoldable pub insert_payment : Payment → Stmt Unit
insert_payment p d =
    constrained (payment_constraints p d) (tt, record d { payments = d.payments ++ p ∷ [] })

abbrev pub payment_of : String → String → String → MethodType → CreatePaymentRequest → ℕ → Payment
payment_of id merchant_id key kind req now = record {
  id = id;
  merchant_id = merchant_id;
  payment_method_id = req.token_id;
  payment_method_type = kind;
  amount = req.amount;
  currency = req.currency;
  status = created;
  idempotency_key = key;
  risk_score = none;
  settlement_id = none;
  created_at = now;
  updated_at = now;
}

-- `UPDATE payments SET status = $1 WHERE id = $2`.
unfoldable pub set_status : PaymentStatus → String → Stmt Unit
set_status status id d = ok (
  tt,
  record d { payments = update (λ p. p.id == id) (λ p. record p { status = status }) d.payments },
)

abbrev pub simulate_authorization : Bool
simulate_authorization = true

-- `newStatus`, as the column's value and as text.
abbrev pub new_status : Bool → PaymentStatus
new_status true = created
new_status false = failed

abbrev pub status_text : Bool → String
status_text true = "created"
status_text false = "failed"

abbrev pub payment_event : String → String → CreatePaymentRequest → String → Json
payment_event id merchant_id req status =
    ("payment_id", text id)
    ∷ ("merchant_id", text merchant_id)
    ∷ ("amount", number req.amount)
    ∷ ("currency", text req.currency)
    ∷ ("token_id", text req.token_id)
    ∷ ("status", text status)
    ∷ []

module _ (env : Env) where
  -- The transaction that stores the payment. The token is read on another connection.
  unfoldable pub store_payment : String → String → String → CreatePaymentRequest → Act Unit
  store_payment id merchant_id key req = do
    now ← gets (λ w. w.now)
    kind ← wrapping "invalid token_id or not found" (pool_query env (method_type req.token_id))
    wrapping "failed to insert payment"
        (tx_exec env (insert_payment (payment_of id merchant_id key kind req now)))
    wrapping "failed to commit transaction" (commit env)

  -- What follows the commit.
  unfoldable pub authorize : String → String → CreatePaymentRequest → Act PaymentResponse
  authorize id merchant_id req = do
    wrapping "failed to update payment status"
        (pool_exec env (set_status (new_status simulate_authorization) id))
    in_background (
        publish_payment_event env id
          (payment_event id merchant_id req (status_text simulate_authorization)))
    pure (record { payment_id = id; status = status_text simulate_authorization })

  unfoldable pub process_payment : String → String → CreatePaymentRequest → Act PaymentResponse
  process_payment merchant_id key req =
      if leb_ℤ req.amount (pos 0) then raise (message "amount must be greater than zero") else do
        id ← generate env "py_"
        wrapping "failed to begin transaction" (begin env)
        rolling_back (do store_payment id merchant_id key req; authorize id merchant_id req)

unfoldable pub decode_request : Option Json → Result Error CreatePaymentRequest
decode_request none = err unmarshal
decode_request (some o) = Sql.◌>>=◌ (number_field "amount" o) λ a.
    Sql.◌>>=◌ (text_field "currency" o) λ c.
      Sql.◌>>=◌ (text_field "token_id" o)
        λ t. ok (record { amount = a; currency = c; token_id = t })

abbrev pub created_answer : PaymentResponse → Response
created_answer r = record {
  status = 201;
  body = json (("payment_id", text r.payment_id) ∷ ("status", text r.status) ∷ []);
  replayed = false;
}

module _ (env : Env) where
  abbrev answer : Result Error PaymentResponse → Response
  answer (ok r) = created_answer r
  answer (err e) = http_error (error_text env e) 500

  abbrev pub create_decoded : Result Error CreatePaymentRequest → String → Handler
  create_decoded (err e) merchant_id r w = (http_error "invalid request body" 400, w)
  create_decoded (ok req) merchant_id r w =
      let (result, w') = process_payment env merchant_id r.idempotency_key req w in
      (answer result, w')

  abbrev pub create_for : Option String → Handler
  create_for none r w = (http_error "unauthorized" 401, w)
  create_for (some merchant_id) r w =
      if merchant_id == ""
      then (http_error "unauthorized" 401, w)
      else create_decoded (decode_request r.body) merchant_id r w

  -- `PaymentHandler.CreatePayment`.
  unfoldable pub create_payment : Handler
  create_payment r w = create_for r.merchant_id r w

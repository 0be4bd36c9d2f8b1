-- ===== src/Subscriptions/Billing.antt =====
-- services/subscriptions/worker/billing_worker.go.
use pay_fast_processor.Prelude.{
  ℕ, String, Bool, true, false, Option, none, some, List, [], ◌∷◌, ◌++◌, any, not, leb, take,
  select, update, concat, ◌==◌, ◌&&◌, ◌||◌, if◌then◌else◌,
}
use pay_fast_processor.Prelude.Int.{pos, ltb_ℤ}
use pay_fast_processor.Store.Schema.{
  Db, Subscription, SubscriptionStatus, active, past_due, canceled_plan, unpaid, Invoice, draft,
  paid, uncollectible,
}
use pay_fast_processor.Store.Sql.{
  SqlError, unique_violation, foreign_key_violation, check_violation, Result, ok, err, Stmt,
  constrained,
}
use pay_fast_processor.Runtime.Json.{Value, Error, message, field, text, number, texts, null}
use pay_fast_processor.Runtime.World.{Env, World}
use pay_fast_processor.Runtime.Rows.{pool_rows}
use pay_fast_processor.Runtime.Act.{
  Act, pure, raise, attempt, gets, ◌>>=◌, ◌>>◌, rolling_back, next_call, pool_exec, tx_exec, begin,
  commit, generate,
}
use pay_fast_processor.Books.{has_merchant}
use pay_fast_processor.Gateway.Http.{Request, Response, Body, plain, json}
use pay_fast_processor.Gateway.Auth.{payments_route}
use pay_fast_processor.Subscriptions.Calendar.{plus_month, plus_year}

abbrev pub is_active : SubscriptionStatus → Bool
is_active active = true
is_active past_due = false
is_active canceled_plan = false
is_active unpaid = false

-- The `WHERE` clause of the due subscriptions.
abbrev pub is_due_at : ℕ → Subscription → Bool
is_due_at now s = is_active s.status && leb s.current_period_end now

abbrev pub invoice_constraints : Invoice → Db → List (Bool × SqlError)
invoice_constraints i d =
    (ltb_ℤ (pos 0) i.amount, check_violation)
    ∷ (not (any (λ x. x.id == i.id) d.invoices), unique_violation)
    ∷ (any (λ s. s.id == i.subscription_id) d.subscriptions, foreign_key_violation)
    ∷ (has_merchant (some i.merchant_id) d, foreign_key_violation)
    ∷ []

unfoldable pub insert_invoice : Invoice → Stmt Unit
insert_invoice i d =
    constrained (invoice_constraints i d) (tt, record d { invoices = d.invoices ++ i ∷ [] })

abbrev pub draft_invoice : String → Subscription → Invoice
draft_invoice id s = record {
  id = id;
  subscription_id = s.id;
  merchant_id = s.merchant_id;
  amount = s.amount;
  currency = s.currency;
  status = draft;
  payment_id = none;
}

-- `UPDATE invoices SET status = 'uncollectible' WHERE id = $1`.
unfoldable pub mark_uncollectible : String → Stmt Unit
mark_uncollectible id d = ok (
  tt,
  record d {
    invoices = update (λ i. i.id == id) (λ i. record i { status = uncollectible }) d.invoices;
  },
)

abbrev pub lapse : String → List Subscription → List Subscription
lapse id = update (λ s. s.id == id) (λ s. record s { status = past_due })

-- `UPDATE subscriptions SET status = 'past_due' WHERE id = $1`.
unfoldable pub mark_past_due : String → Stmt Unit
mark_past_due id d = ok (tt, record d { subscriptions = lapse id d.subscriptions })

abbrev pay : String → Invoice → Invoice
pay payment_id i = record i { status = paid; payment_id = some payment_id }

-- The payment must exist where a row refers to it.
abbrev pub paid_constraints : String → String → Db → List (Bool × SqlError)
paid_constraints payment_id id d =
    (
      not (any (λ i. i.id == id) d.invoices) || any (λ p. p.id == payment_id) d.payments,
      foreign_key_violation,
    )
    ∷ []

-- `UPDATE invoices SET status = 'paid', payment_id = $1 WHERE id = $2`.
unfoldable pub mark_paid : String → String → Stmt Unit
mark_paid payment_id id d =
    constrained (paid_constraints payment_id id d)
      (tt, record d { invoices = update (λ i. i.id == id) (pay payment_id) d.invoices })

abbrev pub next_end : Subscription → ℕ
next_end s =
    if s.interval == "month"
    then plus_month s.current_period_end
    else plus_year s.current_period_end

abbrev pub next_period : Subscription → Subscription
next_period s = record s {
  current_period_start = s.current_period_end;
  current_period_end = next_end s;
}

abbrev pub extend : String → List Subscription → List Subscription
extend id = update (λ s. s.id == id) next_period

-- The update of `extendQuery`.
unfoldable pub extend_period : String → Stmt Unit
extend_period id d = ok (tt, record d { subscriptions = extend id d.subscriptions })

-- "Bearer sk_test_123".
abbrev pub billing_key : List ℕ
billing_key =
    66 ∷ 101 ∷ 97 ∷ 114 ∷ 101 ∷ 114 ∷ 32 ∷ 115 ∷ 107 ∷ 95 ∷ 116 ∷ 101 ∷ 115 ∷ 116 ∷ 95 ∷ 49 ∷ 50
    ∷ 51 ∷ []

abbrev pub billing_request : String → Subscription → Request
billing_request invoice_id s = record {
  method = "POST";
  path = "/v1/payments";
  authorization = billing_key;
  idempotency_key = concat "idem_invoice_" invoice_id;
  merchant_id = none;
  body = some (
      ("amount", number s.amount)
      ∷ ("currency", text s.currency)
      ∷ ("token_id", text s.payment_method_id)
      ∷ []);
}

abbrev text_value : Option Value → String
text_value none = ""
text_value (some (text s)) = s
text_value (some (number _)) = ""
text_value (some (texts _)) = ""
text_value (some null) = ""

-- `paymentResp["payment_id"].(string)`, empty where it is none.
abbrev pub payment_id_of : Body → String
payment_id_of (json o) = text_value (field "payment_id" o)
payment_id_of (plain s) = ""

-- The payment failed: there is no answer, or an error's.
abbrev pub is_refused : Option Response → Bool
is_refused none = true
is_refused (some r) = leb 400 r.status

abbrev pub paid_id : Option Response → String
paid_id none = ""
paid_id (some r) = payment_id_of r.body

module _ (env : Env) where
  abbrev answered : Response × World → Result Error (Option Response) × World
  answered (r, w) = (ok (if env.fails w.tick then none else some r), next_call w)

  -- `client.Do(req)`: the request may be lost before the gateway, and the answer after it.
  unfoldable pub call_gateway : Request → Act (Option Response)
  call_gateway r w =
      if env.fails w.tick
      then (ok none, next_call w)
      else answered (payments_route env r (next_call w))

  abbrev pub refuse : String → Subscription → Act Unit
  refuse invoice_id s = do
    attempt (pool_exec env (mark_uncollectible invoice_id))
    attempt (pool_exec env (mark_past_due s.id))
    pure tt

  -- The errors of the three statements are dropped.
  abbrev pub settle_invoice : String → String → Subscription → Act Unit
  settle_invoice payment_id invoice_id s = do
    attempt (tx_exec env (mark_paid payment_id invoice_id))
    attempt (tx_exec env (extend_period s.id))
    attempt (commit env)
    pure tt

  -- A transaction that could not begin is nil, and the deferred call on it ends the process.
  abbrev pub in_begun : Result Error Unit → Act Unit → Act Unit
  in_begun (ok _) m = rolling_back m
  in_begun (err e) m = raise (message "nil pointer dereference")

  abbrev pub record_charge : String → String → Subscription → Act Unit
  record_charge payment_id invoice_id s = do
    begun ← attempt (begin env)
    in_begun begun (settle_invoice payment_id invoice_id s)

  abbrev pub conclude : String → Subscription → Option Response → Act Unit
  conclude invoice_id s response =
      if is_refused response
      then refuse invoice_id s
      else record_charge (paid_id response) invoice_id s

  abbrev pub charge_invoiced : String → Subscription → Result Error Unit → Act Unit
  charge_invoiced invoice_id s (err e) = pure tt
  charge_invoiced invoice_id s (ok _) = do
    response ← call_gateway (billing_request invoice_id s)
    conclude invoice_id s response

  -- `chargeSubscription`.
  unfoldable pub charge_subscription : Subscription → Act Unit
  charge_subscription s = do
    invoice_id ← generate env "in_"
    invoiced ← attempt (pool_exec env (insert_invoice (draft_invoice invoice_id s)))
    charge_invoiced invoice_id s invoiced

  unfoldable pub charge_all : List Subscription → Act Unit
  charge_all [] = pure tt
  charge_all (s ∷ rows) = do charge_subscription s; charge_all rows

  abbrev pub charge_found : Result Error (List Subscription) → Act Unit
  charge_found (err e) = pure tt
  charge_found (ok rows) = charge_all rows

  -- `processDueSubscriptions`. PostgreSQL promises no order of the rows.
  unfoldable pub process_due_subscriptions : Act Unit
  process_due_subscriptions = do
    now ← gets (λ w. w.now)
    rows ← attempt (pool_rows env (λ d. take 100 (select (is_due_at now) d.subscriptions)))
    charge_found rows

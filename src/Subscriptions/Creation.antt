-- ===== src/Subscriptions/Creation.antt =====
-- `CreateSubscription` of services/subscriptions/service/subscription_service.go, and the handler of
-- services/subscriptions/handler/subscription_handler.go.
use pay_fast_processor.Prelude.{
  ℕ, String, Bool, false, Option, none, some, List, [], ◌∷◌, ◌++◌, any, not, ◌==◌, ◌||◌,
  if◌then◌else◌,
}
use pay_fast_processor.Prelude.Int.{ℤ, pos, leb_ℤ, ltb_ℤ}
use pay_fast_processor.Store.Schema.{Db, Subscription, active}
use pay_fast_processor.Store.Sql
use pay_fast_processor.Store.Sql.{
  SqlError, unique_violation, foreign_key_violation, check_violation, Result, ok, err, Stmt,
  constrained,
}
use pay_fast_processor.Runtime.Json.{
  Json, Error, message, unmarshal, text, text_field, number_field,
}
use pay_fast_processor.Runtime.World.{Env, World}
use pay_fast_processor.Runtime.Act.{
  Act, pure, raise, wrapping, gets, ◌>>=◌, ◌>>◌, pool_exec, generate,
}
use pay_fast_processor.Books.{has_merchant}
use pay_fast_processor.Gateway.Http.{Response, json, http_error, error_text}
use pay_fast_processor.Gateway.Auth.{test_merchant}
use pay_fast_processor.Subscriptions.Calendar.{add_month, add_year}

pub record CreateSubscriptionRequest : Type 0 where
  pub merchant_id : String
  pub customer_id : String
  pub payment_method_id : String
  pub plan_id : String
  pub amount : ℤ
  pub currency : String
  pub interval : String

-- The struct `Subscription` of the answer.
pub record SubscriptionResponse : Type 0 where
  pub id : String
  pub status : String
  pub current_period_start : ℕ
  pub current_period_end : ℕ

abbrev pub subscription_constraints : Subscription → Db → List (Bool × SqlError)
subscription_constraints s d =
    (ltb_ℤ (pos 0) s.amount, check_violation)
    ∷ (not (any (λ x. x.id == s.id) d.subscriptions), unique_violation)
    ∷ (has_merchant (some s.merchant_id) d, foreign_key_violation)
    ∷ (any (λ m. m.id == s.payment_method_id) d.payment_methods, foreign_key_violation)
    ∷ []

unfoldable pub insert_subscription : Subscription → Stmt Unit
insert_subscription s d =
    constrained (subscription_constraints s d)
      (tt, record d { subscriptions = d.subscriptions ++ s ∷ [] })

abbrev pub period_end : String → ℕ → ℕ
period_end interval now = if interval == "month" then add_month now else add_year now

abbrev pub subscription_of : String → CreateSubscriptionRequest → ℕ → Subscription
subscription_of id req now = record {
  id = id;
  merchant_id = req.merchant_id;
  customer_id = req.customer_id;
  payment_method_id = req.payment_method_id;
  plan_id = req.plan_id;
  amount = req.amount;
  currency = req.currency;
  interval = req.interval;
  status = active;
  current_period_start = now;
  current_period_end = period_end req.interval now;
  created_at = now;
}

abbrev pub subscription_response : String → String → ℕ → SubscriptionResponse
subscription_response id interval now = record {
  id = id;
  status = "active";
  current_period_start = now;
  current_period_end = period_end interval now;
}

module _ (env : Env) where
  -- What follows the checks.
  unfoldable pub store_subscription : CreateSubscriptionRequest → Act SubscriptionResponse
  store_subscription req = do
    id ← generate env "sub_"
    now ← gets (λ w. w.now)
    wrapping "failed to create subscription"
        (pool_exec env (insert_subscription (subscription_of id req now)))
    pure (subscription_response id req.interval now)

  -- `CreateSubscription`.
  unfoldable pub create_subscription : CreateSubscriptionRequest → Act SubscriptionResponse
  create_subscription req =
      if leb_ℤ req.amount (pos 0)
      then raise (message "amount must be greater than zero")
      else if req.interval == "month" || req.interval == "year"
      then store_subscription req
      else raise (message "interval must be 'month' or 'year'")

unfoldable pub decode_subscription : Option Json → Result Error CreateSubscriptionRequest
decode_subscription none = err unmarshal
decode_subscription (some o) = Sql.◌>>=◌ (text_field "merchant_id" o) λ m.
    Sql.◌>>=◌ (text_field "customer_id" o) λ c. Sql.◌>>=◌ (text_field "payment_method_id" o) λ p.
      Sql.◌>>=◌ (text_field "plan_id" o) λ plan. Sql.◌>>=◌ (number_field "amount" o) λ a.
        Sql.◌>>=◌ (text_field "currency" o) λ cur. Sql.◌>>=◌ (text_field "interval" o) λ i.
          ok (record {
            merchant_id = m;
            customer_id = c;
            payment_method_id = p;
            plan_id = plan;
            amount = a;
            currency = cur;
            interval = i;
          })

-- The merchant where the request names none.
abbrev pub with_merchant : CreateSubscriptionRequest → CreateSubscriptionRequest
with_merchant req = record req {
  merchant_id = if req.merchant_id == "" then test_merchant else req.merchant_id;
}

module _ (env : Env) where
  abbrev pub subscription_json : SubscriptionResponse → Json
  subscription_json s =
      ("id", text s.id)
      ∷ ("status", text s.status)
      ∷ ("current_period_start", text (env.time_text s.current_period_start))
      ∷ ("current_period_end", text (env.time_text s.current_period_end))
      ∷ []

  abbrev subscription_answer : Result Error SubscriptionResponse → Response
  subscription_answer (ok s) = record {
    status = 201;
    body = json (subscription_json s);
    replayed = false;
  }
  subscription_answer (err e) = http_error (error_text env e) 500

  abbrev pub subscription_decoded :
      Result Error CreateSubscriptionRequest → World → Response × World
  subscription_decoded (err e) w = (http_error "invalid request payload" 400, w)
  subscription_decoded (ok req) w =
      let (result, w') = create_subscription env (with_merchant req) w in
      (subscription_answer result, w')

  -- `SubscriptionHandler.CreateSubscription`.
  unfoldable pub handle_create : Option Json → World → Response × World
  handle_create body w = subscription_decoded (decode_subscription body) w

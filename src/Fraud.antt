-- ===== src/Fraud.antt =====
-- services/fraud/service/fraud_service.go: the risk score of a payment.
pub mod Velocity
pub mod Rest
mod Tests
use pay_fast_processor.Prelude.{
  ℕ, ◌+◌, ◌%◌, String, Bool, true, false, Option, none, some, List, update, concat, ltb, eqb, ◌||◌,
  ◌==◌, if◌then◌else◌,
}
use pay_fast_processor.Prelude.Int.{ℤ, pos, ltb_ℤ}
use pay_fast_processor.Store.Schema.{Db, Payment}
use pay_fast_processor.Store.Sql
use pay_fast_processor.Store.Sql.{Result, ok, err, Stmt}
use pay_fast_processor.Runtime.Json.{Json, Error, unmarshal, text_field, number_field}
use pay_fast_processor.Runtime.World.{Env, World}
use pay_fast_processor.Runtime.Act.{
  Act, pure, lift, wrapping, attempt, ◌>>=◌, ◌>>◌, pool_exec, next_call,
}
use pay_fast_processor.Runtime.Cache.{incr, expire}

pub record PaymentEvent : Type 0 where
  pub payment_id : String
  pub amount : ℤ
  pub currency : String
  pub status : String
  pub token_id : String

-- `json.Unmarshal(eventData, &event)`.
unfoldable pub decode_event : Option Json → Result Error PaymentEvent
decode_event none = err unmarshal
decode_event (some o) = Sql.◌>>=◌ (text_field "payment_id" o) λ p.
    Sql.◌>>=◌ (number_field "amount" o) λ a. Sql.◌>>=◌ (text_field "currency" o) λ c.
      Sql.◌>>=◌ (text_field "status" o) λ s.
        Sql.◌>>=◌ (text_field "token_id" o)
          λ t. ok (record { payment_id = p; amount = a; currency = c; status = s; token_id = t })

abbrev pub velocity_key : String → String
velocity_key token_id = concat "fraud_velocity:token:" token_id

-- `rand.Intn(n)` is the environment's number below n.
abbrev pub base_score : ℕ → ℤ → ℕ
base_score r amount = if ltb_ℤ (pos 100000) amount then r % 50 + 30 else r % 50

abbrev pub with_score : ℕ → Payment → Payment
with_score s p = record p { risk_score = some s }

-- `UPDATE payments SET risk_score = $1 WHERE id = $2`.
unfoldable pub set_risk_score : ℕ → String → Stmt Unit
set_risk_score score id d =
    ok (tt, record d { payments = update (λ p. p.id == id) (with_score score) d.payments })

-- `attempts`, which is 0 where Redis had an error.
abbrev pub attempts_of : Result Error ℕ → ℕ
attempts_of (ok n) = n
attempts_of (err e) = 0

module _ (env : Env) where
  -- `simulateFraudCheck(amount)`.
  unfoldable pub simulate_fraud_check : ℤ → Act ℕ
  simulate_fraud_check amount w = (ok (base_score (env.random w.tick) amount), next_call w)

  abbrev pub open_window : String → Bool → Act Unit
  open_window key false = pure tt
  open_window key true = attempt (expire env key 60) >> pure tt

  -- The count of this token's attempts; the first opens a window of 60 seconds.
  unfoldable pub count_attempt : String → Act ℕ
  count_attempt token_id = do
    counted ← attempt (incr env (velocity_key token_id))
    open_window (velocity_key token_id) (eqb (attempts_of counted) 1)
    pure (attempts_of counted)

  unfoldable pub score : ℕ → ℤ → Act ℕ
  score attempts amount = if ltb 3 attempts then pure 90 else simulate_fraud_check amount

  unfoldable pub analyze : PaymentEvent → Act Unit
  analyze event =
      if event.status == "created" || event.status == "authorized"
      then (do
        attempts ← count_attempt event.token_id
        risk_score ← score attempts event.amount
        wrapping "failed to update risk score"
            (pool_exec env (set_risk_score risk_score event.payment_id)))
      else pure tt

  -- `FraudService.HandlePaymentEvent`.
  unfoldable pub handle_payment_event : Option Json → Act Unit
  handle_payment_event event_data = do
    event ← wrapping "failed to unmarshal event" (lift (decode_event event_data))
    analyze event

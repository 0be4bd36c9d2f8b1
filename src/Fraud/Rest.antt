-- ===== src/Fraud/Rest.antt =====
-- The fraud service changes the table of payments only.
use pay_fast_processor.Prelude.{ℕ, String, Bool, true, false, List, Option, ◌==◌, ◌||◌, eqb, ltb}
use pay_fast_processor.Prelude.Int.{ℤ}
use pay_fast_processor.Store.Schema.{Db, Payment}
use pay_fast_processor.Runtime.Json.{Json}
use pay_fast_processor.Runtime.World.{Env}
use pay_fast_processor.Runtime.Rest.{
  AtRest, AtRest-Stable, Keeping, Keeping-bind, Keeping-wrapping, Keeping-attempt, Keeping-if,
}
use pay_fast_processor.Runtime.Rest.Calls.{
  Keeping-next_call, Keeping-pool_exec, Keeping-incr, Keeping-expire,
}
use pay_fast_processor.Fraud.{
  PaymentEvent, attempts_of, open_window, set_risk_score, simulate_fraud_check, count_attempt,
  score, analyze, handle_payment_event,
}

module _ (env : Env) (P : Db → Type 0)
    (payments : (d : Db) (l : List Payment) → P d → P (record d { payments = l })) where
  open_window-AtRest :
      (key : String) (first : Bool) → Keeping (AtRest P) (open_window env key first)
  open_window-AtRest key false = λ w h. h
  open_window-AtRest key true =
      Keeping-bind _ _ _ (Keeping-attempt _ _ (Keeping-expire env P _ (AtRest-Stable P) key 60))
        (λ _ w h. h)

  count_attempt-AtRest : (token_id : String) → Keeping (AtRest P) (count_attempt env token_id)
  unfolding count_attempt
  count_attempt-AtRest token_id =
      Keeping-bind _ _ _ (Keeping-attempt _ _ (Keeping-incr env P _ (AtRest-Stable P) _)) λ counted.
        Keeping-bind _ _ _ (open_window-AtRest _ (eqb (attempts_of counted) 1)) (λ _ w h. h)

  score-AtRest : (attempts : ℕ) (amount : ℤ) → Keeping (AtRest P) (score env attempts amount)
  unfolding score simulate_fraud_check
  score-AtRest attempts amount =
      Keeping-if _ (ltb 3 attempts) _ _ (λ w h. h)
        (λ w h. Keeping-next_call env P _ (AtRest-Stable P) w h)

  analyze-AtRest : (event : PaymentEvent) → Keeping (AtRest P) (analyze env event)
  unfolding analyze set_risk_score
  analyze-AtRest event =
      Keeping-if _ (event.status == "created" || event.status == "authorized") _ _
        (Keeping-bind _ _ _ (count_attempt-AtRest event.token_id) λ attempts.
          Keeping-bind _ _ _ (score-AtRest attempts event.amount) λ risk_score.
            Keeping-wrapping _ _ _
              (Keeping-pool_exec env P _ (AtRest-Stable P) _ (λ d h. payments d _ h)))
        (λ w h. h)

  pub handle_payment_event-AtRest :
      (event_data : Option Json) → Keeping (AtRest P) (handle_payment_event env event_data)
  unfolding handle_payment_event
  handle_payment_event-AtRest event_data =
      Keeping-bind _ _ _ (Keeping-wrapping _ _ _ (λ w h. h)) analyze-AtRest

-- ===== src/Fraud/Tests.antt =====
-- The fraud service on a small database.
use pay_fast_processor.Prelude.{◌≡◌, refl, Option, some, [], ◌∷◌, inl, arith}
use pay_fast_processor.Prelude.Int.{pos}
use pay_fast_processor.Store.Sql.{ok}
use pay_fast_processor.Runtime.Json.{Json}
use pay_fast_processor.Runtime.World.{Env, World, counter}
use pay_fast_processor.Runtime.Act.{Act, ◌>>=◌, wrapping, attempt, pool_exec}
use pay_fast_processor.Runtime.Cache.{get, put, remove, incr, expire}
use pay_fast_processor.Fraud.{
  PaymentEvent, decode_event, set_risk_score, count_attempt, score, simulate_fraud_check, analyze,
  handle_payment_event, velocity_key,
}
use pay_fast_processor.Fraud.Velocity.{Scored, analyze-velocity}
use pay_fast_processor.Samples.{calm, one_created, created_event}

abbrev event : PaymentEvent
event = record {
  payment_id = "py_1";
  amount = pos 500;
  currency = "USD";
  status = "created";
  token_id = "pm_1";
}

-- The handler with all that it calls open.
run : Env → Option Json → Act Unit
unfolding handle_payment_event decode_event analyze count_attempt score simulate_fraud_check
    set_risk_score incr expire get remove attempt wrapping pool_exec ◌>>=◌
run = handle_payment_event

-- The first attempt opens a window of 60 seconds.
first_attempt :
    (handle_payment_event calm created_event one_created).1.cache
    ≡ ("fraud_velocity:token:pm_1", record { value = counter 1; expires = some 160 }) ∷ []
unfolding run
first_attempt = refl

abbrev fourth : World
fourth = record one_created {
  cache = ("fraud_velocity:token:pm_1", record { value = counter 3; expires = some 160 }) ∷ [];
}

there :
    get fourth.now (velocity_key event.token_id) fourth.cache
    ≡ some (record { value = counter 3; expires = some 160 })
unfolding run
there = refl

analyze-velocity_example :
    let (result, u) = analyze calm event fourth in
    (result ≡ ok tt)
    × Scored calm (λ n. refl) event fourth 4 u
    × (u.cache
        ≡ put
            (velocity_key event.token_id)
            (record { value = counter 4; expires = some 160 })
            fourth.cache)
    × (u.now ≡ fourth.now)
analyze-velocity_example =
    analyze-velocity calm (λ n. refl) event fourth 3 (some 160) (inl refl) (omega arith) there

-- ===== src/Webhook/Tests.antt =====
-- The webhook service on a small database.
use pay_fast_processor.Prelude.{
  String, Option, some, eqb, if◌then◌else◌, ◌≡◌, refl, [], ◌∷◌, length, map,
}
use pay_fast_processor.Prelude.Int.{pos}
use pay_fast_processor.Store.Schema.{settled}
use pay_fast_processor.Store.Sql.{ok, err}
use pay_fast_processor.Runtime.Json.{Json, message, text, number}
use pay_fast_processor.Runtime.World.{Env, World, Post}
use pay_fast_processor.Runtime.Act.{Act, ◌>>=◌, wrapping, pool_query}
use pay_fast_processor.Webhook.{
  handle_webhook_event, look_up, attempts, send_webhook, payment_merchant, merchant_endpoint,
  decode_event,
}
use pay_fast_processor.Webhook.Timing.{Sending, attempts-Timely}
use pay_fast_processor.Webhook.Delivery.{Outcome, asked, handle_webhook_event-Handled}
use pay_fast_processor.Samples.{calm, payment, db_of, at_rest_with}

-- The first request, call 2 of the environment, meets an error of the server.
abbrev busy : Env
busy = record calm { answer = λ n. some (if eqb n 2 then 503 else 204) }

abbrev shop : World
shop = at_rest_with (db_of (payment "py_1" settled (pos 500) ∷ []) [] [])

abbrev no_hmac : String → Json → String
no_hmac secret payload = ""

abbrev settled_event : Option Json
settled_event = some (
    ("event_type", text "payment.settled")
    ∷ ("payment_id", text "py_1")
    ∷ ("status", text "settled")
    ∷ ("amount", number (pos 500))
    ∷ ("currency", text "USD")
    ∷ [])

run : Act Unit
unfolding handle_webhook_event look_up attempts send_webhook payment_merchant merchant_endpoint
    decode_event ◌>>=◌ wrapping pool_query
run = handle_webhook_event busy no_hmac settled_event

-- Two posts and a pause of a second.
delivers : ((run shop).0 ≡ ok tt) × (length (run shop).1.posts ≡ 2) × ((run shop).1.now ≡ 101)
unfolding run
delivers = (refl, refl, refl)

handle_webhook_event-Handled_example :
    Outcome busy
      (asked no_hmac settled_event shop.db)
      shop
      (handle_webhook_event busy no_hmac settled_event shop)
handle_webhook_event-Handled_example =
    handle_webhook_event-Handled busy no_hmac shop settled_event refl

abbrev sample_post : Post
sample_post = record { url = "https://shop.example/hook"; signature = ""; payload = [] }

attempts-Timely_example :
    Sending busy 110 sample_post 3 1 shop (attempts busy 110 sample_post 3 1 shop)
attempts-Timely_example = attempts-Timely busy 110 sample_post 3 1 shop

-- A server that answers late: two posts, at 100 and 106, and the third attempt comes after the
-- deadline.
abbrev late : Env
late = record calm { latency = λ n. 7 }

slow : Act Unit
unfolding handle_webhook_event look_up attempts send_webhook payment_merchant merchant_endpoint
    decode_event ◌>>=◌ wrapping pool_query
slow = handle_webhook_event late no_hmac settled_event

third_unsent :
    ((slow shop).0 ≡ err (message "failed to deliver webhook after 3 attempts"))
    × (map (λ s. s.0) (slow shop).1.posts ≡ 100 ∷ 106 ∷ [])
    × ((slow shop).1.now ≡ 112)
unfolding slow
third_unsent = (refl, refl, refl)

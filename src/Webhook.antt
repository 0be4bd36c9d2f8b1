-- ===== src/Webhook.antt =====
-- services/webhook/service/webhook_service.go: a payment's event is posted to the merchant's URL.
pub mod Tried
pub mod Attempts
pub mod Timing
pub mod Delivery
pub mod Rest
mod Tests
use pay_fast_processor.Prelude.{
  ℕ, zero, suc, ◌+◌, ◌-◌, ◌*◌, String, Bool, true, false, Option, none, some, List, [], ◌∷◌, ◌++◌,
  find, leb, ltb, min, concat, ◌&&◌, ◌==◌, if◌then◌else◌,
}
use pay_fast_processor.Prelude.Int.{ℤ}
use pay_fast_processor.Store.Schema.{Db, Payment, Merchant}
use pay_fast_processor.Store.Sql
use pay_fast_processor.Store.Sql.{SqlError, no_rows, Result, ok, err, Query}
use pay_fast_processor.Runtime.Json.{
  Json, Error, message, unmarshal, text, number, text_field, number_field,
}
use pay_fast_processor.Runtime.World.{Env, World, Post}
use pay_fast_processor.Runtime.Act.{
  Act, pure, raise, lift, gets, next_call, wrapping, ◌>>=◌, ◌>>◌, pool_query,
}

pub record WebhookEvent : Type 0 where
  pub event_type : String
  pub payment_id : String
  pub status : String
  pub amount : ℤ
  pub currency : String

-- `json.Unmarshal(eventData, &event)`.
unfoldable pub decode_event : Option Json → Result Error WebhookEvent
decode_event none = err unmarshal
decode_event (some o) = Sql.◌>>=◌ (text_field "event_type" o) λ e.
    Sql.◌>>=◌ (text_field "payment_id" o) λ p. Sql.◌>>=◌ (text_field "status" o) λ s.
      Sql.◌>>=◌ (number_field "amount" o) λ a.
        Sql.◌>>=◌ (text_field "currency" o)
          λ c. ok (record { event_type = e; payment_id = p; status = s; amount = a; currency = c })

-- `json.Marshal(event)`.
abbrev pub payload_of : WebhookEvent → Json
payload_of event =
    ("event_type", text event.event_type)
    ∷ ("payment_id", text event.payment_id)
    ∷ ("status", text event.status)
    ∷ ("amount", number event.amount)
    ∷ ("currency", text event.currency)
    ∷ []

abbrev merchant_of : Option Payment → Result SqlError String
merchant_of none = err no_rows
merchant_of (some p) = ok p.merchant_id

-- `SELECT merchant_id FROM payments WHERE id = $1`.
unfoldable pub payment_merchant : String → Query String
payment_merchant id d = merchant_of (find (λ p. p.id == id) d.payments)

abbrev endpoint_of : Option Merchant → Result SqlError (Option String × Option String)
endpoint_of none = err no_rows
endpoint_of (some m) = ok (m.webhook_url, m.webhook_secret_hash)

-- `SELECT webhook_url, webhook_secret_hash FROM merchants WHERE id = $1`.
unfoldable pub merchant_endpoint : String → Query (Option String × Option String)
merchant_endpoint id d = endpoint_of (find (λ m. m.id == id) d.merchants)

-- `NullString.String`, which is empty for NULL.
abbrev pub null_string : Option String → String
null_string none = ""
null_string (some s) = s

abbrev pub is_success : Option ℕ → Bool
is_success none = false
is_success (some status) = leb 200 status && ltb status 300

abbrev pub max_retries : ℕ
max_retries = 3

-- `time.Sleep`.
abbrev pub sleep : ℕ → Act Unit
sleep seconds w = (ok tt, record w { now = w.now + seconds })

-- The pause between two attempts; there is none after the last.
abbrev pub pause : ℕ → ℕ → Act Unit
pause zero backoff = pure tt
pause (suc left) backoff = sleep backoff

module _ (hmac_hex : String → Json → String) where
  -- `signPayload(payload, secret)`.
  abbrev pub sign_payload : Json → String → String
  sign_payload payload secret = if secret == "" then "" else hmac_hex secret payload

  abbrev pub post_of : WebhookEvent → String → Option String → Post
  post_of event url secret = record {
    url = url;
    signature = sign_payload (payload_of event) (null_string secret);
    payload = payload_of event;
  }

-- `client.Timeout`, in seconds.
abbrev pub client_timeout : ℕ
client_timeout = 5

-- The seconds that a request may take which begins before the deadline of its context.
abbrev pub time_left : ℕ → ℕ → ℕ
time_left deadline now = min client_timeout (deadline - now)

module _ (env : Env) (deadline : ℕ) where
  -- The answer to the call with this number, if it comes in time.
  abbrev pub answer_within : ℕ → ℕ → Option ℕ
  answer_within limit n = if ltb (env.latency n) limit then env.answer n else none

  -- `client.Do(req)` of a request that reaches the server.
  abbrev pub round_trip : Post → Act Bool
  round_trip post w =
      let limit = time_left deadline w.now in
      (
        ok (is_success (answer_within limit w.tick)),
        record w {
          posts = w.posts ++ (w.now, post) ∷ [];
          now = w.now + min (env.latency w.tick) limit;
          tick = w.tick + 1;
        },
      )

  -- `client.Do(req)` where no connection is made: the request is not sent.
  abbrev pub unreached : Act Bool
  unreached w = (
    ok false,
    record w {
      now = w.now + min (env.latency w.tick) (time_left deadline w.now);
      tick = w.tick + 1;
    },
  )

  -- `sendWebhook`: whether the server answered with a status from 200 to 299. A text that is no URL
  -- is refused, and a request whose context has ended is not sent.
  unfoldable pub send_webhook : Post → Act Bool
  send_webhook post w =
      if env.valid_url post.url
      then if ltb w.now deadline
        then if env.fails w.tick then unreached w else round_trip post w
        else (ok false, next_call w)
      else (ok false, next_call w)

  -- The loop, by the attempts that are left and the next pause.
  unfoldable pub attempts : Post → ℕ → ℕ → Act Unit
  attempts post zero backoff = raise (message "failed to deliver webhook after 3 attempts")
  attempts post (suc left) backoff = do
    success ← send_webhook post
    elim success [
      | true ↦ pure tt
      | false ↦ (pause left backoff >> attempts post left (2 * backoff))
    ]

module _ (env : Env) where
  abbrev pub endpoint_query : String → Act (Option String × Option String)
  endpoint_query merchant_id =
      wrapping (concat "failed to find webhook info for merchant " merchant_id)
        (pool_query env (merchant_endpoint merchant_id))

  unfoldable pub look_up : WebhookEvent → Act (Option String × Option String)
  look_up event = do
    merchant_id ←
        wrapping (concat "failed to find merchant for payment " event.payment_id)
          (pool_query env (payment_merchant event.payment_id))
    endpoint_query merchant_id

module _ (env : Env) (hmac_hex : String → Json → String) where
  abbrev pub deliver : ℕ → WebhookEvent → Option String × Option String → Act Unit
  deliver deadline event (url, secret) =
      if null_string url == ""
      then pure tt
      else attempts env deadline (post_of hmac_hex event (null_string url) secret) max_retries 1

  -- `HandleWebhookEvent`, with one deadline of ten seconds for all that follows the decoding.
  unfoldable pub handle_webhook_event : Option Json → Act Unit
  handle_webhook_event event_data = do
    event ← wrapping "failed to unmarshal webhook event" (lift (decode_event event_data))
    deadline ← gets (λ w. w.now + 10)
    endpoint ← look_up env event
    deliver deadline event endpoint

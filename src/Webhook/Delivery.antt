-- ===== src/Webhook/Delivery.antt =====
-- What a delivery does: every outcome of the handler.
use pay_fast_processor.Prelude.{
  ℕ, ◌+◌, String, true, Option, none, some, ◌≡◌, refl, ◌⊎◌, inl, inr, Bool-cases, ◌==◌,
  if◌then◌else◌, concat,
}
use pay_fast_processor.Store.Schema.{Db}
use pay_fast_processor.Store.Sql
use pay_fast_processor.Store.Sql.{Result, ok, err, Query, SqlError, unavailable}
use pay_fast_processor.Runtime.Json.{Json, Error}
use pay_fast_processor.Runtime.World.{Env, World, Post, idle}
use pay_fast_processor.Runtime.Rows.{pool_query_cases}
use pay_fast_processor.Runtime.Act.{
  Act, gets, continue, wrap_error, ◌>>=◌, wrapping, as_error, next_call,
}
use pay_fast_processor.Webhook.{
  WebhookEvent, endpoint_query, decode_event, payment_merchant, merchant_endpoint, null_string,
  post_of, look_up, deliver, handle_webhook_event,
}
use pay_fast_processor.Webhook.Tried.{Ended}
use pay_fast_processor.Webhook.Attempts.{attempts-Ended}

module _ (hmac_hex : String → Json → String) where
  abbrev post_for : WebhookEvent → Option String × Option String → Option Post
  post_for event (url, secret) =
      if null_string url == "" then none else some (post_of hmac_hex event (null_string url) secret)

  abbrev asked_for : WebhookEvent → Db → Result Error String → Result Error (Option Post)
  asked_for event d found = Sql.◌>>=◌ found λ merchant_id.
      Sql.◌>>=◌ (as_error (merchant_endpoint merchant_id d))
        λ endpoint. ok (post_for event endpoint)

  -- What a message asks for: a post to the endpoint of its payment's merchant, if there is a URL.
  abbrev pub asked : Option Json → Db → Result Error (Option Post)
  asked event_data d =
      Sql.◌>>=◌ (decode_event event_data)
        λ event. asked_for event d (as_error (payment_merchant event.payment_id d))

-- Nothing was sent, and nothing else has changed.
abbrev pub Untouched : World → World → Type 0
Untouched w u =
    (u.posts ≡ w.posts)
    × (u.db ≡ w.db)
    × (u.tx ≡ w.tx)
    × (u.payment_events ≡ w.payment_events)
    × (u.webhook_events ≡ w.webhook_events)

Untouched-at : (w : World) (t : ℕ) → Untouched w (record w { tick = t })
Untouched-at w t = (refl, refl, refl, refl, refl)

-- The world after the two queries.
abbrev pub asked_at : World → World
asked_at w = record w { tick = w.tick + 1 + 1 }

module _ (env : Env) where
  -- Where a post is asked for, it is tried at most three times; where none is, nothing is sent.
  abbrev pub Handled : Result Error (Option Post) → World → Result Error Unit × World → Type 0
  Handled (err e) w (r, u) = ((x : Error) × (r ≡ err x)) × Untouched w u
  Handled (ok none) w (r, u) = (r ≡ ok tt) × Untouched w u
  Handled (ok (some post)) w result = Ended env (w.now + 10) post 3 1 (asked_at w) result

  -- A query on the connection pool broke.
  abbrev pub Broken : World → Result Error Unit × World → Type 0
  Broken w (r, u) =
      ((env.fails w.tick ≡ true) ⊎ (env.fails (w.tick + 1) ≡ true))
      × ((x : Error) × (r ≡ err x))
      × Untouched w u

  abbrev pub Outcome : Result Error (Option Post) → World → Result Error Unit × World → Type 0
  Outcome asked w result = Handled asked w result ⊎ Broken w result

module _ (env : Env) (hmac_hex : String → Json → String) where
  deliver-Handled :
      (w : World) (event : WebhookEvent) (endpoint : Option String × Option String)
      → Handled env
          (ok (post_for hmac_hex event endpoint))
          w
          (deliver env hmac_hex (w.now + 10) event endpoint (asked_at w))
  deliver-Handled w event (url, secret) = elim (Bool-cases (null_string url == "")) [
    | inl hit ↦ rw hit (refl, Untouched-at w (w.tick + 1 + 1))
    | inr miss ↦ rw miss (
        attempts-Ended env (w.now + 10) (post_of hmac_hex event (null_string url) secret) 3 1
          (asked_at w))
  ]

  abbrev after_lookup : WebhookEvent → Act Unit
  after_lookup event = do
    deadline ← gets (λ w. w.now + 10)
    endpoint ← look_up env event
    deliver env hmac_hex deadline event endpoint

  by_endpoint :
      (w : World) (event : WebhookEvent) (merchant_id : String)
      → (r : Result SqlError (Option String × Option String))
      → Outcome env (Sql.◌>>=◌ (as_error r) λ endpoint. ok (post_for hmac_hex event endpoint)) w (
          continue
            (wrap_error
              (concat "failed to find webhook info for merchant " merchant_id)
              (as_error r))
            (deliver env hmac_hex (w.now + 10) event)
            (asked_at w))
  by_endpoint w event merchant_id (err e) = inl ((_, refl), Untouched-at w (w.tick + 1 + 1))
  by_endpoint w event merchant_id (ok endpoint) = inl (deliver-Handled w event endpoint)

  by_merchant :
      (w : World) (event : WebhookEvent)
      → w.tx ≡ idle
      → (r : Result SqlError String)
      → Outcome env (asked_for hmac_hex event w.db (as_error r)) w (
          continue
            (continue
              (wrap_error
                (concat "failed to find merchant for payment " event.payment_id)
                (as_error r))
              (λ merchant_id. endpoint_query env merchant_id)
              (next_call w)).0
            (deliver env hmac_hex (w.now + 10) event)
            (continue
              (wrap_error
                (concat "failed to find merchant for payment " event.payment_id)
                (as_error r))
              (λ merchant_id. endpoint_query env merchant_id)
              (next_call w)).1)
  unfolding wrapping
  by_merchant w event closed (err e) = inl ((_, refl), Untouched-at w (w.tick + 1))
  by_merchant w event closed (ok merchant_id) =
      elim (pool_query_cases env (merchant_endpoint merchant_id) (next_call w) closed) [
        | inl broken ↦ rw broken.1 (inr (inr broken.0, (_, refl), Untouched-at w (w.tick + 1 + 1)))
        | inr works ↦
            rw works (by_endpoint w event merchant_id (merchant_endpoint merchant_id w.db))
      ]

  -- With no transaction open, a webhook message ends in one of four ways. It is no such message, or
  -- its payment or merchant does not exist: an error, and nothing sent. The merchant has no URL:
  -- success, and nothing sent. A query breaks: an error, and nothing sent. Or else the post to the
  -- merchant's URL, signed by its secret, is tried at most three times with one deadline, ten seconds
  -- after the start: success at the first attempt that is answered with a status from 200 to 299 in
  -- time, and an error only when three attempts have failed, each for one of these reasons: the URL
  -- is none, the deadline has passed, no connection is made, no answer comes within five seconds and
  -- before the deadline, or the answer has another status. An attempt that fails by one of the first
  -- three has sent nothing. A pause of one second follows the first attempt, and of two the second.
  -- The database and the topics are as before.
  pub handle_webhook_event-Handled :
      (w : World) (event_data : Option Json)
      → w.tx ≡ idle
      → Outcome env
          (asked hmac_hex event_data w.db)
          w
          (handle_webhook_event env hmac_hex event_data w)
  unfolding handle_webhook_event look_up ◌>>=◌ wrapping
  handle_webhook_event-Handled w event_data closed = by_event (decode_event event_data)
    where
      by_event :
          (r : Result Error WebhookEvent)
          → Outcome env
              (Sql.◌>>=◌ r λ event.
                asked_for hmac_hex event w.db (as_error (payment_merchant event.payment_id w.db)))
              w
              (continue (wrap_error "failed to unmarshal webhook event" r) after_lookup w)
      by_event (err e) = inl ((_, refl), Untouched-at w w.tick)
      by_event (ok event) =
          elim (pool_query_cases env (payment_merchant event.payment_id) w closed) [
            | inl broken ↦ rw broken.1 (inr (inl broken.0, (_, refl), Untouched-at w (w.tick + 1)))
            | inr works ↦
                rw works (by_merchant w event closed (payment_merchant event.payment_id w.db))
          ]

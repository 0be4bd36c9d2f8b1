-- ===== src/Webhook/Rest.antt =====
-- The webhook service changes no table.
use pay_fast_processor.Prelude.{
  ℕ, zero, suc, ◌*◌, String, Bool, true, false, Option, ◌==◌, ltb, Bool-cases, inl, inr,
}
use pay_fast_processor.Store.Schema.{Db}
use pay_fast_processor.Runtime.Json.{Json}
use pay_fast_processor.Runtime.World.{Env, Post}
use pay_fast_processor.Runtime.Act.{Act, pure}
use pay_fast_processor.Runtime.Rest.{
  AtRest, AtRest-Stable, Keeping, Keeping-bind, Keeping-wrapping, Keeping-if,
}
use pay_fast_processor.Runtime.Rest.Calls.{Keeping-pool_query}
use pay_fast_processor.Webhook.{
  WebhookEvent, send_webhook, pause, attempts, look_up, deliver, null_string, handle_webhook_event,
}

module _ (env : Env) (hmac_hex : String → Json → String) (P : Db → Type 0) where
  pause-AtRest : (left backoff : ℕ) → Keeping (AtRest P) (pause left backoff)
  pause-AtRest zero backoff = λ w h. h
  pause-AtRest (suc left) backoff = λ w h. record { holds = h.holds; closed = h.closed }

  send_webhook-AtRest :
      (deadline : ℕ) (post : Post) → Keeping (AtRest P) (send_webhook env deadline post)
  unfolding send_webhook
  send_webhook-AtRest deadline post w h = elim (Bool-cases (env.valid_url post.url)) [
    | inr wrong ↦ rw wrong (record { holds = h.holds; closed = h.closed })
    | inl valid ↦ elim (Bool-cases (ltb w.now deadline)) [
      | inr over ↦ rw (valid, over) (record { holds = h.holds; closed = h.closed })
      | inl ahead ↦ elim (Bool-cases (env.fails w.tick)) [
        | inl broken ↦ rw (valid, ahead, broken) (record { holds = h.holds; closed = h.closed })
        | inr works ↦ rw (valid, ahead, works) (record { holds = h.holds; closed = h.closed })
      ]
    ]
  ]

  unless_delivered :
      (m : Act Unit)
      → Keeping (AtRest P) m
      → (success : Bool) → Keeping (AtRest P) (elim success [ true ↦ pure tt | false ↦ m ])
  unless_delivered m k true = λ w h. h
  unless_delivered m k false = k

  attempts-AtRest :
      (deadline : ℕ) (post : Post) (left backoff : ℕ)
      → Keeping (AtRest P) (attempts env deadline post left backoff)
  unfolding attempts
  attempts-AtRest deadline post zero backoff = λ w h. h
  attempts-AtRest deadline post (suc left) backoff =
      Keeping-bind _ _ _ (send_webhook-AtRest deadline post) (
        unless_delivered _ (
          Keeping-bind _ _ _ (pause-AtRest left backoff)
            λ _. attempts-AtRest deadline post left (2 * backoff)))

  look_up-AtRest : (event : WebhookEvent) → Keeping (AtRest P) (look_up env event)
  unfolding look_up
  look_up-AtRest event =
      Keeping-bind _ _ _ (Keeping-wrapping _ _ _ (Keeping-pool_query env P _ (AtRest-Stable P) _))
        λ merchant_id. Keeping-wrapping _ _ _ (Keeping-pool_query env P _ (AtRest-Stable P) _)

  deliver-AtRest :
      (deadline : ℕ) (event : WebhookEvent) (endpoint : Option String × Option String)
      → Keeping (AtRest P) (deliver env hmac_hex deadline event endpoint)
  deliver-AtRest deadline event (url, secret) =
      Keeping-if _ (null_string url == "") _ _ (λ w h. h) (attempts-AtRest deadline _ 3 1)

  pub handle_webhook_event-AtRest :
      (event_data : Option Json) → Keeping (AtRest P) (handle_webhook_event env hmac_hex event_data)
  unfolding handle_webhook_event
  handle_webhook_event-AtRest event_data =
      Keeping-bind _ _ _ (Keeping-wrapping _ _ _ (λ w h. h)) λ event.
        Keeping-bind _ _ _ (λ w h. h)
          λ deadline. Keeping-bind _ _ _ (look_up-AtRest event) (deliver-AtRest deadline event)

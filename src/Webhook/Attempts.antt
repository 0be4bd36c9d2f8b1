-- ===== src/Webhook/Attempts.antt =====
-- The attempts of a delivery, one by one, under the deadline of the delivery.
use pay_fast_processor.Prelude.{
  ℕ, zero, suc, ◌+◌, ◌-◌, ◌*◌, ◌≤◌, ◌<◌, min, Bool, true, false, [], ◌∷◌, ◌++◌, ◌≡◌, refl, ◌⊎◌, inl,
  inr, Bool-cases, append_assoc, append-nil, ◌∙◌, sym, ap, subst, arith, ltb,
}
use pay_fast_processor.Store.Sql.{Result, ok}
use pay_fast_processor.Runtime.Json.{Error}
use pay_fast_processor.Runtime.World.{Env, World, Post}
use pay_fast_processor.Runtime.Act.{pure, continue, ◌>>=◌, ◌>>◌, next_call}
use pay_fast_processor.Webhook.{is_success, time_left, round_trip, send_webhook, attempts, pause}
use pay_fast_processor.Webhook.Tried.{
  Sendings, Missed, malformed, expired, unconnected, unanswered, refused, Met, none_left, met,
  missed_last, missed, Ended,
}

module _ (env : Env) (deadline : ℕ) (post : Post) where
  -- One attempt of the code.
  pub data Attempted (w : World) : Result Error Bool × World → Type 0 where
    succeeds :
        Met env deadline post w.now w.tick
        → Attempted w (
          ok true,
          record w {
            posts = w.posts ++ (w.now, post) ∷ [];
            now = w.now + env.latency w.tick;
            tick = w.tick + 1;
          },
        )
    fails :
        (d : ℕ) (l : Sendings)
        → Missed env deadline post w.now w.tick d l
        → Attempted w
            (ok false, record w { posts = w.posts ++ l; now = w.now + d; tick = w.tick + 1 })

  whole : (a l : ℕ) → ltb a l ≡ true → min a l ≡ a
  whole a l early = ground arith

  within :
      (a t : ℕ) → ltb a (time_left deadline t) ≡ true → t < deadline → (a < 5) × (t + a < deadline)
  within a t early in_time = (ground arith, ground arith)

  too_late : (a t : ℕ) → ltb a (time_left deadline t) ≡ false → (5 ≤ a) ⊎ (deadline ≤ t + a)
  too_late a t late = elim (Bool-cases (ltb a 5)) [
    | inl few ↦ inr (ground arith)
    | inr many ↦ inl (ground arith)
  ]

  all_of :
      (a t : ℕ)
      → ltb a (time_left deadline t) ≡ false
      → t < deadline
      → (min a (time_left deadline t) ≡ 5) ⊎ (t + min a (time_left deadline t) ≡ deadline)
  all_of a t late in_time = elim (Bool-cases (ltb (deadline - t) 5)) [
    | inl few ↦ inr (ground arith)
    | inr many ↦ inl (ground arith)
  ]

  unsent :
      (w : World) (d : ℕ)
      → Missed env deadline post w.now w.tick d []
      → Attempted w (ok false, record w { now = w.now + d; tick = w.tick + 1 })
  unsent w d h =
      subst
        (λ l. Attempted w (ok false, record w { posts = l; now = w.now + d; tick = w.tick + 1 }))
        (append-nil w.posts) (fails d [] h)

  not_sent :
      (w : World) → Missed env deadline post w.now w.tick 0 [] → Attempted w (ok false, next_call w)
  not_sent w h =
      subst (λ t. Attempted w (ok false, record w { now = t; tick = w.tick + 1 })) (omega arith)
        (unsent w 0 h)

  round_trip_lem :
      (w : World)
      → env.valid_url post.url ≡ true
      → env.fails w.tick ≡ false
      → w.now < deadline
      → Attempted w (round_trip env deadline post w)
  round_trip_lem w valid connected in_time =
      elim (Bool-cases (ltb (env.latency w.tick) (time_left deadline w.now))) [
        | inr late ↦ rw late (
            fails _ _ (
              unanswered _ in_time (too_late _ _ late) (all_of _ _ late in_time) (ground arith)
                (ground arith)))
        | inl early ↦ elim (Bool-cases (is_success (env.answer w.tick))) [
          | inl hit ↦
              rw (early, hit, whole _ _ early)
                (succeeds (record {
                  valid = valid;
                  connected = connected;
                  in_time = within _ _ early in_time;
                  success = hit;
                }))
          | inr miss ↦
              rw (early, miss, whole _ _ early)
                (fails _ _ (refused (within _ _ early in_time) miss))
        ]
      ]

  send_webhook_lem : (w : World) → Attempted w (send_webhook env deadline post w)
  unfolding send_webhook
  send_webhook_lem w = elim (Bool-cases (env.valid_url post.url)) [
    | inr wrong ↦ rw wrong (not_sent w (malformed wrong))
    | inl valid ↦ elim (Bool-cases (ltb w.now deadline)) [
      | inr over ↦ rw (valid, over) (not_sent w (expired (ground arith)))
      | inl ahead ↦ elim (Bool-cases (env.fails w.tick)) [
        | inl broken ↦
            rw (valid, ahead, broken)
              (unsent w _ (unconnected _ (ground arith) broken (ground arith) (ground arith)))
        | inr connected ↦
            rw (valid, ahead, connected) (round_trip_lem w valid connected (ground arith))
      ]
    ]
  ]

  Ended-before :
      (left backoff d : ℕ) (l : Sendings) (w : World) (o : Result Error Unit × World)
      → Missed env deadline post w.now w.tick d l
      → Ended env deadline post
          (suc left)
          (2 * backoff)
          (record w { posts = w.posts ++ l; now = w.now + d + backoff; tick = w.tick + 1 })
          o
      → Ended env deadline post (suc (suc left)) backoff w o
  Ended-before left backoff d l w o miss h = record {
    delivered = h.delivered;
    end = h.end;
    calls = h.calls;
    sent = l ++ h.sent;
    tried = missed left backoff w.now w.tick d l h.delivered h.end h.calls h.sent miss h.tried;
    result = h.result;
    world =
        h.world
        ∙ ap (λ ps. record w { posts = ps; now = h.end; tick = h.calls })
            (append_assoc w.posts l h.sent);
  }

  -- The code's loop is a run of that many attempts.
  pub attempts-Ended :
      (left backoff : ℕ) (w : World)
      → Ended env deadline post left backoff w (attempts env deadline post left backoff w)
  unfolding attempts ◌>>=◌
  attempts-Ended zero backoff w = record {
    delivered = false;
    end = w.now;
    calls = w.tick;
    sent = [];
    tried = none_left backoff w.now w.tick;
    result = refl;
    world = ap (λ ps. record w { posts = ps }) (sym (append-nil w.posts));
  }
  attempts-Ended (suc left) backoff w =
      after left (attempts-Ended left (2 * backoff)) (send_webhook_lem w)
    where
      after :
          (left : ℕ)
          → ((v : World)
              → Ended env deadline post left
                  (2 * backoff)
                  v
                  (attempts env deadline post left (2 * backoff) v))
          → {o : Result Error Bool × World} → Attempted w o
          → Ended env deadline post (suc left) backoff w (
              continue o.0
                (λ success. elim success [
                  | true ↦ pure tt
                  | false ↦ (pause left backoff >> attempts env deadline post left (2 * backoff))
                ])
                o.1)
      after left rest (succeeds m) = record {
        delivered = true;
        end = w.now + env.latency w.tick;
        calls = w.tick + 1;
        sent = (w.now, post) ∷ [];
        tried = met left backoff w.now w.tick m;
        result = refl;
        world = refl;
      }
      after zero rest (fails d l m) = record {
        delivered = false;
        end = w.now + d;
        calls = w.tick + 1;
        sent = l;
        tried = missed_last backoff w.now w.tick d l m;
        result = refl;
        world = refl;
      }
      after (suc left) rest (fails d l m) = Ended-before left backoff d l w _ m (rest _)

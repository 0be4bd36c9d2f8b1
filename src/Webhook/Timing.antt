-- ===== src/Webhook/Timing.antt =====
-- When the posts of a delivery are sent, and when it ends.
use pay_fast_processor.Prelude.{
  ℕ, zero, suc, ◌+◌, ◌*◌, ◌≤◌, ◌<◌, Bool, true, false, [], ◌∷◌, ◌++◌, ◌≡◌, refl, ◌⊎◌, inl, inr, sym,
  ap, subst, ◌∙◌, arith, All, length, append_assoc,
}
use pay_fast_processor.Store.Sql.{Result, ok}
use pay_fast_processor.Runtime.Json.{Error}
use pay_fast_processor.Runtime.World.{Env, World, Post}
use pay_fast_processor.Webhook.{attempts}
use pay_fast_processor.Webhook.Tried.{
  Sendings, Missed, malformed, expired, unconnected, unanswered, refused, Met, Tried, none_left,
  met, missed_last, missed, result_of, Ended,
}
use pay_fast_processor.Webhook.Attempts.{attempts-Ended}

-- The pauses between so many attempts, the first of them this long.
abbrev pub pauses : ℕ → ℕ → ℕ
pauses zero backoff = 0
pauses (suc zero) backoff = 0
pauses (suc (suc left)) backoff = backoff + pauses (suc left) (2 * backoff)

-- Each post is sent this much after the one before it, and twice as much after the next.
abbrev pub Spaced : ℕ → Sendings → Type 0
Spaced b [] = Unit
Spaced b (x ∷ []) = Unit
Spaced b (x ∷ y ∷ l) = (x.0 + b ≤ y.0) × Spaced (2 * b) (y ∷ l)

Spaced-weaker : (b c : ℕ) (l : Sendings) → b ≤ c → Spaced c l → Spaced b l
Spaced-weaker b c [] le h = tt
Spaced-weaker b c (x ∷ []) le h = tt
Spaced-weaker b c (x ∷ y ∷ l) le h =
    (omega (arith, le, h.0), Spaced-weaker (2 * b) (2 * c) (y ∷ l) (omega (arith, le)) h.1)

module _ (env : Env) (deadline : ℕ) (post : Post) where
  -- Each is a copy of the post, sent from a second on and before the deadline.
  abbrev pub SentFrom : ℕ → Sendings → Type 0
  SentFrom t = All (λ s. (t ≤ s.0) × (s.0 < deadline) × (s.1 ≡ post))

  -- What so many attempts from a second on may send, and how long they take.
  pub record Timely (left backoff t t' : ℕ) (l : Sendings) : Type 0 where
    pub sent : SentFrom t l
    pub spaced : Spaced backoff l
    pub few : length l ≤ left
    pub ends : t' ≤ t + 5 * left + pauses left backoff

  SentFrom-earlier : (t u : ℕ) (l : Sendings) → t ≤ u → SentFrom u l → SentFrom t l
  SentFrom-earlier t u [] le h = tt
  SentFrom-earlier t u (s ∷ l) le h =
      ((omega (arith, le, h.0.0), h.0.1, h.0.2), SentFrom-earlier t u l le h.1)

  -- An attempt that fails sends nothing or one post, in five seconds.
  Missed-cases :
      (t n d : ℕ) (l : Sendings)
      → Missed env deadline post t n d l
      → ((l ≡ []) ⊎ ((l ≡ (t, post) ∷ []) × (t < deadline))) × (d ≤ 5)
  Missed-cases t n _ _ (malformed _) = (inl refl, omega arith)
  Missed-cases t n _ _ (expired _) = (inl refl, omega arith)
  Missed-cases t n _ _ (unconnected d _ _ few _) = (inl refl, few)
  Missed-cases t n _ _ (unanswered d early _ _ few _) = (inr (refl, early), few)
  Missed-cases t n _ _ (refused in_time _) =
      (inr (refl, omega (arith, in_time.0, in_time.1)), omega (arith, in_time.0))

  one_sent : (t : ℕ) → t < deadline → SentFrom t ((t, post) ∷ [])
  one_sent t early = ((omega arith, early, refl), tt)

  Timely-after :
      (left backoff t d t' : ℕ) (l more : Sendings)
      → ((l ≡ []) ⊎ ((l ≡ (t, post) ∷ []) × (t < deadline)))
      → d ≤ 5
      → Timely (suc left) (2 * backoff) (t + d + backoff) t' more
      → Timely (suc (suc left)) backoff t t' (l ++ more)
  Timely-after left backoff t d t' l more (inl none) five h = rw none (record {
    sent = SentFrom-earlier t (t + d + backoff) more (omega arith) h.sent;
    spaced = Spaced-weaker backoff (2 * backoff) more (omega arith) h.spaced;
    few = omega (arith, h.few);
    ends = omega (arith, h.ends, five);
  })
  Timely-after left backoff t d t' l more (inr (one, early)) five h = rw one (record {
    sent = (
      (omega arith, early, refl),
      SentFrom-earlier t (t + d + backoff) more (omega arith) h.sent,
    );
    spaced = spaced_after more h.sent h.spaced;
    few = omega (arith, h.few);
    ends = omega (arith, h.ends, five);
  })
    where
      spaced_after :
          (more : Sendings)
          → SentFrom (t + d + backoff) more
          → Spaced (2 * backoff) more
          → Spaced backoff ((t, post) ∷ more)
      spaced_after [] s p = tt
      spaced_after (y ∷ more) s p = (omega (arith, s.0.0), p)

  Timely-once :
      (backoff t d : ℕ) (l : Sendings)
      → ((l ≡ []) ⊎ ((l ≡ (t, post) ∷ []) × (t < deadline)))
      → d ≤ 5
      → Timely 1 backoff t (t + d) l
  Timely-once backoff t d l (inl none) five =
      rw none (record { sent = tt; spaced = tt; few = omega arith; ends = omega (arith, five) })
  Timely-once backoff t d l (inr (one, early)) five = rw one (record {
    sent = one_sent t early;
    spaced = tt;
    few = omega arith;
    ends = omega (arith, five);
  })

  Tried-Timely :
      (left backoff t n : ℕ) (b : Bool) (t' n' : ℕ) (l : Sendings)
      → Tried env deadline post left backoff t n b t' n' l
      → Timely left backoff t t' l
  Tried-Timely _ _ _ _ _ _ _ _ (none_left backoff t n) = record {
    sent = tt;
    spaced = tt;
    few = omega arith;
    ends = omega arith;
  }
  Tried-Timely _ _ _ _ _ _ _ _ (met left backoff t n m) = record {
    sent = one_sent t (omega (arith, m.in_time.1));
    spaced = tt;
    few = omega arith;
    ends = omega (arith, m.in_time.0);
  }
  Tried-Timely _ _ _ _ _ _ _ _ (missed_last backoff t n d l m) =
      let c = Missed-cases t n d l m in Timely-once backoff t d l c.0 c.1
  Tried-Timely _ _ _ _ _ _ _ _ (missed left backoff t n d l b t' n' more m rest) =
      let c = Missed-cases t n d l m in
      Timely-after left backoff t d t' l more c.0 c.1 (Tried-Timely _ _ _ _ _ _ _ _ rest)

  -- The last post of these was answered with a status from 200 to 299, in time, and the loop ends
  -- with that answer.
  pub record Answered (t' n' : ℕ) (l : Sendings) : Type 0 where
    pub at : ℕ
    pub call : ℕ
    pub answered : Met env deadline post at call
    pub earlier : Sendings
    pub last : l ≡ earlier ++ (at, post) ∷ []
    pub end : t' ≡ at + env.latency call
    pub calls : n' ≡ call + 1

  Tried-Answered :
      (left backoff t n : ℕ) (b : Bool) (t' n' : ℕ) (l : Sendings)
      → Tried env deadline post left backoff t n b t' n' l
      → b ≡ true
      → Answered t' n' l
  Tried-Answered _ _ _ _ _ _ _ _ (none_left backoff t n) e = cc e
  Tried-Answered _ _ _ _ _ _ _ _ (met left backoff t n m) e = record {
    at = t;
    call = n;
    answered = m;
    earlier = [];
    last = refl;
    end = refl;
    calls = refl;
  }
  Tried-Answered _ _ _ _ _ _ _ _ (missed_last backoff t n d l m) e = cc e
  Tried-Answered _ _ _ _ _ _ _ _ (missed left backoff t n d l b t' n' more m rest) e =
      let a = Tried-Answered _ _ _ _ b t' n' more rest e in
      record {
        at = a.at;
        call = a.call;
        answered = a.answered;
        earlier = l ++ a.earlier;
        last = ap (λ k. l ++ k) a.last ∙ sym (append_assoc l a.earlier ((a.at, post) ∷ []));
        end = a.end;
        calls = a.calls;
      }

  -- What a loop of so many attempts does.
  pub record Sending (left backoff : ℕ) (w : World) (o : Result Error Unit × World) : Type 0 where
    pub sent : Sendings
    pub posts : o.1.posts ≡ w.posts ++ sent
    pub timely : Timely left backoff w.now o.1.now sent
    pub success : o.0 ≡ ok tt → Answered o.1.now o.1.tick sent
    pub elsewhere : o.1 ≡ record w { posts = o.1.posts; now = o.1.now; tick = o.1.tick }

  is_delivered : (b : Bool) → result_of env deadline post b ≡ ok tt → b ≡ true
  is_delivered true e = refl
  is_delivered false e = cc e

  -- Whatever the server and the network do, a loop of `left` attempts ends, after at most five
  -- seconds for each attempt and the pauses between them. It sends at most `left` copies of the
  -- post, none of them at or after the deadline, and each at least the pause after the one before,
  -- where the pause doubles each time. If it returns success, the last copy was answered with a
  -- status from 200 to 299 within five seconds and before the deadline, and nothing was done after
  -- that answer. But for the posts, the time and the number of calls, the world is as before.
  pub attempts-Timely :
      (left backoff : ℕ) (w : World)
      → Sending left backoff w (attempts env deadline post left backoff w)
  attempts-Timely left backoff w =
      let h = attempts-Ended env deadline post left backoff w in of_run _ h
    where
      of_run :
          (o : Result Error Unit × World)
          → Ended env deadline post left backoff w o
          → Sending left backoff w o
      of_run (r, u) h = record {
        sent = h.sent;
        posts = ap (λ (v : World). v.posts) h.world;
        timely =
            subst (λ (v : World). Timely left backoff w.now v.now h.sent) (sym h.world)
              (Tried-Timely left backoff w.now w.tick h.delivered h.end h.calls h.sent h.tried);
        success = λ fine.
            subst (λ (v : World). Answered v.now v.tick h.sent) (sym h.world)
              (Tried-Answered left backoff w.now w.tick h.delivered h.end h.calls h.sent h.tried
                (is_delivered h.delivered (sym h.result ∙ fine)));
        elsewhere =
            subst (λ (v : World). v ≡ record w { posts = v.posts; now = v.now; tick = v.tick })
              (sym h.world) refl;
      }

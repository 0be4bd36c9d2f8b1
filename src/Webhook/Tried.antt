-- ===== src/Webhook/Tried.antt =====
-- What attempts at a delivery do, under its deadline.
use pay_fast_processor.Prelude.{
  ℕ, suc, ◌+◌, ◌*◌, ◌≤◌, ◌<◌, Bool, true, false, List, [], ◌∷◌, ◌++◌, ◌≡◌, ◌⊎◌,
}
use pay_fast_processor.Store.Sql.{Result, ok, err}
use pay_fast_processor.Runtime.Json.{Error, message}
use pay_fast_processor.Runtime.World.{Env, World, Post}
use pay_fast_processor.Webhook.{is_success}

abbrev pub Sendings : Type 0
Sendings = List (ℕ × Post)

module _ (env : Env) (deadline : ℕ) (post : Post) where
  -- The call `n`, made at second `t`, has an answer in time: within five seconds, and before the
  -- deadline.
  abbrev pub InTime : ℕ → ℕ → Type 0
  InTime t n = (env.latency n < 5) × (t + env.latency n < deadline)

  -- An attempt at second `t`, as call `n`, that fails after so many seconds, having sent this.
  pub data Missed (t n : ℕ) : ℕ → Sendings → Type 0 where
    malformed : env.valid_url post.url ≡ false → Missed t n 0 []
    expired : deadline ≤ t → Missed t n 0 []
    unconnected :
        (d : ℕ) → t < deadline → env.fails n ≡ true → d ≤ 5 → t + d ≤ deadline → Missed t n d []
    unanswered :
        (d : ℕ)
        → t < deadline
        → (5 ≤ env.latency n) ⊎ (deadline ≤ t + env.latency n)
        → (d ≡ 5) ⊎ (t + d ≡ deadline)
        → d ≤ 5
        → t + d ≤ deadline
        → Missed t n d ((t, post) ∷ [])
    refused :
        InTime t n → is_success (env.answer n) ≡ false → Missed t n (env.latency n) ((t, post) ∷ [])

  -- An attempt that a server answers with a status from 200 to 299.
  pub record Met (t n : ℕ) : Type 0 where
    pub valid : env.valid_url post.url ≡ true
    pub connected : env.fails n ≡ false
    pub in_time : InTime t n
    pub success : is_success (env.answer n) ≡ true

  -- So many attempts, the first at second `t` as call `n` and with this pause after it: whether one
  -- succeeds, the second and the next call after the last, and what they send.
  pub data Tried : ℕ → ℕ → ℕ → ℕ → Bool → ℕ → ℕ → Sendings → Type 0 where
    none_left : (backoff t n : ℕ) → Tried 0 backoff t n false t n []
    met :
        (left backoff t n : ℕ)
        → Met t n
        → Tried (suc left) backoff t n true (t + env.latency n) (n + 1) ((t, post) ∷ [])
    missed_last :
        (backoff t n d : ℕ) (l : Sendings)
        → Missed t n d l
        → Tried 1 backoff t n false (t + d) (n + 1) l
    missed :
        (left backoff t n d : ℕ) (l : Sendings) (b : Bool) (t' n' : ℕ) (more : Sendings)
        → Missed t n d l
        → Tried (suc left) (2 * backoff) (t + d + backoff) (n + 1) b t' n' more
        → Tried (suc (suc left)) backoff t n b t' n' (l ++ more)

  abbrev pub result_of : Bool → Result Error Unit
  result_of true = ok tt
  result_of false = err (message "failed to deliver webhook after 3 attempts")

  -- The loop ends as so many attempts do, and does nothing else.
  pub record Ended (left backoff : ℕ) (w : World) (o : Result Error Unit × World) : Type 0 where
    pub delivered : Bool
    pub end : ℕ
    pub calls : ℕ
    pub sent : Sendings
    pub tried : Tried left backoff w.now w.tick delivered end calls sent
    pub result : o.0 ≡ result_of delivered
    pub world : o.1 ≡ record w { posts = w.posts ++ sent; now = end; tick = calls }

-- ===== src/Runtime/Rest/Calls.antt =====
-- Calls of the environment and statements on the pool keep what holds between two operations.
use pay_fast_processor.Prelude.{
  ◌≡◌, List, ℕ, ◌+◌, Option, none, some, is_some, String, refl, inl, inr, Bool-cases,
}
use pay_fast_processor.Store.Schema.{Db}
use pay_fast_processor.Store.Sql.{Result, ok, err, SqlError, Stmt, Query}
use pay_fast_processor.Runtime.Json.{Json}
use pay_fast_processor.Runtime.World.{Env, World, CacheEntry, CacheValue, locked, counter}
use pay_fast_processor.Runtime.Transaction.{Leads}
use pay_fast_processor.Runtime.Act.{
  committed, next_call, pool_result, read_result, pool_query, pool_exec, generate, nano_text,
  publish_payment_event, publish_webhook_event,
}
use pay_fast_processor.Runtime.Cache.{get, set_nx, del, incr, expire, counted, expiring}
use pay_fast_processor.Runtime.Rows.{pool_rows}
use pay_fast_processor.Runtime.Rest.{AtRest, Moves, Keeping, Stable}

module _ (env : Env) (P : Db → Type 0) (W : World → Type 0) (stable : Stable P W) where
  pub Keeping-next_call : (w : World) → W w → W (next_call w)
  Keeping-next_call w h = stable.replace w (next_call w) refl (stable.holds w h) h

  pub Keeping-generate : (prefix : String) → Keeping W (generate env prefix)
  unfolding generate
  Keeping-generate prefix w h = Keeping-next_call w h

  pub Keeping-nano_text : Keeping W (nano_text env)
  unfolding nano_text
  Keeping-nano_text w h = Keeping-next_call w h

  pub Keeping-publish_payment_event :
      (k : String) (v : Json) → Keeping W (publish_payment_event env k v)
  unfolding publish_payment_event
  Keeping-publish_payment_event k v w h = elim (Bool-cases (env.fails w.tick)) [
    | inl broken ↦ rw broken (Keeping-next_call w h)
    | inr works ↦ rw works (stable.replace w _ refl (stable.holds w h) h)
  ]

  pub Keeping-publish_webhook_event :
      (k : String) (v : Json) → Keeping W (publish_webhook_event env k v)
  unfolding publish_webhook_event
  Keeping-publish_webhook_event k v w h = elim (Bool-cases (env.fails w.tick)) [
    | inl broken ↦ rw broken (Keeping-next_call w h)
    | inr works ↦ rw works (stable.replace w _ refl (stable.holds w h) h)
  ]

  module _ {A : Type 0} where
    pub Keeping-pool_query : (q : Query A) → Keeping W (pool_query env q)
    unfolding pool_query
    Keeping-pool_query q w h = elim (Bool-cases (env.fails w.tick)) [
      | inl broken ↦ rw broken (Keeping-next_call w h)
      | inr works ↦ rw works (read_lem (q (committed w)))
    ]
      where
        read_lem : (r : Result SqlError A) → W (read_result (next_call w) r).1
        read_lem (ok a) = Keeping-next_call w h
        read_lem (err e) = Keeping-next_call w h

    pub Keeping-pool_rows : (q : Db → List A) → Keeping W (pool_rows env q)
    unfolding pool_rows
    Keeping-pool_rows q w h = elim (Bool-cases (env.fails w.tick)) [
      | inl broken ↦ rw broken (Keeping-next_call w h)
      | inr works ↦ rw works (Keeping-next_call (next_call w) (Keeping-next_call w h))
    ]

    pub Keeping-pool_exec : (s : Stmt A) → Moves P P s → Keeping W (pool_exec env s)
    unfolding pool_exec
    Keeping-pool_exec s moves w h = elim (Bool-cases (env.fails w.tick)) [
      | inl broken ↦ rw broken (Keeping-next_call w h)
      | inr works ↦ rw works (exec_lem (s w.db) (moves w.db (stable.holds w h)))
    ]
      where
        exec_lem :
            (r : Result SqlError (A × Db)) → Leads (λ _. P) r → W (pool_result (next_call w) r).1
        exec_lem (ok (a, d)) l = stable.replace w _ refl l h
        exec_lem (err x) l = Keeping-next_call w h

  -- Redis calls change the cache only.
  pub Keeping-set_nx : (k : String) (seconds : ℕ) → Keeping W (set_nx env k seconds)
  unfolding set_nx
  Keeping-set_nx k seconds w h = elim (Bool-cases (env.fails w.tick)) [
    | inl broken ↦ rw broken (Keeping-next_call w h)
    | inr works ↦ elim (Bool-cases (is_some (get w.now k w.cache))) [
      | inl there ↦ rw (works, there) (Keeping-next_call w h)
      | inr free ↦ rw (works, free) (stable.replace w _ refl (stable.holds w h) h)
    ]
  ]

  pub Keeping-del : (k : String) → Keeping W (del env k)
  unfolding del
  Keeping-del k w h = elim (Bool-cases (env.fails w.tick)) [
    | inl broken ↦ rw broken (Keeping-next_call w h)
    | inr works ↦ rw works (stable.replace w _ refl (stable.holds w h) h)
  ]

  counted-Keeping : (k : String) (found : Option CacheEntry) → Keeping W (counted env k found)
  counted-Keeping k none w h = stable.replace w _ refl (stable.holds w h) h
  counted-Keeping k (some e) w h = by_value e.value refl
    where
      by_value : (v : CacheValue) → e.value ≡ v → W (counted env k (some e) w).1
      by_value locked same = rw same h
      by_value (counter n) same = rw same (stable.replace w _ refl (stable.holds w h) h)

  pub Keeping-incr : (k : String) → Keeping W (incr env k)
  unfolding incr
  Keeping-incr k w h = elim (Bool-cases (env.fails w.tick)) [
    | inl broken ↦ rw broken (Keeping-next_call w h)
    | inr works ↦
        rw works (counted-Keeping k (get w.now k w.cache) (next_call w) (Keeping-next_call w h))
  ]

  expiring_lem :
      (k : String) (t : ℕ) (found : Option CacheEntry) (w : World)
      → W w
      → W (expiring env k t found w)
  expiring_lem k t none w h = h
  expiring_lem k t (some e) w h = stable.replace w _ refl (stable.holds w h) h

  pub Keeping-expire : (k : String) (seconds : ℕ) → Keeping W (expire env k seconds)
  unfolding expire
  Keeping-expire k seconds w h = elim (Bool-cases (env.fails w.tick)) [
    | inl broken ↦ rw broken (Keeping-next_call w h)
    | inr works ↦ rw works (
        expiring_lem k (w.now + seconds) (get w.now k w.cache) (next_call w)
          (Keeping-next_call w h))
  ]

-- A statement on the pool that leads from `P` to a weaker `Q`.
pub pool_exec-AtRest :
    (env : Env) (P Q : Db → Type 0)
    → ((d : Db) → P d → Q d)
    → {A : Type 0} (s : Stmt A) → Moves P Q s
    → (w : World) → AtRest P w
    → AtRest Q (pool_exec env s w).1
unfolding pool_exec
pool_exec-AtRest env P Q weaker {A} s moves w h = elim (Bool-cases (env.fails w.tick)) [
  | inl broken ↦ rw broken (record { holds = weaker w.db h.holds; closed = h.closed })
  | inr works ↦ rw works (exec_lem (s w.db) (moves w.db h.holds))
]
  where
    exec_lem :
        (r : Result SqlError (A × Db)) → Leads (λ _. Q) r → AtRest Q (pool_result (next_call w) r).1
    exec_lem (ok (a, d)) l = record { holds = l; closed = h.closed }
    exec_lem (err x) l = record { holds = weaker w.db h.holds; closed = h.closed }

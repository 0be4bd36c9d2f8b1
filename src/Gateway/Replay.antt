-- ===== src/Gateway/Replay.antt =====
-- The idempotency keys of services/gateway/middleware/idempotency.go: a retry gets the stored
-- answer.
use pay_fast_processor.Prelude.{
  ℕ, ◌+◌, String, Bool, true, false, Option, none, some, List, [], ◌∷◌, ◌++◌, ◌≡◌, refl, eq_refl,
  find, any, update, Bool-cases, inl, inr, ◌∙◌,
}
use pay_fast_processor.Store.Schema.{IdempotencyKey}
use pay_fast_processor.Store.Sql.{ok}
use pay_fast_processor.Runtime.World.{Env, World, idle, locked}
use pay_fast_processor.Runtime.Act.{next_call, pool_query, pool_exec}
use pay_fast_processor.Runtime.Cache.{get, put, set_nx, del}
use pay_fast_processor.Gateway.Http.{Request, Response, Handler}
use pay_fast_processor.Gateway.Keys.{
  lock_key, is_record, record_of, select_record, insert_record, update_record, acquire_lock,
  release_lock, get_record, create_pending_record, complete_record, pending, complete,
}
use pay_fast_processor.Gateway.Middleware.{
  with_key, locked_section, run_handler, replay, stored_body,
}

module _ {A : Type 0} (p : A → Bool) where
  find-none-any : (l : List A) → find p l ≡ none → any p l ≡ false
  find-none-any [] e = refl
  find-none-any (x ∷ l) e = elim (Bool-cases (p x)) [
    | inl hit ↦ cc (rw hit at e)
    | inr miss ↦ rw miss (find-none-any l (rw miss at e))
  ]

  find-append_new :
      (l : List A) (y : A) → find p l ≡ none → p y ≡ true → find p (l ++ y ∷ []) ≡ some y
  find-append_new [] y e h = rw h refl
  find-append_new (x ∷ l) y e h = elim (Bool-cases (p x)) [
    | inl hit ↦ cc (rw hit at e)
    | inr miss ↦ rw miss (find-append_new l y (rw miss at e) h)
  ]

  find-update :
      (f : A → A)
      → ((x : A) → p (f x) ≡ p x)
      → (l : List A) (y : A) → find p l ≡ some y
      → find p (update p f l) ≡ some (f y)
  find-update f keeps [] y e = cc e
  find-update f keeps (x ∷ l) y e = elim (Bool-cases (p x)) [
    | inl hit ↦ rw (hit, keeps x, hit) (cc (rw hit at e))
    | inr miss ↦ rw (miss, miss) (find-update f keeps l y (rw miss at e))
  ]

module _ (env : Env) (next : Handler) (merchant_id : String) (r : Request) where
  -- The record of the request's key.
  abbrev pub record_in : World → Option IdempotencyKey
  record_in w = find (is_record merchant_id r.idempotency_key) w.db.idempotency_keys

  get_record-missing :
      (w : World)
      → w.tx ≡ idle
      → env.fails w.tick ≡ false
      → record_in w ≡ none
      → get_record env merchant_id r.idempotency_key w ≡ (ok none, next_call w)
  unfolding get_record pool_query select_record
  get_record-missing w at_rest works missing = rw (works, at_rest, missing) refl

  pub with_key-replays :
      (w : World) (k : IdempotencyKey)
      → w.tx ≡ idle
      → env.fails w.tick ≡ false
      → record_in w ≡ some k
      → with_key env next merchant_id r w ≡ (replay (record_of r.idempotency_key k), next_call w)
  unfolding with_key get_record pool_query select_record
  with_key-replays w k at_rest works found = rw (works, at_rest, found) refl

  -- What the handler answered is stored under the request's key.
  run_handler-completes :
      (w : World) (k : IdempotencyKey)
      → let (response, v) = next r w in
        v.tx ≡ idle
        → env.fails v.tick ≡ false
        → record_in v ≡ some k
        → let (answer, u) = run_handler env next merchant_id r w in
          (answer ≡ response)
          × (u.tx ≡ idle)
          × (record_in u ≡ some (complete response.status (stored_body response.body) k))
  unfolding run_handler complete_record pool_exec update_record
  run_handler-completes w k idle_after works found =
      let (response, v) = next r w in
      rw works (
        refl,
        idle_after,
        find-update (is_record merchant_id r.idempotency_key)
            (complete response.status (stored_body response.body)) (λ x. refl) v.db.idempotency_keys
            k found,
      )

  abbrev pub new_record : IdempotencyKey
  new_record = pending merchant_id r.idempotency_key r.path r.method

  abbrev with_new_record : World → World
  with_new_record w = record w {
    db = record w.db { idempotency_keys = w.db.idempotency_keys ++ new_record ∷ [] };
    tick = w.tick + 1;
  }

  record_is_new : (w : World) → record_in w ≡ none → record_in (with_new_record w) ≡ some new_record
  record_is_new w missing =
      find-append_new (is_record merchant_id r.idempotency_key) w.db.idempotency_keys new_record
        missing (rw (eq_refl, eq_refl) refl)

  create_pending_record_lem :
      (w : World)
      → env.fails w.tick ≡ false
      → record_in w ≡ none
      → create_pending_record env merchant_id r.idempotency_key r.path r.method w
        ≡ (ok tt, with_new_record w)
  unfolding create_pending_record pool_exec insert_record
  create_pending_record_lem w works missing =
      rw (works, find-none-any (is_record merchant_id r.idempotency_key) _ missing) refl

  abbrev locked_world : World → World
  locked_world w = record w {
    cache =
        put (lock_key merchant_id r.idempotency_key)
          (record { value = locked; expires = some (w.now + 30) }) w.cache;
    tick = w.tick + 1;
  }

  acquire_lock_lem :
      (w : World)
      → env.fails w.tick ≡ false
      → get w.now (lock_key merchant_id r.idempotency_key) w.cache ≡ none
      → acquire_lock env merchant_id r.idempotency_key w ≡ (ok true, locked_world w)
  unfolding acquire_lock set_nx
  acquire_lock_lem w works free = rw (works, free) refl

  abbrev pub LeavesKeys : Type 0
  LeavesKeys =
      (w : World) → w.tx ≡ idle → ((next r w).1.tx ≡ idle) × (record_in (next r w).1 ≡ record_in w)

  -- The record of an answer.
  abbrev pub record_of_answer : Response → IdempotencyKey
  record_of_answer a = complete a.status (stored_body a.body) new_record

  -- The answer is stored, and no transaction stays open.
  abbrev pub Stored : Response × World → Type 0
  Stored (a, u) = (u.tx ≡ idle) × (record_in u ≡ some (record_of_answer a))

  -- The lock is released whatever was answered, and only that.
  release_lock-Stored :
      (p : Response × World)
      → Stored p
      → Stored (p.0, (release_lock env merchant_id r.idempotency_key p.1).1)
  unfolding release_lock del
  release_lock-Stored (a, u) h = elim (Bool-cases (env.fails u.tick)) [
    | inl broken ↦ rw broken h
    | inr works ↦ rw works h
  ]

  module _ (works : (n : ℕ) → env.fails n ≡ false) (leaves : LeavesKeys) where
    run_handler-Stored :
        (w : World)
        → w.tx ≡ idle
        → record_in w ≡ some new_record
        → Stored (run_handler env next merchant_id r w)
    run_handler-Stored w at_rest found =
        let (idle_after, same) = leaves w at_rest in
        let (answer, idle_then, stored) =
          run_handler-completes w new_record idle_after (works _) (same ∙ found) in
        rw answer (idle_then, stored)

    locked_section-Stored :
        (w : World)
        → w.tx ≡ idle
        → record_in w ≡ none
        → Stored (locked_section env next merchant_id r w)
    unfolding locked_section
    locked_section-Stored w at_rest missing =
        rw (create_pending_record_lem w (works _) missing)
          (run_handler-Stored (with_new_record w) at_rest (record_is_new w missing))

    pub with_key-Stored :
        (w : World)
        → w.tx ≡ idle
        → record_in w ≡ none
        → get w.now (lock_key merchant_id r.idempotency_key) w.cache ≡ none
        → Stored (with_key env next merchant_id r w)
    unfolding with_key
    with_key-Stored w at_rest missing free =
        rw
          (
            get_record-missing w at_rest (works _) missing,
            acquire_lock_lem (next_call w) (works _) free,
          )
          (release_lock-Stored (locked_section env next merchant_id r (locked_world (next_call w)))
            (locked_section-Stored (locked_world (next_call w)) at_rest missing))

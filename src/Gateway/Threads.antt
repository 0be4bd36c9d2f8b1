-- ===== src/Gateway/Threads.antt =====
-- The requests of middleware/idempotency.go as threads: where each stands between two calls.
use pay_fast_processor.Prelude.{
  ℕ, zero, suc, String, Bool, true, false, Option, none, some, ◌≡◌, refl,
}
use pay_fast_processor.Store.Sql.{Result, ok, err}
use pay_fast_processor.Runtime.Json.{Error}
use pay_fast_processor.Runtime.World.{Env, World}
use pay_fast_processor.Gateway.Http.{Request, Response, Handler, http_error}
use pay_fast_processor.Gateway.Keys.{
  IdempotencyRecord, acquire_lock, release_lock, get_record, create_pending_record, complete_record,
}
use pay_fast_processor.Gateway.Middleware.{
  stored_body, in_progress, replay, run_handler, after_pending, locked_section, after_lock,
  after_check, with_key,
}

-- What a request does next.
pub data Pc : Type 0 where
  checking locking creating handling : Pc
  completing unlocking answered : Response → Pc

abbrev pub checked : Result Error (Option IdempotencyRecord) → Pc
checked (err e) = answered (http_error "internal server error during idempotency check" 500)
checked (ok (some found)) = answered (replay found)
checked (ok none) = locking

abbrev pub locked : Result Error Bool → Pc
locked (ok true) = creating
locked (ok false) = answered in_progress
locked (err e) = answered in_progress

abbrev pub created : Result Error Unit → Pc
created (ok _) = handling
created (err e) = unlocking (http_error "internal server error saving pending state" 500)

module _ (env : Env) (next : Handler) (merchant_id : String) (r : Request) where
  -- One call of the request.
  abbrev pub advance : Pc → World → Pc × World
  advance checking w =
      let (found, w') = get_record env merchant_id r.idempotency_key w in (checked found, w')
  advance locking w =
      let (acquired, w') = acquire_lock env merchant_id r.idempotency_key w in (locked acquired, w')
  advance creating w =
      let (result, w') =
        create_pending_record env merchant_id r.idempotency_key r.path r.method w in
      (created result, w')
  advance handling w = let (response, w') = next r w in (completing response, w')
  advance (completing response) w = (
    unlocking response,
    (complete_record env merchant_id r.idempotency_key response.status (stored_body response.body)
        w).1,
  )
  advance (unlocking response) w =
      (answered response, (release_lock env merchant_id r.idempotency_key w).1)
  advance (answered response) w = (answered response, w)

  abbrev pub advances : ℕ → Pc × World → Pc × World
  advances zero x = x
  advances (suc n) (p, w) = advances n (advance p w)

  abbrev end : Response × World → Pc × World
  end (response, w) = (answered response, w)

  after_pending_lem :
      (c : Result Error Unit) (w : World)
      → advances 3 (created c, w) ≡ (
          let (response, v) = after_pending env next merchant_id r c w in
          (answered response, (release_lock env merchant_id r.idempotency_key v).1))
  unfolding run_handler
  after_pending_lem (ok _) w = refl
  after_pending_lem (err e) w = refl

  after_lock_lem :
      (c : Result Error Bool) (w : World)
      → advances 4 (locked c, w) ≡ end (after_lock env next merchant_id r c w)
  unfolding locked_section
  after_lock_lem (ok true) w = after_pending_lem _ _
  after_lock_lem (ok false) w = refl
  after_lock_lem (err e) w = refl

  after_check_lem :
      (c : Result Error (Option IdempotencyRecord)) (w : World)
      → advances 5 (checked c, w) ≡ end (after_check env next merchant_id r c w)
  after_check_lem (err e) w = refl
  after_check_lem (ok (some found)) w = refl
  after_check_lem (ok none) w = after_lock_lem _ _

  -- A request that runs alone does what the middleware does, in six calls.
  pub with_key-advances :
      (w : World)
      → advances 6 (checking, w)
        ≡ (let (response, v) = with_key env next merchant_id r w in (answered response, v))
  unfolding with_key
  with_key-advances w = after_check_lem _ _

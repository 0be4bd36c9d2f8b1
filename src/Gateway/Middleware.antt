-- ===== src/Gateway/Middleware.antt =====
-- services/gateway/middleware/idempotency.go.
use pay_fast_processor.Prelude.{
  String, Bool, true, false, Option, none, some, [], ◌∷◌, ◌==◌, if◌then◌else◌,
}
use pay_fast_processor.Store.Sql.{Result, ok, err}
use pay_fast_processor.Runtime.Json.{Json, Error, text}
use pay_fast_processor.Runtime.World.{Env, World}
use pay_fast_processor.Gateway.Http.{Request, Response, Body, plain, json, Handler, http_error}
use pay_fast_processor.Gateway.Keys.{
  IdempotencyRecord, acquire_lock, release_lock, get_record, create_pending_record, complete_record,
}

-- The body as it is stored: JSON as it is, any other text under "raw".
abbrev pub stored_body : Body → Json
stored_body (plain s) = ("raw", text s) ∷ []
stored_body (json o) = o

abbrev replayed_body : Option Json → Body
replayed_body none = plain ""
replayed_body (some o) = json o

abbrev pub in_progress : Response
in_progress = http_error "request already in progress" 409

-- The answer where a record exists.
abbrev pub replay : IdempotencyRecord → Response
replay r =
    if r.status == "completed"
    then record { status = r.response_code; body = replayed_body r.response_body; replayed = true }
    else in_progress

module _ (env : Env) (next : Handler) (merchant_id : String) (r : Request) where
  -- The pending record is there: the handler runs, and its answer is stored.
  unfoldable pub run_handler : World → Response × World
  run_handler w =
      let (response, w') = next r w in
      (
        response,
        (complete_record env merchant_id r.idempotency_key response.status
            (stored_body response.body) w').1,
      )

  abbrev pub after_pending : Result Error Unit → World → Response × World
  after_pending (ok _) w = run_handler w
  after_pending (err e) w = (http_error "internal server error saving pending state" 500, w)

  -- The lock is held.
  unfoldable pub locked_section : World → Response × World
  unfolding run_handler
  locked_section w =
      let (created, w') =
        create_pending_record env merchant_id r.idempotency_key r.path r.method w in
      after_pending created w'

  -- `defer svc.ReleaseLock(…)`.
  abbrev releasing : Response × World → Response × World
  releasing (response, w) = (response, (release_lock env merchant_id r.idempotency_key w).1)

  abbrev pub after_lock : Result Error Bool → World → Response × World
  after_lock (ok true) w = releasing (locked_section w)
  after_lock (ok false) w = (in_progress, w)
  after_lock (err e) w = (in_progress, w)

  abbrev pub after_check : Result Error (Option IdempotencyRecord) → World → Response × World
  after_check (err e) w = (http_error "internal server error during idempotency check" 500, w)
  after_check (ok (some found)) w = (replay found, w)
  after_check (ok none) w =
      let (acquired, w') = acquire_lock env merchant_id r.idempotency_key w in
      after_lock acquired w'

  unfoldable pub with_key : World → Response × World
  with_key w =
      let (found, w') = get_record env merchant_id r.idempotency_key w in after_check found w'

module _ (env : Env) (next : Handler) where
  abbrev pub for_merchant : Option String → Handler
  for_merchant none r w = (http_error "unauthorized" 401, w)
  for_merchant (some merchant_id) r w = with_key env next merchant_id r w

  -- `Idempotency(svc)(next)`.
  unfoldable pub idempotency : Handler
  idempotency r w =
      if r.method == "POST"
      then if r.idempotency_key == ""
        then (http_error "Idempotency-Key header is required" 400, w)
        else for_merchant r.merchant_id r w
      else next r w

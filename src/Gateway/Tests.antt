-- ===== src/Gateway/Tests.antt =====
-- The gateway on a small database.
use pay_fast_processor.Prelude.{
  ℕ, ◌+◌, ◌≡◌, ◌≤◌, refl, ◌≢◌, String, true, some, [], ◌∷◌, ◌++◌, length, ◌⊎◌, eq_iff,
}
use pay_fast_processor.Prelude.Int.{pos}
use pay_fast_processor.Store.Sql.{ok, err, unavailable}
use pay_fast_processor.Runtime.Json.{text, number, sql, wrap}
use pay_fast_processor.Runtime.World.{Env, World, idle}
use pay_fast_processor.Runtime.Act.{
  next_call, ◌>>=◌, wrapping, rolling_back, in_background, begin, commit, pool_query, pool_exec,
  tx_exec, generate, publish_payment_event,
}
use pay_fast_processor.Runtime.Cache.{get, remove, set_nx, del}
use pay_fast_processor.Gateway.Http.{Request, Response, Handler, json, http_error}
use pay_fast_processor.Gateway.Keys.{
  acquire_lock, release_lock, get_record, create_pending_record, complete_record, select_record,
  insert_record, update_record,
}
use pay_fast_processor.Gateway.Middleware.{
  idempotency, with_key, locked_section, run_handler, stored_body,
}
use pay_fast_processor.Gateway.Payments.{
  CreatePaymentRequest, create_payment, decode_request, process_payment, store_payment, authorize,
  method_type, insert_payment, set_status, created_answer,
}
use pay_fast_processor.Gateway.Auth.{
  api_auth, bearer, space, key_prefix, payments_route, test_merchant, Bytes,
}
use pay_fast_processor.Gateway.Creation.{Accepted, process_payment-Accepted, process_payment-Failed}
use pay_fast_processor.Gateway.Creation.Storing.{Failed}
use pay_fast_processor.Gateway.Bearer.{api_auth-Passes, api_auth-header_of, header_of, IsFree}
use pay_fast_processor.Gateway.Retry.{retry-replays}
use pay_fast_processor.Gateway.Threads.{checking, answered, advances}
use pay_fast_processor.Gateway.Interleaving.Stages.{set}
use pay_fast_processor.Gateway.Interleaving.{
  Shared, advanced, keyed, handler_calls, move, elsewhere, Steps, at_begin, more, entered_once,
}
use pay_fast_processor.Samples.{calm, failing_at, at_rest_with, db_of}

abbrev start : World
start = at_rest_with (db_of [] [] [])

abbrev request : Request
request = record {
  method = "POST";
  path = "/v1/payments";
  authorization = bearer ++ space ∷ key_prefix ++ 49 ∷ [];
  idempotency_key = "order-7";
  merchant_id = some "merch_01test";
  body =
      some
        (("amount", number (pos 500)) ∷ ("currency", text "USD") ∷ ("token_id", text "pm_1") ∷ []);
}

abbrev req : CreatePaymentRequest
req = record { amount = pos 500; currency = "USD"; token_id = "pm_1" }

-- The route with all that it calls open.
run : Env → Handler
unfolding payments_route api_auth idempotency with_key locked_section run_handler create_payment
    decode_request process_payment store_payment authorize method_type insert_payment set_status
    acquire_lock release_lock get_record create_pending_record complete_record select_record
    insert_record update_record ◌>>=◌ wrapping rolling_back in_background begin commit pool_query
    pool_exec tx_exec generate publish_payment_event get remove set_nx del
run = payments_route

abbrev first : Response × World
first = idempotency calm (create_payment calm) request start

first_answer :
    (payments_route calm request start).0
    ≡ created_answer (record { payment_id = "py_III"; status = "created" })
unfolding run
first_answer = refl

first_effects :
    let w = (payments_route calm request start).1 in
    (length w.db.payments ≡ 1)
    × (length w.payment_events ≡ 1)
    × (w.tx ≡ idle)
    × (length w.cache ≡ 0)
unfolding run
first_effects = (refl, refl, refl, refl)

first_at_rest : first.1.tx ≡ idle
unfolding run
first_at_rest = refl

named : ◌≢◌ {A = String} "order-7" ""
named e = cc ((eq_iff "order-7" "").1 e)

retry-replays_example : idempotency calm (create_payment calm) request first.1 ≡ (
  record { status = first.0.status; body = json (stored_body first.0.body); replayed = true },
  next_call first.1,
)
unfolding run
retry-replays_example =
    retry-replays calm request "merch_01test" start first.1 refl named refl (λ n. refl) refl refl
      refl first_at_rest refl

accepted :
    (process_payment calm "merch_01test" "order-7" req start).0
    ≡ ok (record { payment_id = "py_"; status = "created" })
unfolding run
accepted = refl

process_payment-Accepted_example :
    Accepted calm "merch_01test" "order-7" req start refl
      (record { payment_id = "py_"; status = "created" })
      (process_payment calm "merch_01test" "order-7" req start).1
process_payment-Accepted_example =
    process_payment-Accepted calm "merch_01test" "order-7" req start refl accepted

-- The update after the commit fails: the payment is there, and nobody hears of it.
stranded :
    (process_payment (failing_at 5) "merch_01test" "order-7" req start).0
    ≡ err (wrap "failed to update payment status" (sql unavailable))
unfolding run
stranded = refl

process_payment-Failed_example :
    Failed "merch_01test" "order-7" req start "py_"
      (process_payment (failing_at 5) "merch_01test" "order-7" req start).1
process_payment-Failed_example =
    process_payment-Failed (failing_at 5) "merch_01test" "order-7" req start refl stranded

abbrev next : Handler
next = create_payment calm

api_auth-Passes_example :
    ((rest : Bytes) × IsFree space rest
      × (request.authorization ≡ header_of next request start rest)
      × (api_auth next request start
          ≡ next (record request { merchant_id = some test_merchant }) start))
    ⊎ ((text : String) × (api_auth next request start ≡ (http_error text 401, start)))
api_auth-Passes_example = api_auth-Passes next request start

api_auth-header_of_example :
    api_auth next request start ≡ next (record request { merchant_id = some test_merchant }) start
api_auth-header_of_example = api_auth-header_of next request start (49 ∷ []) refl refl

-- Two requests with one key, call by call.
abbrev requests : ℕ → Request
requests i = request

abbrev moved : ℕ → Shared → Shared
moved i s = record {
  world = (advanced calm "merch_01test" "order-7" requests i (s.pc i) s.world).1;
  pc = set s.pc i (advanced calm "merch_01test" "order-7" requests i (s.pc i) s.world).0;
  entered = s.entered + handler_calls (s.pc i);
}

abbrev both_begin : Shared
both_begin = record { world = start; pc = λ _. checking; entered = 0 }

-- Both find no record. Request 0 takes the lock and creates the record, and then its lock expires.
abbrev before_expiry : Shared
before_expiry = moved 0 (moved 0 (moved 1 (moved 0 both_begin)))

abbrev expired : Shared
expired = record before_expiry { world = record before_expiry.world { now = 131 } }

-- Request 1 takes the lock too, and its insert is refused; request 0 goes through.
abbrev at_end : Shared
at_end = moved 1 (moved 0 (moved 0 (moved 0 (moved 1 (moved 1 expired)))))

no_tx : before_expiry.world.tx ≡ idle
unfolding run
no_tx = refl

second_refused :
    at_end.pc 1 ≡ answered (http_error "internal server error saving pending state" 500)
unfolding run
second_refused = refl

one_payment : length at_end.world.db.payments ≡ 1
unfolding run
one_payment = refl

step_of :
    {s : Shared} (i : ℕ)
    → Steps calm "merch_01test" "order-7" requests s
    → Steps calm "merch_01test" "order-7" requests (moved i s)
step_of {s} i steps = more s _ steps (move i s)

until_expiry : Steps calm "merch_01test" "order-7" requests expired
until_expiry =
    more before_expiry _ (step_of 0 (step_of 0 (step_of 1 (step_of 0 (at_begin start refl)))))
      (elsewhere before_expiry (record before_expiry.world { now = 131 }) (λ kept. kept) no_tx)

until_end : Steps calm "merch_01test" "order-7" requests at_end
until_end = step_of 1 (step_of 0 (step_of 0 (step_of 0 (step_of 1 (step_of 1 until_expiry)))))

entered_once_example :
    (at_end.entered ≤ 1)
    × ((i : ℕ) (w : World)
        → advances calm
            (create_payment calm)
            "merch_01test"
            (keyed calm "merch_01test" "order-7" requests i)
            6
            (checking, w)
          ≡ (let (response, v) =
                with_key calm
                  (create_payment calm)
                  "merch_01test"
                  (keyed calm "merch_01test" "order-7" requests i)
                  w in
              (answered response, v)))
entered_once_example = entered_once calm "merch_01test" "order-7" requests at_end until_end

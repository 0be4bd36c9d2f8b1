-- ===== src/Gateway/Keys.antt =====
-- services/gateway/service/idempotency_service.go: the records of idempotency keys, and their lock.
use pay_fast_processor.Prelude.{
  ℕ, String, Bool, Option, none, some, List, [], ◌∷◌, ◌++◌, not, any, find, update, concat, ◌&&◌,
  ◌==◌,
}
use pay_fast_processor.Store.Schema.{Db, IdempotencyKey}
use pay_fast_processor.Store.Sql.{
  SqlError, no_rows, unique_violation, Result, ok, err, Stmt, Query, constrained,
}
use pay_fast_processor.Runtime.Json.{Json, Error, sql}
use pay_fast_processor.Runtime.World.{Env}
use pay_fast_processor.Runtime.Act.{Act, pool_query, pool_exec}
use pay_fast_processor.Runtime.Cache.{set_nx, del}

abbrev pub lock_key : String → String → String
lock_key merchant_id key = concat "idempotency_lock:" (concat merchant_id (concat ":" key))

pub record IdempotencyRecord : Type 0 where
  pub key : String
  pub status : String
  pub response_code : ℕ
  pub response_body : Option Json

abbrev pub is_record : String → String → IdempotencyKey → Bool
is_record merchant_id key r = r.merchant_id == merchant_id && r.key == key

abbrev row : Option IdempotencyKey → Result SqlError IdempotencyKey
row none = err no_rows
row (some r) = ok r

unfoldable pub select_record : String → String → Query IdempotencyKey
select_record merchant_id key d = row (find (is_record merchant_id key) d.idempotency_keys)

abbrev code_or_zero : Option ℕ → ℕ
code_or_zero none = 0
code_or_zero (some c) = c

abbrev pub record_of : String → IdempotencyKey → IdempotencyRecord
record_of key r = record {
  key = key;
  status = r.status;
  response_code = code_or_zero r.response_code;
  response_body = r.response_body;
}

-- An empty result is no error of `GetRecord`.
abbrev found_record : String → Result Error IdempotencyKey → Result Error (Option IdempotencyRecord)
found_record key (ok r) = ok (some (record_of key r))
found_record key (err (sql no_rows)) = ok none
found_record key (err e) = err e

abbrev pub record_constraints : IdempotencyKey → Db → List (Bool × SqlError)
record_constraints r d =
    (not (any (is_record r.merchant_id r.key) d.idempotency_keys), unique_violation) ∷ []

unfoldable pub insert_record : IdempotencyKey → Stmt Unit
insert_record r d =
    constrained (record_constraints r d)
      (tt, record d { idempotency_keys = d.idempotency_keys ++ r ∷ [] })

abbrev pub pending : String → String → String → String → IdempotencyKey
pending merchant_id key path method = record {
  key = key;
  merchant_id = merchant_id;
  request_path = path;
  request_method = method;
  response_code = none;
  response_body = none;
  status = "in_progress";
}

abbrev pub complete : ℕ → Json → IdempotencyKey → IdempotencyKey
complete code body r = record r {
  status = "completed";
  response_code = some code;
  response_body = some body;
}

unfoldable pub update_record : String → String → ℕ → Json → Stmt Unit
update_record merchant_id key code body d = ok (
  tt,
  record d {
    idempotency_keys = update (is_record merchant_id key) (complete code body) d.idempotency_keys;
  },
)

module _ (env : Env) where
  -- `AcquireLock`: the lock expires after 30 seconds.
  unfoldable pub acquire_lock : String → String → Act Bool
  acquire_lock merchant_id key = set_nx env (lock_key merchant_id key) 30

  -- `ReleaseLock`.
  unfoldable pub release_lock : String → String → Act Unit
  release_lock merchant_id key = del env (lock_key merchant_id key)

  -- `GetRecord`.
  unfoldable pub get_record : String → String → Act (Option IdempotencyRecord)
  get_record merchant_id key w =
      let (r, w') = pool_query env (select_record merchant_id key) w in (found_record key r, w')

  -- `CreatePendingRecord`.
  unfoldable pub create_pending_record : String → String → String → String → Act Unit
  create_pending_record merchant_id key path method =
      pool_exec env (insert_record (pending merchant_id key path method))

  -- `CompleteRecord`; the body that the middleware hands over always marshals.
  unfoldable pub complete_record : String → String → ℕ → Json → Act Unit
  complete_record merchant_id key code body =
      pool_exec env (update_record merchant_id key code body)

-- ===== src/Gateway/Http.antt =====
-- Requests and answers of net/http, as far as the gateway reads and writes them.
use pay_fast_processor.Prelude.{ℕ, String, Bool, false, Option, List, concat}
use pay_fast_processor.Runtime.Json.{Json, Error, message, sql, unmarshal, broker, cache_down, wrap}
use pay_fast_processor.Runtime.World.{Env, World}

-- An absent header is the empty text. `merchant_id` is the value in the request's context, and
-- `body` is `none` where the body is no JSON object. The bytes of the `Authorization` header are
-- numbers.
pub record Request : Type 0 where
  pub method : String
  pub path : String
  pub authorization : List ℕ
  pub idempotency_key : String
  pub merchant_id : Option String
  pub body : Option Json

pub data Body : Type 0 where
  plain : String → Body
  json : Json → Body

-- `replayed` is the header "X-Idempotent-Replayed".
pub record Response : Type 0 where
  pub status : ℕ
  pub body : Body
  pub replayed : Bool

abbrev pub Handler : Type 0
Handler = Request → World → Response × World

-- `http.Error(w, text, status)`, which ends the text by a newline.
abbrev pub http_error : String → ℕ → Response
http_error text status = record {
  status = status;
  body = plain (concat text "\n");
  replayed = false;
}

-- `err.Error()`.
unfoldable pub error_text : Env → Error → String
error_text env (message s) = s
error_text env (sql e) = env.sql_text e
error_text env unmarshal = env.unmarshal_text
error_text env broker = env.broker_text
error_text env cache_down = env.cache_text
error_text env (wrap s e) = concat s (concat ": " (error_text env e))

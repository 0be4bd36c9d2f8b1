-- ===== src/Gateway/Auth.antt =====
-- services/gateway/middleware/auth.go, and the routes of services/gateway/cmd/main.go.
use pay_fast_processor.Prelude.{
  ℕ, String, Bool, true, false, some, List, [], ◌∷◌, eqb, if◌then◌else◌, ◌&&◌,
}
use pay_fast_processor.Runtime.World.{Env, World}
use pay_fast_processor.Gateway.Http.{Response, Handler, http_error}
use pay_fast_processor.Gateway.Middleware.{idempotency}
use pay_fast_processor.Gateway.Payments.{create_payment}

-- Byte strings.
abbrev pub Bytes : Type 0
Bytes = List ℕ

abbrev pub eqb_bytes : Bytes → Bytes → Bool
eqb_bytes [] [] = true
eqb_bytes [] (b ∷ t) = false
eqb_bytes (a ∷ s) [] = false
eqb_bytes (a ∷ s) (b ∷ t) = eqb a b && eqb_bytes s t

-- `strings.HasPrefix(s, prefix)`, the prefix first.
abbrev pub has_prefix : Bytes → Bytes → Bool
has_prefix [] s = true
has_prefix (b ∷ bs) [] = false
has_prefix (b ∷ bs) (a ∷ s) = eqb b a && has_prefix bs s

abbrev on_first : ℕ → List Bytes → List Bytes
on_first b [] = (b ∷ []) ∷ []
on_first b (p ∷ ps) = (b ∷ p) ∷ ps

-- `strings.Split(s, sep)` for a separator of one byte: never empty.
abbrev pub split : ℕ → Bytes → List Bytes
split sep [] = [] ∷ []
split sep (b ∷ s) = if eqb b sep then [] ∷ split sep s else on_first b (split sep s)

-- " ", "Bearer" and "sk_test_".
abbrev pub space : ℕ
space = 32

abbrev pub bearer : Bytes
bearer = 66 ∷ 101 ∷ 97 ∷ 114 ∷ 101 ∷ 114 ∷ []

abbrev pub key_prefix : Bytes
key_prefix = 115 ∷ 107 ∷ 95 ∷ 116 ∷ 101 ∷ 115 ∷ 116 ∷ 95 ∷ []

abbrev pub test_merchant : String
test_merchant = "merch_01test"

module _ (next : Handler) where
  abbrev pub with_api_key : Bytes → Handler
  with_api_key api_key r w =
      if has_prefix key_prefix api_key
      then next (record r { merchant_id = some test_merchant }) w
      else (http_error "invalid api key" 401, w)

  abbrev bad_format : World → Response × World
  bad_format w = (http_error "invalid authorization format" 401, w)

  abbrev pub with_parts : List Bytes → Handler
  with_parts (scheme ∷ api_key ∷ []) r w =
      if eqb_bytes scheme bearer then with_api_key api_key r w else bad_format w
  with_parts [] r w = bad_format w
  with_parts (scheme ∷ []) r w = bad_format w
  with_parts (scheme ∷ api_key ∷ more ∷ parts) r w = bad_format w

  abbrev pub with_header : Bytes → Handler
  with_header [] r w = (http_error "missing authorization header" 401, w)
  with_header (b ∷ s) r w = with_parts (split space (b ∷ s)) r w

  -- `APIAuth(db)(next)`.
  unfoldable pub api_auth : Handler
  api_auth r w = with_header r.authorization r w

module _ (env : Env) where
  -- `POST /v1/payments`.
  unfoldable pub payments_route : Handler
  payments_route = api_auth (idempotency env (create_payment env))

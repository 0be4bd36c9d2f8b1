-- ===== src/Vault/Handler.antt =====
-- services/vault/handler/token_handler.go.
use pay_fast_processor.Prelude.{ℕ, String, Option, none, some, [], ◌∷◌, false}
use pay_fast_processor.Store.Sql
use pay_fast_processor.Store.Sql.{Result, ok, err}
use pay_fast_processor.Runtime.Json.{Json, Error, unmarshal, text, text_field, number_field}
use pay_fast_processor.Runtime.World.{Env, World}
use pay_fast_processor.Gateway.Http.{Response, json, http_error, error_text}
use pay_fast_processor.Vault.Crypto.{Bytes, Gcm}
use pay_fast_processor.Vault.Tokens.{TokenizeRequest, TokenizeResponse, tokenize_card}

-- The bytes of a text, and the text of bytes.
module _ (bytes : String → Bytes) (text_of : Bytes → String) where
  unfoldable pub decode_token : Option Json → Result Error TokenizeRequest
  decode_token none = err unmarshal
  decode_token (some o) = Sql.◌>>=◌ (text_field "merchant_id" o) λ m.
      Sql.◌>>=◌ (text_field "type" o) λ kind. Sql.◌>>=◌ (text_field "pan" o) λ pan.
        Sql.◌>>=◌ (number_field "exp_month" o) λ month.
          Sql.◌>>=◌ (number_field "exp_year" o) λ year. Sql.◌>>=◌ (text_field "upi_vpa" o) λ vpa.
            Sql.◌>>=◌ (text_field "bank_code" o) λ bank. ok (record {
              merchant_id = m;
              kind = kind;
              pan = bytes pan;
              exp_month = month;
              exp_year = year;
              upi_vpa = vpa;
              bank_code = bank;
            })

  abbrev pub token_json : TokenizeResponse → Json
  token_json r = ("token_id", text r.token_id) ∷ ("last_four", text (text_of r.last_four)) ∷ []

  module _ (env : Env) (gcm : Gcm) (entropy : ℕ → Option Bytes) (sha256_hex : Bytes → String)
      (vault_key : Bytes) where
    abbrev token_answer : Result Error TokenizeResponse → Response
    token_answer (ok r) = record { status = 201; body = json (token_json r); replayed = false }
    token_answer (err e) = http_error (error_text env e) 500

    abbrev pub token_decoded : Result Error TokenizeRequest → World → Response × World
    token_decoded (err e) w = (http_error "invalid request body" 400, w)
    token_decoded (ok req) w =
        let (result, w') = tokenize_card env gcm entropy sha256_hex vault_key req w in
        (token_answer result, w')

    -- `TokenHandler.Tokenize`.
    unfoldable pub tokenize : Option Json → World → Response × World
    tokenize body w = token_decoded (decode_token body) w

-- ===== src/Vault/Tokens.antt =====
-- `VaultService.TokenizeCard` of services/vault/service/vault_service.go. Texts of bytes are byte
-- strings here.
use pay_fast_processor.Prelude.{
  ℕ, ◌-◌, String, Bool, Option, none, some, List, [], ◌∷◌, ◌++◌, length, drop, any, not, ltb,
  concat, ◌==◌, ◌||◌, if◌then◌else◌,
}
use pay_fast_processor.Prelude.Int.{ℤ}
use pay_fast_processor.Store.Schema.{Db, PaymentMethod, MethodType, card, upi, netbanking}
use pay_fast_processor.Store.Sql.{
  SqlError, unique_violation, foreign_key_violation, Result, ok, err, Stmt, constrained,
}
use pay_fast_processor.Runtime.Json.{Error, message}
use pay_fast_processor.Runtime.World.{Env}
use pay_fast_processor.Runtime.Act.{
  Act, pure, raise, wrapping, ◌>>=◌, ◌>>◌, pool_exec, generate, next_call,
}
use pay_fast_processor.Books.{has_merchant}
use pay_fast_processor.Vault.Crypto.{
  Bytes, Gcm, CryptoError, invalid_key_size, ciphertext_too_short, no_entropy, not_authentic,
  encrypt,
}

pub record TokenizeRequest : Type 0 where
  pub merchant_id : String
  pub kind : String
  pub pan : Bytes
  pub exp_month : ℤ
  pub exp_year : ℤ
  pub upi_vpa : String
  pub bank_code : String

pub record TokenizeResponse : Type 0 where
  pub token_id : String
  pub last_four : Bytes

abbrev pub method_constraints : PaymentMethod → Db → List (Bool × SqlError)
method_constraints m d =
    (not (any (λ x. x.id == m.id) d.payment_methods), unique_violation)
    ∷ (has_merchant (some m.merchant_id) d, foreign_key_violation)
    ∷ []

unfoldable pub insert_method : PaymentMethod → Stmt Unit
insert_method m d =
    constrained (method_constraints m d)
      (tt, record d { payment_methods = d.payment_methods ++ m ∷ [] })

-- `req.PAN[len(req.PAN)-4:]`.
abbrev pub last_four : Bytes → Bytes
last_four pan = drop (length pan - 4) pan

abbrev pub blank_method : String → String → MethodType → PaymentMethod
blank_method id merchant_id kind = record {
  id = id;
  merchant_id = merchant_id;
  kind = kind;
  card_last_four = none;
  card_exp_month = none;
  card_exp_year = none;
  card_fingerprint = none;
  encrypted_pan = none;
  encryption_key_id = none;
  upi_vpa = none;
  bank_code = none;
}

abbrev pub card_method : String → TokenizeRequest → String → Bytes → PaymentMethod
card_method id req fingerprint encrypted = record (blank_method id req.merchant_id card) {
  card_last_four = some (last_four req.pan);
  card_exp_month = some req.exp_month;
  card_exp_year = some req.exp_year;
  card_fingerprint = some fingerprint;
  encrypted_pan = some encrypted;
  encryption_key_id = some "v1";
}

abbrev pub crypto_error : CryptoError → Error
crypto_error invalid_key_size = message "encryption key must be exactly 32 bytes for AES-256"
crypto_error ciphertext_too_short = message "ciphertext too short"
crypto_error no_entropy = message "unexpected EOF"
crypto_error not_authentic = message "cipher: message authentication failed"

abbrev pub from_crypto : {A : Type 0} → Result CryptoError A → Result Error A
from_crypto (ok a) = ok a
from_crypto (err e) = err (crypto_error e)

-- The default is "card".
abbrev pub kind_or_card : String → String
kind_or_card kind = if kind == "" then "card" else kind

-- The random source at the n-th call, and the SHA-256 of a number in hexadecimal.
module _ (env : Env) (gcm : Gcm) (entropy : ℕ → Option Bytes) (sha256_hex : Bytes → String)
    (vault_key : Bytes) where
  abbrev pub encrypting : Bytes → Act Bytes
  encrypting plaintext w =
      (from_crypto (encrypt gcm (entropy w.tick) plaintext vault_key), next_call w)

  abbrev pub store_method : PaymentMethod → Act Unit
  store_method m = wrapping "database error" (pool_exec env (insert_method m))

  unfoldable pub tokenize_pan : String → TokenizeRequest → Act TokenizeResponse
  tokenize_pan id req =
      if ltb (length req.pan) 13 || ltb 19 (length req.pan)
      then raise (message "invalid card number length")
      else do
        encrypted ← wrapping "failed to encrypt card" (encrypting req.pan)
        store_method (card_method id req (sha256_hex req.pan) encrypted)
        pure (record { token_id = id; last_four = last_four req.pan })

  unfoldable pub tokenize_upi : String → TokenizeRequest → Act TokenizeResponse
  tokenize_upi id req =
      if req.upi_vpa == "" then raise (message "upi_vpa is required for UPI") else do
        store_method (record (blank_method id req.merchant_id upi) { upi_vpa = some req.upi_vpa })
        pure (record { token_id = id; last_four = [] })

  unfoldable pub tokenize_bank : String → TokenizeRequest → Act TokenizeResponse
  tokenize_bank id req =
      if req.bank_code == "" then raise (message "bank_code is required for Netbanking") else do
        store_method
            (record (blank_method id req.merchant_id netbanking) { bank_code = some req.bank_code })
        pure (record { token_id = id; last_four = [] })

  abbrev pub tokenize_as : String → String → TokenizeRequest → Act TokenizeResponse
  tokenize_as kind id req =
      if kind == "card"
      then tokenize_pan id req
      else if kind == "upi"
      then tokenize_upi id req
      else if kind == "netbanking"
      then tokenize_bank id req
      else raise (message (concat "unsupported payment method type: " kind))

  -- `TokenizeCard`.
  unfoldable pub tokenize_card : TokenizeRequest → Act TokenizeResponse
  tokenize_card req = generate env "pm_" >>= λ id. tokenize_as (kind_or_card req.kind) id req

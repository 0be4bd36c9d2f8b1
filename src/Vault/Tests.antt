-- ===== src/Vault/Tests.antt =====
-- The vault with a toy cipher.
use pay_fast_processor.Prelude.{ℕ, ◌≡◌, refl, sym, ap, Option, some, none, [], ◌∷◌, length}
use pay_fast_processor.Prelude.Int.{pos}
use pay_fast_processor.Store.Sql.{ok}
use pay_fast_processor.Runtime.World.{World}
use pay_fast_processor.Runtime.Act.{Act, ◌>>=◌, wrapping, pool_exec, generate}
use pay_fast_processor.Runtime.Triple.{Post}
use pay_fast_processor.Vault.Crypto.{Bytes, Gcm, encrypt, decrypt, decrypt-encrypt}
use pay_fast_processor.Vault.Tokens.{
  TokenizeRequest, TokenizeResponse, insert_method, tokenize_pan, tokenize_upi, tokenize_bank,
  tokenize_card,
}
use pay_fast_processor.Vault.Sealed.{Tokenized, Same, tokenize_card-Tokenized}
use pay_fast_processor.Samples.{calm, at_rest_with, db_of}

-- It seals nothing, and its nonce has one byte.
abbrev toy : Gcm
toy = record {
  nonce_size = 1;
  seal = λ key nonce p. p;
  open_sealed = λ key nonce c. some c;
  open_seal = λ key nonce p. refl;
}

abbrev entropy : ℕ → Option Bytes
entropy n = some (7 ∷ [])

abbrev key : Bytes
key =
    1 ∷ 2 ∷ 3 ∷ 4 ∷ 5 ∷ 6 ∷ 7 ∷ 8 ∷ 1 ∷ 2 ∷ 3 ∷ 4 ∷ 5 ∷ 6 ∷ 7 ∷ 8 ∷ 1 ∷ 2 ∷ 3 ∷ 4 ∷ 5 ∷ 6 ∷ 7 ∷ 8
    ∷ 1 ∷ 2 ∷ 3 ∷ 4 ∷ 5 ∷ 6 ∷ 7 ∷ 8 ∷ []

abbrev pan : Bytes
pan = 52 ∷ 50 ∷ 52 ∷ 50 ∷ 52 ∷ 50 ∷ 52 ∷ 50 ∷ 52 ∷ 50 ∷ 52 ∷ 50 ∷ 52 ∷ 50 ∷ 52 ∷ 50 ∷ []

abbrev req : TokenizeRequest
req = record {
  merchant_id = "merch_01test";
  kind = "card";
  pan = pan;
  exp_month = pos 7;
  exp_year = pos 2031;
  upi_vpa = "";
  bank_code = "";
}

abbrev start : World
start = at_rest_with (db_of [] [] [])

abbrev tokenize : TokenizeRequest → Act TokenizeResponse
tokenize = tokenize_card calm toy entropy (λ b. "digest") key

-- The operation with all that it calls open.
run : TokenizeRequest → Act TokenizeResponse
unfolding tokenize_card tokenize_pan tokenize_upi tokenize_bank insert_method encrypt ◌>>=◌ wrapping
    pool_exec generate
run = tokenize

abbrev size_of : Option Bytes → ℕ
size_of none = 1
size_of (some b) = length b

nonces : (n : ℕ) (nonce : Bytes) → entropy n ≡ some nonce → length nonce ≡ 1
nonces n nonce e = sym (ap size_of e)

sealed : encrypt toy (some (7 ∷ [])) pan key ≡ ok (7 ∷ pan)
unfolding encrypt
sealed = refl

decrypt-encrypt_example : decrypt toy (7 ∷ pan) key ≡ ok pan
decrypt-encrypt_example = decrypt-encrypt toy (7 ∷ []) pan key (7 ∷ pan) refl sealed

tokenize_card-Tokenized_example :
    Post
      (Tokenized calm toy entropy (λ b. "digest") key start.db nonces req)
      (Same calm toy entropy (λ b. "digest") key start.db)
      (tokenize req start).0
      (tokenize req start).1
tokenize_card-Tokenized_example =
    tokenize_card-Tokenized calm toy entropy (λ b. "digest") key start.db nonces req start refl

-- ===== src/Config/Tests.antt =====
-- The configuration without any variable.
use pay_fast_processor.Prelude.{String, Option, none, some, [], ◌∷◌, ◌≡◌, ◌≢◌, refl}
use pay_fast_processor.Store.Sql.{err}
use pay_fast_processor.Vault.Crypto.{Bytes, Gcm, invalid_key_size, encrypt, decrypt}
use pay_fast_processor.Config.{config, load, load_key}

abbrev nothing_set : String → Option String
nothing_set key = none

abbrev key : Bytes
key =
    1 ∷ 2 ∷ 3 ∷ 4 ∷ 5 ∷ 6 ∷ 7 ∷ 8 ∷ 1 ∷ 2 ∷ 3 ∷ 4 ∷ 5 ∷ 6 ∷ 7 ∷ 8 ∷ 1 ∷ 2 ∷ 3 ∷ 4 ∷ 5 ∷ 6 ∷ 7 ∷ 8
    ∷ 1 ∷ 2 ∷ 3 ∷ 4 ∷ 5 ∷ 6 ∷ 7 ∷ 8 ∷ []

abbrev bytes : String → Bytes
bytes s = key

abbrev toy : Gcm
toy = record {
  nonce_size = 1;
  seal = λ key nonce p. p;
  open_sealed = λ key nonce c. some c;
  open_seal = λ key nonce p. refl;
}

loads : load nothing_set bytes ≡ some (config nothing_set bytes)
unfolding load
loads = refl

load_key_example :
    (encrypt toy (some (7 ∷ [])) (1 ∷ []) (bytes (config nothing_set bytes).vault_key)
      ≢ err invalid_key_size)
    × (decrypt toy (1 ∷ []) (bytes (config nothing_set bytes).vault_key) ≢ err invalid_key_size)
load_key_example =
    load_key nothing_set bytes (config nothing_set bytes) loads toy (some (7 ∷ [])) (1 ∷ [])

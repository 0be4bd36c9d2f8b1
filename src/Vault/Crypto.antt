-- ===== src/Vault/Crypto.antt =====
-- pkg/crypto/vault_crypto.go. AES-256 in Galois/Counter Mode and the random source are parameters.
use pay_fast_processor.Prelude.{
  ◌≢◌, ℕ, ◌≡◌, refl, true, false, Option, none, some, List, [], ◌∷◌, ◌++◌, length, take, drop, eqb,
  ltb, length-append, Bool-cases, inl, inr, ap, sym, subst, arith, if◌then◌else◌,
}
use pay_fast_processor.Store.Sql.{Result, ok, err}

abbrev pub Bytes : Type 0
Bytes = List ℕ

-- `cipher.AEAD` for a key of 32 bytes: `open` undoes `seal` under the same key and nonce.
pub record Gcm : Type 0 where
  pub nonce_size : ℕ
  pub seal : Bytes → Bytes → Bytes → Bytes
  pub open_sealed : Bytes → Bytes → Bytes → Option Bytes
  pub open_seal : (key nonce p : Bytes) → open_sealed key nonce (seal key nonce p) ≡ some p

pub data CryptoError : Type 0 where
  invalid_key_size ciphertext_too_short no_entropy not_authentic : CryptoError

sealed_injective : {a b : Bytes} → ◌≡◌ {A = Result CryptoError Bytes} (ok a) (ok b) → a ≡ b
sealed_injective h = cc

abbrev opened : Option Bytes → Result CryptoError Bytes
opened none = err not_authentic
opened (some p) = ok p

module _ (gcm : Gcm) where
  abbrev sealed : Option Bytes → Bytes → Bytes → Result CryptoError Bytes
  sealed none plaintext key = err no_entropy
  sealed (some nonce) plaintext key = ok (nonce ++ gcm.seal key nonce plaintext)

  -- `Encrypt(plaintext, key)`, with what the random source gives.
  unfoldable pub encrypt : Option Bytes → Bytes → Bytes → Result CryptoError Bytes
  encrypt nonce plaintext key =
      if eqb (length key) 32 then sealed nonce plaintext key else err invalid_key_size

  -- `Decrypt(ciphertext, key)`.
  unfoldable pub decrypt : Bytes → Bytes → Result CryptoError Bytes
  decrypt ciphertext key =
      if eqb (length key) 32
      then if ltb (length ciphertext) gcm.nonce_size
        then err ciphertext_too_short
        else opened
            (gcm.open_sealed key (take gcm.nonce_size ciphertext) (drop gcm.nonce_size ciphertext))
      else err invalid_key_size

  -- A key of 32 bytes is not refused.
  pub encrypt_key :
      (nonce : Option Bytes) (plaintext key : Bytes)
      → eqb (length key) 32 ≡ true
      → encrypt nonce plaintext key ≢ err invalid_key_size
  unfolding encrypt
  encrypt_key nonce plaintext key fits e = by_nonce nonce (rw fits at e)
    where
      by_nonce : (o : Option Bytes) → sealed o plaintext key ≢ err invalid_key_size
      by_nonce none h = cc h
      by_nonce (some b) h = cc h

  opened_lem : (o : Option Bytes) → opened o ≢ err invalid_key_size
  opened_lem none h = cc h
  opened_lem (some p) h = cc h

  pub decrypt_key :
      (ciphertext key : Bytes)
      → eqb (length key) 32 ≡ true
      → decrypt ciphertext key ≢ err invalid_key_size
  unfolding decrypt
  decrypt_key ciphertext key fits e = elim (Bool-cases (ltb (length ciphertext) gcm.nonce_size)) [
    | inl short ↦ cc (rw (fits, short) at e)
    | inr long ↦ opened_lem _ (rw (fits, long) at e)
  ]

  take-append : (xs ys : Bytes) → take (length xs) (xs ++ ys) ≡ xs
  take-append [] ys = refl
  take-append (x ∷ xs) ys = ap (λ l. x ∷ l) (take-append xs ys)

  drop-append : (xs ys : Bytes) → drop (length xs) (xs ++ ys) ≡ ys
  drop-append [] ys = refl
  drop-append (x ∷ xs) ys = drop-append xs ys

  not_short : (nonce rest : Bytes) → ltb (length (nonce ++ rest)) (length nonce) ≡ false
  not_short nonce rest = ground (arith, length-append nonce rest)

  decrypt_sealed :
      (nonce plaintext key : Bytes)
      → length nonce ≡ gcm.nonce_size
      → eqb (length key) 32 ≡ true
      → decrypt (nonce ++ gcm.seal key nonce plaintext) key ≡ ok plaintext
  unfolding decrypt
  decrypt_sealed nonce plaintext key size valid =
      let rest = gcm.seal key nonce plaintext in
      rw
        (
          valid,
          sym size,
          not_short nonce rest,
          take-append nonce rest,
          drop-append nonce rest,
          gcm.open_seal key nonce plaintext,
        )
        refl

  -- What was encrypted with a key is decrypted with it, where the random source gives a nonce of the
  -- cipher's size.
  pub decrypt-encrypt :
      (nonce plaintext key ciphertext : Bytes)
      → length nonce ≡ gcm.nonce_size
      → encrypt (some nonce) plaintext key ≡ ok ciphertext
      → decrypt ciphertext key ≡ ok plaintext
  unfolding encrypt
  decrypt-encrypt nonce plaintext key ciphertext size e = elim (Bool-cases (eqb (length key) 32)) [
    | inl valid ↦
        let same : nonce ++ gcm.seal key nonce plaintext ≡ ciphertext =
          sealed_injective (rw valid at e) in
        subst (λ c. decrypt c key ≡ ok plaintext) same
          (decrypt_sealed nonce plaintext key size valid)
    | inr invalid ↦ cc (rw invalid at e)
  ]

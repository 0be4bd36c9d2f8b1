-- ===== src/Vault/Sealed.antt =====
-- What the vault stores, and what an error leaves.
use pay_fast_processor.Prelude.{
  ℕ, String, false, Option, none, some, [], ◌∷◌, ◌++◌, ◌≡◌, refl, ◌≤◌, length, ltb, eqb, ◌==◌, ◌||◌,
  Bool-cases, inl, inr, arith,
}
use pay_fast_processor.Store.Schema.{Db, PaymentMethod, upi, netbanking}
use pay_fast_processor.Store.Sql.{SqlError, Result, ok, err}
use pay_fast_processor.Runtime.World.{Env, World}
use pay_fast_processor.Runtime.Act.{◌>>=◌, pure, pool_exec, generate, next_call, pool_result}
use pay_fast_processor.Runtime.Triple.{
  Triple, Post, Triple-bind, Triple-wrapping, Triple-pure, Triple-raise, Triple-if, Triple-given,
  Triple-weaken,
}
use pay_fast_processor.Runtime.Transaction.{Leads}
use pay_fast_processor.Books.Inserts.{Leads-constrained}
use pay_fast_processor.Vault.Crypto.{Bytes, Gcm, CryptoError, encrypt, decrypt, decrypt-encrypt}
use pay_fast_processor.Vault.Tokens.{
  TokenizeRequest, TokenizeResponse, method_constraints, insert_method, last_four, blank_method,
  card_method, from_crypto, encrypting, store_method, tokenize_pan, tokenize_upi, tokenize_bank,
  tokenize_as, kind_or_card, tokenize_card,
}

module _ (env : Env) (gcm : Gcm) (entropy : ℕ → Option Bytes) (sha256_hex : Bytes → String)
    (vault_key : Bytes) (d0 : Db) where
  abbrev pub Same : World → Type 0
  Same w = w.db ≡ d0

  -- One payment method is added.
  abbrev pub Adds : PaymentMethod → World → Type 0
  Adds m w = w.db ≡ record d0 { payment_methods = d0.payment_methods ++ m ∷ [] }

  result_lem :
      (m : PaymentMethod) (w : World) (r : Result SqlError (Unit × Db))
      → Same w
      → Leads (λ _ d. d ≡ record d0 { payment_methods = d0.payment_methods ++ m ∷ [] }) r
      → Post (λ _. Adds m) Same (pool_result w r).0 (pool_result w r).1
  result_lem m w (ok (_, d)) same l = l
  result_lem m w (err e) same l = same

  added_lem :
      (m : PaymentMethod) (w : World)
      → Same w
      → Post
          (λ _. Adds m)
          Same
          (pool_result w (insert_method m w.db)).0
          (pool_result w (insert_method m w.db)).1
  unfolding insert_method
  added_lem m w same =
      result_lem m w (insert_method m w.db) same
        (Leads-constrained _ (method_constraints m w.db) tt _ (λ _. rw same refl))

  store_method_lem :
      (m : PaymentMethod)
      → Triple Same (store_method env gcm entropy sha256_hex vault_key m) (λ _. Adds m) Same
  unfolding pool_exec
  store_method_lem m = Triple-wrapping _ _ (record {
    run = λ w same. elim (Bool-cases (env.fails w.tick)) [
      | inl broken ↦ rw broken same
      | inr works ↦ rw works (added_lem m (next_call w) same)
    ];
  })

  -- A stored card: its number is sealed under the vault's key, and the last four digits are open.
  abbrev pub SealedCard : String → TokenizeRequest → TokenizeResponse → World → Type 0
  SealedCard id req resp w =
      (encrypted : Bytes) × (decrypt gcm encrypted vault_key ≡ ok req.pan)
      × Adds (card_method id req (sha256_hex req.pan) encrypted) w
      × (resp ≡ record { token_id = id; last_four = last_four req.pan })
      × (13 ≤ length req.pan)
      × (length req.pan ≤ 19)

  module _
      (nonces : (n : ℕ) (nonce : Bytes)
        → entropy n ≡ some nonce
        → length nonce ≡ gcm.nonce_size) where
    from_encrypt :
        (n : ℕ) (nonce : Option Bytes) (pan : Bytes) (w : World) (r : Result CryptoError Bytes)
        → entropy n ≡ nonce
        → encrypt gcm nonce pan vault_key ≡ r
        → Same w
        → Post (λ c u. Same u × (decrypt gcm c vault_key ≡ ok pan)) Same (from_crypto r) w
    unfolding encrypt
    from_encrypt n drawn pan w (err e) source same_r same = same
    from_encrypt n (some nonce) pan w (ok c) source e same =
        (same, decrypt-encrypt gcm nonce pan vault_key c (nonces n nonce source) e)
    from_encrypt n none pan w (ok c) source e same = elim (Bool-cases (eqb (length vault_key) 32)) [
      | inl valid ↦ cc (rw valid at e)
      | inr invalid ↦ cc (rw invalid at e)
    ]

    encrypting_lem :
        (pan : Bytes)
        → Triple Same
            (encrypting env gcm entropy sha256_hex vault_key pan)
            (λ c u. Same u × (decrypt gcm c vault_key ≡ ok pan))
            Same
    encrypting_lem pan = record {
      run = λ w same. from_encrypt w.tick (entropy w.tick) pan (next_call w) _ refl refl same;
    }

    length_ok : (n : ℕ) → ltb n 13 || ltb 19 n ≡ false → (13 ≤ n) × (n ≤ 19)
    length_ok n h = (ground arith, ground arith)

    tokenize_pan_lem :
        (id : String) (req : TokenizeRequest)
        → Triple Same
            (tokenize_pan env gcm entropy sha256_hex vault_key id req)
            (SealedCard id req)
            Same
    unfolding tokenize_pan
    tokenize_pan_lem id req =
        Triple-if _ _ _ (λ _. Triple-raise _ (λ w h. h))
          λ allowed. Triple-bind _ _ (Triple-wrapping _ _ (encrypting_lem req.pan)) λ encrypted.
            Triple-given λ opens.
              Triple-bind _ _ (store_method_lem (card_method id req (sha256_hex req.pan) encrypted))
                λ _. Triple-pure _ λ w h.
                  let bounds = length_ok (length req.pan) allowed in
                  (encrypted, opens, h, refl, bounds.0, bounds.1)

    -- One method of the request's merchant is added, under the token that is returned.
    abbrev pub Tokenized : TokenizeRequest → TokenizeResponse → World → Type 0
    Tokenized req resp w =
        (m : PaymentMethod) × Adds m w × (m.id ≡ resp.token_id) × (m.merchant_id ≡ req.merchant_id)

    stored_lem :
        (m : PaymentMethod) (req : TokenizeRequest)
        → m.merchant_id ≡ req.merchant_id
        → Triple Same
            (store_method env gcm entropy sha256_hex vault_key m >>= λ _.
              pure (record { token_id = m.id; last_four = [] }))
            (Tokenized req)
            Same
    stored_lem m req same =
        Triple-bind _ _ (store_method_lem m) λ _. Triple-pure _ λ w h. (m, h, refl, same)

    upi_lem :
        (id : String) (req : TokenizeRequest)
        → Triple Same
            (tokenize_upi env gcm entropy sha256_hex vault_key id req)
            (Tokenized req)
            Same
    unfolding tokenize_upi
    upi_lem id req =
        Triple-if (req.upi_vpa == "") _ _ (λ _. Triple-raise _ (λ w h. h))
          λ _.
            stored_lem (record (blank_method id req.merchant_id upi) { upi_vpa = some req.upi_vpa })
              req refl

    bank_lem :
        (id : String) (req : TokenizeRequest)
        → Triple Same
            (tokenize_bank env gcm entropy sha256_hex vault_key id req)
            (Tokenized req)
            Same
    unfolding tokenize_bank
    bank_lem id req =
        Triple-if (req.bank_code == "") _ _ (λ _. Triple-raise _ (λ w h. h))
          λ _.
            stored_lem
              (record (blank_method id req.merchant_id netbanking) {
                bank_code = some req.bank_code;
              })
              req refl

    tokenize_as_lem :
        (kind id : String) (req : TokenizeRequest)
        → Triple Same
            (tokenize_as env gcm entropy sha256_hex vault_key kind id req)
            (Tokenized req)
            Same
    tokenize_as_lem kind id req =
        Triple-if (kind == "card") _ _
          (λ _. Triple-weaken _ (tokenize_pan_lem id req) (λ w h. h) of_card (λ w h. h))
          λ _.
            Triple-if (kind == "upi") _ _ (λ _. upi_lem id req)
              λ _.
                Triple-if (kind == "netbanking") _ _ (λ _. bank_lem id req)
                  (λ _. Triple-raise _ (λ w h. h))
      where
        of_card :
            (resp : TokenizeResponse) (w : World) → SealedCard id req resp w → Tokenized req resp w
        of_card resp w h = (card_method id req (sha256_hex req.pan) h.0, h.2, rw h.3 refl, refl)

    generate_lem : Triple Same (generate env "pm_") (λ _. Same) Same
    unfolding generate
    generate_lem = record { run = λ w h. h }

    tokenize_card_lem :
        (req : TokenizeRequest)
        → Triple Same (tokenize_card env gcm entropy sha256_hex vault_key req) (Tokenized req) Same
    unfolding tokenize_card
    tokenize_card_lem req =
        Triple-bind _ _ generate_lem λ id. tokenize_as_lem (kind_or_card req.kind) id req

    -- Where each nonce of the random source has the cipher's size: a request of any kind adds one
    -- method of its merchant, under the token that is returned, or it is refused and the database
    -- is as it was.
    pub tokenize_card-Tokenized :
        (req : TokenizeRequest) (w : World)
        → w.db ≡ d0
        → Post
            (Tokenized req)
            Same
            (tokenize_card env gcm entropy sha256_hex vault_key req w).0
            (tokenize_card env gcm entropy sha256_hex vault_key req w).1
    tokenize_card-Tokenized req w same = (tokenize_card_lem req).run w same

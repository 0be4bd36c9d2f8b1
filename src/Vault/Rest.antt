-- ===== src/Vault/Rest.antt =====
-- The vault changes the table of payment methods only.
use pay_fast_processor.Prelude.{ℕ, String, Option, List, length, ltb, ◌==◌, ◌||◌}
use pay_fast_processor.Store.Schema.{Db, PaymentMethod}
use pay_fast_processor.Runtime.World.{Env}
use pay_fast_processor.Runtime.Rest.{
  AtRest, AtRest-Stable, Keeping, Keeping-bind, Keeping-wrapping, Keeping-if,
}
use pay_fast_processor.Runtime.Rest.Calls.{Keeping-next_call, Keeping-pool_exec, Keeping-generate}
use pay_fast_processor.Books.Inserts.{Leads-constrained}
use pay_fast_processor.Vault.Crypto.{Bytes, Gcm}
use pay_fast_processor.Vault.Tokens.{
  TokenizeRequest, method_constraints, insert_method, kind_or_card, store_method, tokenize_pan,
  tokenize_upi, tokenize_bank, tokenize_as, tokenize_card,
}

module _ (env : Env) (gcm : Gcm) (entropy : ℕ → Option Bytes) (sha256_hex : Bytes → String)
    (vault_key : Bytes) (P : Db → Type 0)
    (methods : (d : Db) (l : List PaymentMethod) → P d → P (record d { payment_methods = l })) where
  store_method-AtRest :
      (m : PaymentMethod) → Keeping (AtRest P) (store_method env gcm entropy sha256_hex vault_key m)
  unfolding insert_method
  store_method-AtRest m = Keeping-wrapping _ _ _ (
      Keeping-pool_exec env P _ (AtRest-Stable P) _
        λ d h. Leads-constrained _ (method_constraints m d) tt _ (λ _. methods d _ h))

  tokenize_as-AtRest :
      (kind id : String) (req : TokenizeRequest)
      → Keeping (AtRest P) (tokenize_as env gcm entropy sha256_hex vault_key kind id req)
  unfolding tokenize_pan tokenize_upi tokenize_bank
  tokenize_as-AtRest kind id req =
      Keeping-if _ (kind == "card") _ _
        (Keeping-if _ (ltb (length req.pan) 13 || ltb 19 (length req.pan)) _ _ (λ w h. h)
          (Keeping-bind _ _ _
            (Keeping-wrapping _ _ _ (λ w h. Keeping-next_call env P _ (AtRest-Stable P) w h))
            λ encrypted. Keeping-bind _ _ _ (store_method-AtRest _) (λ _ w h. h)))
        (Keeping-if _ (kind == "upi") _ _
          (Keeping-if _ (req.upi_vpa == "") _ _ (λ w h. h)
            (Keeping-bind _ _ _ (store_method-AtRest _) (λ _ w h. h)))
          (Keeping-if _ (kind == "netbanking") _ _
            (Keeping-if _ (req.bank_code == "") _ _ (λ w h. h)
              (Keeping-bind _ _ _ (store_method-AtRest _) (λ _ w h. h)))
            (λ w h. h)))

  pub tokenize_card-AtRest :
      (req : TokenizeRequest)
      → Keeping (AtRest P) (tokenize_card env gcm entropy sha256_hex vault_key req)
  unfolding tokenize_card
  tokenize_card-AtRest req =
      Keeping-bind _ _ _ (Keeping-generate env P _ (AtRest-Stable P) "pm_")
        λ id. tokenize_as-AtRest (kind_or_card req.kind) id req

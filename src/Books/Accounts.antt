-- ===== src/Books/Accounts.antt =====
-- The account that a handler looks up, and opens where there is none.
use pay_fast_processor.Prelude.{
  String, true, some, ◌≡◌, refl, ◌&&◌, ◌==◌, any, find, Option-cases, inl, inr, eq_refl, [], ◌∷◌,
  ◌++◌, arith,
}
use pay_fast_processor.Store.Schema.{
  Db, Account, AccountType, merchant_payable, platform_revenue, bank_transit, merchant_settlement,
  refund_payable,
}
use pay_fast_processor.Store.Sql.{Result, ok, err}
use pay_fast_processor.Runtime.Json.{Error}
use pay_fast_processor.Runtime.World.{Env, World}
use pay_fast_processor.Runtime.Act.{
  Act, pure, wrapping, ◌>>=◌, ◌>>◌, generate, tx_exec, tx_query, attempt, as_error,
}
use pay_fast_processor.Runtime.Triple.{Triple, Triple-bind, Triple-wrapping, Triple-pure}
use pay_fast_processor.Runtime.Transaction.{
  InTx, Any, Reads, Triple-tx_exec, Triple-attempt, Triple-generate,
}
use pay_fast_processor.Books.{kind_is, is_account, account_of, account_exists, insert_account}
use pay_fast_processor.Books.Inserts.{Leads-insert_account, any-append, any-find}

-- The id that the query found, or a new account where it had an error.
unfoldable pub ensure_account :
    Env → String → AccountType → String → String → Result Error String → Act String
ensure_account env failure kind merchant_id currency (ok id) = pure id
ensure_account env failure kind merchant_id currency (err _) = do
  id ← generate env "acc_"
  wrapping failure (
      tx_exec env (
        insert_account
          (record { id = id; merchant_id = some merchant_id; kind = kind; currency = currency })))
  pure id

-- An account with this id, of this type, merchant and currency is there.
abbrev pub HasAccount : AccountType → String → String → String → Db → Type 0
HasAccount kind m c id d = any (λ a. a.id == id && is_account kind m c a) d.accounts ≡ true

abbrev pub Found : {A : Type 0} → Result Error A → (A → Type 0) → Type 0
Found (ok a) P = P a
Found (err e) P = Unit

kind_is_self : (k : AccountType) → kind_is k k ≡ true
kind_is_self merchant_payable = refl
kind_is_self platform_revenue = refl
kind_is_self bank_transit = refl
kind_is_self merchant_settlement = refl
kind_is_self refund_payable = refl

module _ (kind : AccountType) (m c : String) where
  new-HasAccount :
      (id : String) (d : Db)
      → HasAccount kind m c id (record d {
        accounts =
            d.accounts ++ record { id = id; merchant_id = some m; kind = kind; currency = c } ∷ [];
      })
  new-HasAccount id d =
      rw (any-append, kind_is_self, eq_refl id, eq_refl m, eq_refl c) (ground arith)

  pub account_of-Found :
      (d : Db) → Found (as_error (account_of kind m c d)) (λ id. HasAccount kind m c id d)
  unfolding account_of
  account_of-Found d = elim (Option-cases (find (is_account kind m c) d.accounts)) [
    | inl missing ↦ rw missing tt
    | inr (a, found) ↦ rw found (any-find (is_account kind m c) d.accounts a found)
  ]

-- A property of the database that a new account does not disturb.
abbrev pub AllowsAccounts : (Db → Type 0) → Type 0
AllowsAccounts R = (d : Db) (a : Account) → R d → R (record d { accounts = d.accounts ++ a ∷ [] })

module _ (env : Env) (w0 : World) (kind : AccountType) (m c : String) (R : Db → Type 0) where
  pub Triple-find_account :
      Triple
        (InTx w0 R)
        (attempt (tx_query env (account_of kind m c)))
        (λ r. InTx w0 (λ d. R d × Found r (λ id. HasAccount kind m c id d)))
        (InTx w0 Any)
  Triple-find_account =
      Triple-attempt env w0 R _ (account_of kind m c) λ d h. (h, account_of-Found kind m c d)

  pub Triple-ensure_account :
      AllowsAccounts R
      → (failure : String) (r : Result Error String)
      → Triple
          (InTx w0 (λ d. R d × Found r (λ id. HasAccount kind m c id d)))
          (ensure_account env failure kind m c r)
          (λ id. InTx w0 (λ d. R d × HasAccount kind m c id d))
          (InTx w0 Any)
  unfolding ensure_account
  Triple-ensure_account keep failure (ok id) = Triple-pure id (λ w h. h)
  Triple-ensure_account keep failure (err e) =
      Triple-bind _ _ (Triple-generate env w0 _ "acc_") λ id.
        Triple-bind _ _
          (Triple-wrapping failure _ (
            Triple-tx_exec env w0 _ (λ _ d. R d × HasAccount kind m c id d) _
              λ d h. Leads-insert_account _ _ d (keep d _ h.0, new-HasAccount kind m c id d)))
          λ _. Triple-pure id (λ w h. h)

pub HasAccount-AllowsAccounts :
    (kind : AccountType) (m c id : String) → AllowsAccounts (HasAccount kind m c id)
HasAccount-AllowsAccounts kind m c id d a h = rw (any-append, h)

pub account_exists-Reads :
    (R : Db → Type 0) (id : String) (d : Db) → R d → Reads (λ _. R d) (account_exists id d)
unfolding account_exists
account_exists-Reads R id d h = h

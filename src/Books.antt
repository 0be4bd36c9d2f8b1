-- ===== src/Books.antt =====
-- Double-entry bookkeeping in the tables `accounts` and `ledger_entries`: the statements that the
-- ledger service and the settlement service share.
pub mod Balance
pub mod Inserts
pub mod Accounts
use pay_fast_processor.Prelude.{
  String, Bool, List, true, false, Option, none, some, [], ◌∷◌, ◌++◌, any, find, not, ◌&&◌, ◌||◌,
  ◌==◌,
}
use pay_fast_processor.Prelude.Int.{ℤ, pos, ltb_ℤ}
use pay_fast_processor.Store.Schema.{
  Db, Account, AccountType, merchant_payable, merchant_settlement, LedgerEntry, column_is,
  platform_revenue, bank_transit, refund_payable,
}
use pay_fast_processor.Store.Sql.{
  SqlError, no_rows, unique_violation, foreign_key_violation, check_violation, Result, ok, err,
  Stmt, Query, constrained,
}

abbrev pub kind_is : AccountType → AccountType → Bool
kind_is merchant_payable merchant_payable = true
kind_is platform_revenue platform_revenue = true
kind_is bank_transit bank_transit = true
kind_is merchant_settlement merchant_settlement = true
kind_is refund_payable refund_payable = true
kind_is _ _ = false

-- The account of a merchant, of a type and in a currency.
abbrev pub is_account : AccountType → String → String → Account → Bool
is_account kind merchant_id currency a =
    (column_is a.merchant_id merchant_id && kind_is kind a.kind) && a.currency == currency

abbrev pub account_id : Option Account → Result SqlError String
account_id none = err no_rows
account_id (some a) = ok a.id

-- `SELECT id FROM accounts WHERE merchant_id = $1 AND type = … AND currency = $2`.
unfoldable pub account_of : AccountType → String → String → Query String
account_of kind merchant_id currency d =
    account_id (find (is_account kind merchant_id currency) d.accounts)

abbrev pub has_account : String → Db → Bool
has_account id d = any (λ a. a.id == id) d.accounts

unfoldable pub account_exists : String → Query Bool
account_exists id d = ok (has_account id d)

abbrev pub has_merchant : Option String → Db → Bool
has_merchant none d = true
has_merchant (some id) d = any (λ m. m.id == id) d.merchants

-- `uq_merchant_account`; a NULL merchant is equal to no other.
abbrev pub is_duplicate : Account → Account → Bool
is_duplicate a b = elim a.merchant_id [ none ↦ false | some m ↦ is_account a.kind m a.currency b ]

abbrev pub account_constraints : Account → Db → List (Bool × SqlError)
account_constraints a d =
    (not (has_account a.id d), unique_violation)
    ∷ (not (any (is_duplicate a) d.accounts), unique_violation)
    ∷ (has_merchant a.merchant_id d, foreign_key_violation)
    ∷ []

unfoldable pub insert_account : Account → Stmt Unit
insert_account a d =
    constrained (account_constraints a d) (tt, record d { accounts = d.accounts ++ a ∷ [] })

abbrev pub has_payment : Option String → Db → Bool
has_payment none d = true
has_payment (some id) d = any (λ p. p.id == id) d.payments

abbrev pub entry_constraints : LedgerEntry → Db → List (Bool × SqlError)
entry_constraints e d =
    (ltb_ℤ (pos 0) e.amount, check_violation)
    ∷ (not (any (λ x. x.id == e.id) d.ledger_entries), unique_violation)
    ∷ (has_account e.account_id d, foreign_key_violation)
    ∷ (has_payment e.payment_id d, foreign_key_violation)
    ∷ []

unfoldable pub insert_ledger_entry : LedgerEntry → Stmt Unit
insert_ledger_entry e d =
    constrained (entry_constraints e d)
      (tt, record d { ledger_entries = d.ledger_entries ++ e ∷ [] })

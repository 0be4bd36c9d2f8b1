-- ===== src/Ledger.antt =====
-- services/ledger/service/ledger_service.go: the consumer that books a created payment.
pub mod Booked
pub mod Posting
pub mod Delivery
mod Tests
use pay_fast_processor.Prelude.{
  ℕ, String, Bool, true, false, Option, none, some, List, [], ◌∷◌, ◌++◌, find, update, ◌==◌,
  if◌then◌else◌,
}
use pay_fast_processor.Prelude.Int.{ℤ}
use pay_fast_processor.Store.Schema.{
  Db, Payment, PaymentStatus, initiated, Account, merchant_payable, bank_transit, LedgerEntry,
  debit, credit,
}
use pay_fast_processor.Store.Sql.{SqlError, no_rows, Result, ok, err, Stmt, Query}
use pay_fast_processor.Runtime.Json.{Json, Error, unmarshal, text, number, text_field, number_field}
use pay_fast_processor.Runtime.World.{Env, Message, World}
use pay_fast_processor.Runtime.Act.{
  Act, pure, lift, wrapping, attempt, gets, ◌>>=◌, ◌>>◌, rolling_back, tx_query, tx_exec, begin,
  commit, generate, publish_webhook_event, in_background,
}
use pay_fast_processor.Store.Sql
use pay_fast_processor.Books.Accounts.{ensure_account}
use pay_fast_processor.Books.{account_of, account_exists, insert_account, insert_ledger_entry}

pub record PaymentEvent : Type 0 where
  pub payment_id : String
  pub amount : ℤ
  pub currency : String
  pub token_id : String
  pub status : String

-- `json.Unmarshal(eventData, &event)`.
unfoldable pub decode_event : Option Json → Result Error PaymentEvent
decode_event none = err unmarshal
decode_event (some o) = Sql.◌>>=◌ (text_field "payment_id" o) λ p.
    Sql.◌>>=◌ (number_field "amount" o) λ a. Sql.◌>>=◌ (text_field "currency" o) λ c.
      Sql.◌>>=◌ (text_field "token_id" o) λ t.
        Sql.◌>>=◌ (text_field "status" o)
          λ s. ok (record { payment_id = p; amount = a; currency = c; token_id = t; status = s })

abbrev pub has_id : String → Payment → Bool
has_id id p = p.id == id

abbrev pub merchant_of : Option Payment → Result SqlError String
merchant_of none = err no_rows
merchant_of (some p) = ok p.merchant_id

unfoldable pub merchant_of_payment : String → Query String
merchant_of_payment id d = merchant_of (find (has_id id) d.payments)

abbrev pub initiate : ℕ → Payment → Payment
initiate now p = record p { status = initiated; updated_at = now }

unfoldable pub mark_initiated : String → ℕ → Stmt Unit
mark_initiated id now d =
    ok (tt, record d { payments = update (has_id id) (initiate now) d.payments })

abbrev pub system_account_id : String
system_account_id = "acc_system_01"

abbrev pub webhook_event : PaymentEvent → Json
webhook_event event =
    ("event_type", text "payment.initiated")
    ∷ ("payment_id", text event.payment_id)
    ∷ ("status", text "initiated")
    ∷ ("amount", number event.amount)
    ∷ ("currency", text event.currency)
    ∷ []

abbrev pub debit_entry : PaymentEvent → String → String → ℕ → LedgerEntry
debit_entry event id group now = record {
  id = id;
  transaction_group_id = group;
  account_id = system_account_id;
  payment_id = some event.payment_id;
  entry_type = debit;
  amount = event.amount;
  currency = event.currency;
  created_at = now;
}

abbrev pub credit_entry : PaymentEvent → String → String → String → ℕ → LedgerEntry
credit_entry event id group account_id now = record {
  id = id;
  transaction_group_id = group;
  account_id = account_id;
  payment_id = some event.payment_id;
  entry_type = credit;
  amount = event.amount;
  currency = event.currency;
  created_at = now;
}

module _ (env : Env) where
  unfoldable pub ensure_system_account : Bool → String → Act Unit
  ensure_system_account true currency = pure tt
  ensure_system_account false currency = wrapping "failed to create system account" (
      tx_exec env (
        insert_account (record {
          id = system_account_id;
          merchant_id = none;
          kind = bank_transit;
          currency = currency;
        })))

  -- The debit of the system account and the credit of the merchant's.
  unfoldable pub post_entries : PaymentEvent → String → String → ℕ → Act Unit
  post_entries event group account_id now = do
    debit_id ← generate env "le_"
    wrapping "failed to create debit ledger entry"
        (tx_exec env (insert_ledger_entry (debit_entry event debit_id group now)))
    credit_id ← generate env "le_"
    wrapping "failed to create credit ledger entry"
        (tx_exec env (insert_ledger_entry (credit_entry event credit_id group account_id now)))

  -- The statements between `Begin` and the return.
  unfoldable pub book : PaymentEvent → Act Unit
  book event = do
    now ← gets (λ w. w.now)
    merchant_id ←
        wrapping "failed to get merchant_id" (tx_query env (merchant_of_payment event.payment_id))
    wrapping "failed to update payment status" (tx_exec env (mark_initiated event.payment_id now))
    found ← attempt (tx_query env (account_of merchant_payable merchant_id event.currency))
    account_id ←
        ensure_account env "failed to create merchant account" merchant_payable merchant_id
          event.currency found
    group ← generate env "txg_"
    exists ←
        wrapping "failed to check system account" (tx_query env (account_exists system_account_id))
    ensure_system_account exists event.currency
    post_entries event group account_id now
    wrapping "failed to commit ledger transaction" (commit env)
    in_background (publish_webhook_event env event.payment_id (webhook_event event))

  unfoldable pub process_event : PaymentEvent → Act Unit
  process_event event =
      if event.status == "created"
      then (do wrapping "failed to begin transaction" (begin env); rolling_back (book event))
      else pure tt

  unfoldable pub handle_payment_event : Option Json → Act Unit
  handle_payment_event event_data = do
    event ← wrapping "failed to unmarshal event" (lift (decode_event event_data))
    process_event event

-- ===== src/Settlement.antt =====
-- services/settlements/service/settlement_service.go: the poll that dispatches due payments, and
-- the consumer that settles them.
pub mod Payout
pub mod Posting
pub mod Delivery
pub mod Redelivery
pub mod Poll
pub mod Rest
pub mod Dispatch
mod Tests
use pay_fast_processor.Prelude.{
  ℕ, String, Bool, true, false, Option, none, some, List, [], ◌∷◌, ◌++◌, not, any, update, count,
  eqb, ◌&&◌, ◌==◌, if◌then◌else◌,
}
use pay_fast_processor.Prelude.Int.{ℤ}
use pay_fast_processor.Store.Schema.{
  Db, Payment, PaymentStatus, processed, merchant_payable, merchant_settlement, Settlement,
  LedgerEntry, debit, credit, is_null,
}
use pay_fast_processor.Store.Sql
use pay_fast_processor.Store.Sql.{
  SqlError, unique_violation, foreign_key_violation, Result, ok, err, Stmt, constrained,
}
use pay_fast_processor.Runtime.Json.{
  Json, Error, unmarshal, text, number, text_field, number_field, texts_field,
}
use pay_fast_processor.Runtime.World.{Env, World}
use pay_fast_processor.Runtime.Act.{
  Act, pure, lift, wrapping, attempt, gets, ◌>>=◌, ◌>>◌, rolling_back, tx_query, tx_exec, begin,
  commit, generate, publish_payment_event, in_background,
}
use pay_fast_processor.Books.{account_of, has_merchant, insert_ledger_entry}
use pay_fast_processor.Books.Accounts.{ensure_account}

pub record SettleEvent : Type 0 where
  pub payment_id : String
  pub payment_ids : List String
  pub merchant_id : String
  pub amount : ℤ
  pub currency : String
  pub status : String

-- `json.Unmarshal(msg.Value, &event)`.
unfoldable pub decode_event : Option Json → Result Error SettleEvent
decode_event none = err unmarshal
decode_event (some o) = Sql.◌>>=◌ (text_field "payment_id" o) λ p.
    Sql.◌>>=◌ (texts_field "payment_ids" o) λ ps. Sql.◌>>=◌ (text_field "merchant_id" o) λ m.
      Sql.◌>>=◌ (number_field "amount" o) λ a. Sql.◌>>=◌ (text_field "currency" o) λ c.
        Sql.◌>>=◌ (text_field "status" o) λ s. ok (record {
          payment_id = p;
          payment_ids = ps;
          merchant_id = m;
          amount = a;
          currency = c;
          status = s;
        })

-- The ids in the event, or the one of the older form.
abbrev one_target : String → List String
one_target id = if id == "" then [] else id ∷ []

abbrev targets : List String → String → List String
targets [] id = one_target id
targets (p ∷ ps) id = p ∷ ps

abbrev pub target_payment_ids : SettleEvent → List String
target_payment_ids event = targets event.payment_ids event.payment_id

abbrev pub settlement_of : SettleEvent → String → ℕ → Settlement
settlement_of event id now = record {
  id = id;
  merchant_id = event.merchant_id;
  amount = event.amount;
  currency = event.currency;
  status = "processed";
  created_at = now;
  updated_at = now;
}

abbrev pub settlement_constraints : Settlement → Db → List (Bool × SqlError)
settlement_constraints s d =
    (not (any (λ x. x.id == s.id) d.settlements), unique_violation)
    ∷ (has_merchant (some s.merchant_id) d, foreign_key_violation)
    ∷ []

unfoldable pub insert_settlement : Settlement → Stmt Unit
insert_settlement s d =
    constrained (settlement_constraints s d)
      (tt, record d { settlements = d.settlements ++ s ∷ [] })

-- `id = ANY($2) AND settlement_id IS NULL`.
abbrev pub is_open_target : List String → Payment → Bool
is_open_target ids p = any (λ id. p.id == id) ids && is_null p.settlement_id

abbrev pub settle : String → ℕ → Payment → Payment
settle settlement_id now p = record p {
  settlement_id = some settlement_id;
  status = processed;
  updated_at = now;
}

-- `UPDATE payments SET settlement_id = …`; the result is `RowsAffected`.
unfoldable pub attach_settlement : String → List String → ℕ → Stmt ℕ
attach_settlement settlement_id ids now d = ok (
  count (is_open_target ids) d.payments,
  record d { payments = update (is_open_target ids) (settle settlement_id now) d.payments },
)

abbrev pub debit_entry : SettleEvent → String → String → String → ℕ → LedgerEntry
debit_entry event id group account_id now = record {
  id = id;
  transaction_group_id = group;
  account_id = account_id;
  payment_id = none;
  entry_type = debit;
  amount = event.amount;
  currency = event.currency;
  created_at = now;
}

abbrev pub credit_entry : SettleEvent → String → String → String → ℕ → LedgerEntry
credit_entry event id group account_id now = record {
  id = id;
  transaction_group_id = group;
  account_id = account_id;
  payment_id = none;
  entry_type = credit;
  amount = event.amount;
  currency = event.currency;
  created_at = now;
}

abbrev pub settled_event : SettleEvent → String → Json
settled_event event id =
    ("event_type", text "payment.settled")
    ∷ ("payment_id", text id)
    ∷ ("status", text "settled")
    ∷ ("amount", number event.amount)
    ∷ ("currency", text event.currency)
    ∷ []

module _ (env : Env) where
  -- The loop over the payments after the commit. The producer is the service's one, which writes
  -- to "payment_events".
  unfoldable pub announce : SettleEvent → List String → Act Unit
  announce event [] = pure tt
  announce event (id ∷ ids) = do
    in_background (publish_payment_event env id (settled_event event id))
    announce event ids

  -- The two entries, from the payable to the settlement account.
  unfoldable pub post_entries : SettleEvent → String → String → ℕ → Act Unit
  post_entries event payable_id settlement_id now = do
    group ← generate env "txg_"
    debit_id ← generate env "le_"
    wrapping "failed to create debit ledger entry"
        (tx_exec env (insert_ledger_entry (debit_entry event debit_id group payable_id now)))
    credit_id ← generate env "le_"
    wrapping "failed to create credit ledger entry"
        (tx_exec env (insert_ledger_entry (credit_entry event credit_id group settlement_id now)))

  -- What follows when payments were attached.
  unfoldable pub pay_out : SettleEvent → List String → ℕ → Act Unit
  pay_out event ids now = do
    found ← attempt (tx_query env (account_of merchant_payable event.merchant_id event.currency))
    payable_id ←
        ensure_account env "failed to create merchant payable account" merchant_payable
          event.merchant_id event.currency found
    found' ←
        attempt (tx_query env (account_of merchant_settlement event.merchant_id event.currency))
    settlement_id ←
        ensure_account env "failed to create settlement account" merchant_settlement
          event.merchant_id event.currency found'
    post_entries event payable_id settlement_id now
    wrapping "failed to commit settlement transaction" (commit env)
    announce event ids

  -- The targets that have no settlement yet are attached; if there is none, the event is done.
  unfoldable pub attach : SettleEvent → List String → String → ℕ → Act Unit
  attach event [] settlement_id now = pure tt
  attach event (id ∷ ids) settlement_id now = do
    affected ←
        wrapping "failed to attach settlement id"
          (tx_exec env (attach_settlement settlement_id (id ∷ ids) now))
    if eqb affected 0 then pure tt else pay_out event (id ∷ ids) now

  -- The statements between `Begin` and the return.
  unfoldable pub settle_payments : SettleEvent → Act Unit
  settle_payments event = do
    now ← gets (λ w. w.now)
    settlement_id ← generate env "set_"
    wrapping "failed to create settlement record"
        (tx_exec env (insert_settlement (settlement_of event settlement_id now)))
    attach event (target_payment_ids event) settlement_id now

  unfoldable pub process_event : SettleEvent → Act Unit
  process_event event =
      if event.status == "initiated"
      then (do
        wrapping "failed to begin transaction" (begin env)
        rolling_back (settle_payments event))
      else pure tt

  -- `HandleSettleEvent`.
  unfoldable pub handle_settle_event : Option Json → Act Unit
  handle_settle_event value = do
    event ← wrapping "failed to unmarshal settle event" (lift (decode_event value))
    process_event event

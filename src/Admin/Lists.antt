-- ===== src/Admin/Lists.antt =====
-- The lists of the dashboard, and their handlers: services/admin_api/service/admin_service.go and
-- services/admin_api/handler/admin_handler.go.
use pay_fast_processor.Prelude.{
  ℕ, String, Option, none, some, List, [], ◌∷◌, Bool, map, select, ◌==◌,
}
use pay_fast_processor.Prelude.Int.{ℤ}
use pay_fast_processor.Store.Schema.{
  Payment, PaymentStatus, created, processing, requires_action, authorized, captured, failed,
  canceled, initiated, processed, settled, refunded, Settlement, LedgerEntry, EntryType, debit,
  credit, Subscription, SubscriptionStatus, active, past_due, canceled_plan, unpaid, Refund,
}
use pay_fast_processor.Store.Sql
use pay_fast_processor.Store.Sql.{unavailable, null_into_value, Result, ok, err}
use pay_fast_processor.Store.Rows.{latest, order_desc}
use pay_fast_processor.Runtime.Json.{Error, sql}
use pay_fast_processor.Runtime.World.{Env}
use pay_fast_processor.Runtime.Rows.{pool_rows}
use pay_fast_processor.Runtime.Act.{Act, pure, lift, wrapping, ◌>>=◌}

-- `status` as the text that PostgreSQL sends for the enum.
abbrev pub payment_status : PaymentStatus → String
payment_status created = "created"
payment_status processing = "processing"
payment_status requires_action = "requires_action"
payment_status authorized = "authorized"
payment_status captured = "captured"
payment_status failed = "failed"
payment_status canceled = "canceled"
payment_status initiated = "initiated"
payment_status processed = "processed"
payment_status settled = "settled"
payment_status refunded = "refunded"

abbrev pub entry_type : EntryType → String
entry_type debit = "debit"
entry_type credit = "credit"

abbrev pub subscription_status : SubscriptionStatus → String
subscription_status active = "active"
subscription_status past_due = "past_due"
subscription_status canceled_plan = "canceled"
subscription_status unpaid = "unpaid"

pub record PaymentRecord : Type 0 where
  pub id : String
  pub amount : ℤ
  pub currency : String
  pub status : String
  pub created_at : ℕ
  pub settlement_id : Option String

pub record SettlementRecord : Type 0 where
  pub id : String
  pub merchant_id : String
  pub amount : ℤ
  pub currency : String
  pub status : String
  pub created_at : ℕ

pub record LedgerRecord : Type 0 where
  pub id : String
  pub account_id : String
  pub payment_id : String
  pub entry_type : String
  pub amount : ℤ
  pub created_at : ℕ

pub record SubscriptionRecord : Type 0 where
  pub id : String
  pub status : String
  pub interval : String
  pub amount : ℤ
  pub current_period_end : ℕ

pub record RefundRecord : Type 0 where
  pub id : String
  pub payment_id : String
  pub amount : ℤ
  pub currency : String
  pub status : String
  pub created_at : ℕ

abbrev pub scan_payment : Payment → PaymentRecord
scan_payment p = record {
  id = p.id;
  amount = p.amount;
  currency = p.currency;
  status = payment_status p.status;
  created_at = p.created_at;
  settlement_id = p.settlement_id;
}

abbrev pub scan_settlement : Settlement → SettlementRecord
scan_settlement s = record {
  id = s.id;
  merchant_id = s.merchant_id;
  amount = s.amount;
  currency = s.currency;
  status = s.status;
  created_at = s.created_at;
}

abbrev ledger_record : LedgerEntry → Option String → Result Error LedgerRecord
ledger_record e none = err (sql null_into_value)
ledger_record e (some payment_id) = ok (record {
  id = e.id;
  account_id = e.account_id;
  payment_id = payment_id;
  entry_type = entry_type e.entry_type;
  amount = e.amount;
  created_at = e.created_at;
})

-- `payment_id` is nullable, and its variable is a string.
abbrev pub scan_ledger : LedgerEntry → Result Error LedgerRecord
scan_ledger e = ledger_record e e.payment_id

abbrev pub scan_subscription : Subscription → SubscriptionRecord
scan_subscription s = record {
  id = s.id;
  status = subscription_status s.status;
  interval = s.interval;
  amount = s.amount;
  current_period_end = s.current_period_end;
}

abbrev pub scan_refund : Refund → RefundRecord
scan_refund r = record {
  id = r.id;
  payment_id = r.payment_id;
  amount = r.amount;
  currency = r.currency;
  status = r.status;
  created_at = r.created_at;
}

-- The loop over `rows.Next()`, where the first row that cannot be scanned ends it.
unfoldable pub scan_all : {A B : Type 0} → (A → Result Error B) → List A → Result Error (List B)
scan_all scan [] = ok []
scan_all scan (row ∷ rows) =
    Sql.◌>>=◌ (scan row) λ record_. Sql.◌>>=◌ (scan_all scan rows) λ records. ok (record_ ∷ records)

abbrev pub of_merchant : String → Refund → Bool
of_merchant merchant_id r = r.merchant_id == merchant_id

module _ (env : Env) where
  -- `GetPayments`.
  unfoldable pub get_payments : Act (List PaymentRecord)
  get_payments = do
    rows ←
        wrapping "failed to query payments"
          (pool_rows env (λ d. latest (λ p. p.created_at) 50 d.payments))
    wrapping "failed to scan payment" (lift (scan_all (λ p. ok (scan_payment p)) rows))

  -- `GetSettlements`.
  unfoldable pub get_settlements : Act (List SettlementRecord)
  get_settlements = do
    rows ←
        wrapping "failed to query settlements"
          (pool_rows env (λ d. latest (λ s. s.created_at) 50 d.settlements))
    wrapping "failed to scan settlement" (lift (scan_all (λ s. ok (scan_settlement s)) rows))

  -- `GetRecentLedgerEntries`.
  unfoldable pub get_recent_ledger_entries : Act (List LedgerRecord)
  get_recent_ledger_entries = do
    rows ←
        wrapping "failed to query ledger entries"
          (pool_rows env (λ d. latest (λ e. e.created_at) 50 d.ledger_entries))
    lift (scan_all scan_ledger rows)

  -- `GetSubscriptions`.
  unfoldable pub get_subscriptions : Act (List SubscriptionRecord)
  get_subscriptions = do
    rows ←
        wrapping "failed to query subscriptions"
          (pool_rows env (λ d. latest (λ s. s.created_at) 20 d.subscriptions))
    lift (scan_all (λ s. ok (scan_subscription s)) rows)

  -- `GetRefunds`: it has no limit, and a row that cannot be scanned is left out.
  unfoldable pub get_refunds : String → Act (List RefundRecord)
  get_refunds merchant_id = do
    rows ← wrapping "failed to fetch refunds" (
        pool_rows env
          (λ d. order_desc (λ r. r.created_at) (select (of_merchant merchant_id) d.refunds)))
    pure (map scan_refund rows)

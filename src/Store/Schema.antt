-- ===== src/Store/Schema.antt =====
-- The tables of migrations/*.up.sql: the columns that the Go code reads or writes. A nullable
-- column is an `Option`, an enum type is a data type, and a timestamp counts seconds.
use pay_fast_processor.Prelude.{ℕ, String, Bool, true, false, Option, none, some, List, ◌==◌, ◌≡◌}
use pay_fast_processor.Prelude.Int.{ℤ}
use pay_fast_processor.Store.Value.{Json}

pub data PayoutSchedule : Type 0 where
  instant one_hour twelve_hours twenty_four_hours daily weekly biweekly monthly : PayoutSchedule

pub record Merchant : Type 0 where
  pub id : String
  pub payout_schedule : PayoutSchedule
  pub webhook_url : Option String
  pub webhook_secret_hash : Option String
  pub updated_at : ℕ

pub data MethodType : Type 0 where
  card upi netbanking : MethodType

pub record PaymentMethod : Type 0 where
  pub id : String
  pub merchant_id : String
  pub kind : MethodType
  pub card_last_four : Option (List ℕ)
  pub card_exp_month : Option ℤ
  pub card_exp_year : Option ℤ
  pub card_fingerprint : Option String
  pub encrypted_pan : Option (List ℕ)
  pub encryption_key_id : Option String
  pub upi_vpa : Option String
  pub bank_code : Option String

pub data PaymentStatus : Type 0 where
  created processing requires_action authorized captured failed canceled : PaymentStatus
  initiated processed settled refunded : PaymentStatus

pub record Payment : Type 0 where
  pub id : String
  pub merchant_id : String
  pub payment_method_id : String
  pub payment_method_type : MethodType
  pub amount : ℤ
  pub currency : String
  pub status : PaymentStatus
  pub idempotency_key : String
  pub risk_score : Option ℕ
  pub settlement_id : Option String
  pub created_at : ℕ
  pub updated_at : ℕ

pub data AccountType : Type 0 where
  merchant_payable platform_revenue bank_transit merchant_settlement refund_payable : AccountType

pub record Account : Type 0 where
  pub id : String
  pub merchant_id : Option String
  pub kind : AccountType
  pub currency : String

pub data EntryType : Type 0 where
  debit credit : EntryType

pub record LedgerEntry : Type 0 where
  pub id : String
  pub transaction_group_id : String
  pub account_id : String
  pub payment_id : Option String
  pub entry_type : EntryType
  pub amount : ℤ
  pub currency : String
  pub created_at : ℕ

pub record Settlement : Type 0 where
  pub id : String
  pub merchant_id : String
  pub amount : ℤ
  pub currency : String
  pub status : String
  pub created_at : ℕ
  pub updated_at : ℕ

pub record Refund : Type 0 where
  pub id : String
  pub payment_id : String
  pub merchant_id : String
  pub amount : ℤ
  pub currency : String
  pub status : String
  pub created_at : ℕ

pub record IdempotencyKey : Type 0 where
  pub key : String
  pub merchant_id : String
  pub request_path : String
  pub request_method : String
  pub response_code : Option ℕ
  pub response_body : Option Json
  pub status : String

pub data SubscriptionStatus : Type 0 where
  active past_due canceled_plan unpaid : SubscriptionStatus

pub record Subscription : Type 0 where
  pub id : String
  pub merchant_id : String
  pub customer_id : String
  pub payment_method_id : String
  pub plan_id : String
  pub amount : ℤ
  pub currency : String
  pub interval : String
  pub status : SubscriptionStatus
  pub current_period_start : ℕ
  pub current_period_end : ℕ
  pub created_at : ℕ

pub data InvoiceStatus : Type 0 where
  draft open_invoice paid uncollectible void : InvoiceStatus

pub record Invoice : Type 0 where
  pub id : String
  pub subscription_id : String
  pub merchant_id : String
  pub amount : ℤ
  pub currency : String
  pub status : InvoiceStatus
  pub payment_id : Option String

pub record Db : Type 0 where
  pub merchants : List Merchant
  pub payment_methods : List PaymentMethod
  pub payments : List Payment
  pub accounts : List Account
  pub ledger_entries : List LedgerEntry
  pub settlements : List Settlement
  pub refunds : List Refund
  pub idempotency_keys : List IdempotencyKey
  pub subscriptions : List Subscription
  pub invoices : List Invoice

-- The tables that the books and the payments leave alone.
abbrev pub SameRest : Db → Db → Type 0
SameRest d0 d =
    (d.merchants ≡ d0.merchants)
    × (d.payment_methods ≡ d0.payment_methods)
    × (d.idempotency_keys ≡ d0.idempotency_keys)
    × (d.subscriptions ≡ d0.subscriptions)
    × (d.invoices ≡ d0.invoices)

-- Enum columns compared in a `WHERE` clause.
abbrev pub is_initiated : PaymentStatus → Bool
is_initiated initiated = true
is_initiated _ = false

abbrev pub is_processed : PaymentStatus → Bool
is_processed processed = true
is_processed _ = false

-- `column = $1` on a nullable column: NULL equals nothing.
abbrev pub column_is : Option String → String → Bool
column_is none s = false
column_is (some c) s = c == s

-- `column IS NULL`.
abbrev pub is_null {ℓ} : {A : Type ℓ} → Option A → Bool
is_null none = true
is_null (some _) = false

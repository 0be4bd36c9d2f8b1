-- ===== src/Samples.antt =====
-- A small database and two environments, on which the witnesses and the tests run.
use pay_fast_processor.Prelude.{
  ℕ, zero, suc, String, true, false, Option, some, none, List, [], ◌∷◌, concat, eqb,
}
use pay_fast_processor.Prelude.Decimal.{decimal}
use pay_fast_processor.Prelude.Int.{ℤ, pos}
use pay_fast_processor.Store.Schema.{
  Db, Merchant, instant, PaymentMethod, card, Payment, PaymentStatus, created, Account, LedgerEntry,
}
use pay_fast_processor.Runtime.Json.{Json, text, number}
use pay_fast_processor.Runtime.World.{Env, World, idle}

abbrev pub tally : ℕ → String
tally zero = ""
tally (suc n) = concat "I" (tally n)

-- No call fails.
abbrev pub calm : Env
calm = record {
  fails = λ _. false;
  ulid = tally;
  unix_nano = tally;
  random = λ n. n;
  answer = λ _. some 200;
  latency = λ _. 0;
  valid_url = λ _. true;
  time_text = λ n. concat "T" (tally n);
  cents_text = decimal;
  sql_text = λ _. "database error";
  unmarshal_text = "invalid JSON";
  broker_text = "broker unavailable";
  cache_text = "cache unavailable";
  file_text = "file unavailable";
}

-- The call with this number fails.
abbrev pub failing_at : ℕ → Env
failing_at k = record calm { fails = λ n. eqb n k }

abbrev pub merchant : Merchant
merchant = record {
  id = "merch_01test";
  payout_schedule = instant;
  webhook_url = some "https://shop.example/hook";
  webhook_secret_hash = none;
  updated_at = 0;
}

abbrev pub method : PaymentMethod
method = record {
  id = "pm_1";
  merchant_id = "merch_01test";
  kind = card;
  card_last_four = none;
  card_exp_month = none;
  card_exp_year = none;
  card_fingerprint = none;
  encrypted_pan = none;
  encryption_key_id = none;
  upi_vpa = none;
  bank_code = none;
}

abbrev pub payment : String → PaymentStatus → ℤ → Payment
payment id status amount = record {
  id = id;
  merchant_id = "merch_01test";
  payment_method_id = "pm_1";
  payment_method_type = card;
  amount = amount;
  currency = "USD";
  status = status;
  idempotency_key = id;
  risk_score = none;
  settlement_id = none;
  created_at = 0;
  updated_at = 0;
}

abbrev pub db_of : List Payment → List Account → List LedgerEntry → Db
db_of payments accounts entries = record {
  merchants = merchant ∷ [];
  payment_methods = method ∷ [];
  payments = payments;
  accounts = accounts;
  ledger_entries = entries;
  settlements = [];
  refunds = [];
  idempotency_keys = [];
  subscriptions = [];
  invoices = [];
}

abbrev pub at_rest_with : Db → World
at_rest_with d = record {
  db = d;
  tx = idle;
  cache = [];
  payment_events = [];
  webhook_events = [];
  posts = [];
  archives = [];
  now = 100;
  tick = 0;
}

abbrev pub one_created : World
one_created = at_rest_with (db_of (payment "py_1" created (pos 500) ∷ []) [] [])

abbrev pub created_event : Option Json
created_event = some (
    ("payment_id", text "py_1")
    ∷ ("merchant_id", text "merch_01test")
    ∷ ("amount", number (pos 500))
    ∷ ("currency", text "USD")
    ∷ ("token_id", text "pm_1")
    ∷ ("status", text "created")
    ∷ [])

-- ===== src/Admin/Settings.antt =====
-- The payout schedule of a merchant, and the settlement that a change to "instant" starts:
-- services/admin_api/service/admin_service.go.
use pay_fast_processor.Prelude.{
  ℕ, String, Bool, true, false, Option, none, some, List, [], ◌∷◌, find, select, update, concat,
  eqb, ◌&&◌, ◌==◌, if◌then◌else◌, length,
}
use pay_fast_processor.Prelude.Int.{ℤ, pos, ◌+ℤ◌}
use pay_fast_processor.Store.Schema.{
  Db, Merchant, Payment, Settlement, LedgerEntry, debit, credit, PayoutSchedule, instant, one_hour,
  twelve_hours, twenty_four_hours, daily, weekly, biweekly, monthly, processed, is_initiated,
  is_null,
}
use pay_fast_processor.Store.Sql.{SqlError, no_rows, unavailable, Result, ok, err, Stmt, Query}
use pay_fast_processor.Runtime.Json.{Error}
use pay_fast_processor.Runtime.World.{Env}
use pay_fast_processor.Runtime.Act.{
  Act, pure, wrapping, attempt, gets, ◌>>=◌, ◌>>◌, rolling_back, pool_query, pool_exec, tx_query,
  tx_exec, begin, commit, nano_text,
}
use pay_fast_processor.Books.{insert_ledger_entry}
use pay_fast_processor.Settlement.{insert_settlement}

-- The values of the enum type `payout_schedule`.
abbrev pub schedule_of : String → Option PayoutSchedule
schedule_of s =
    if s == "instant"
    then some instant
    else if s == "1_hour"
    then some one_hour
    else if s == "12_hours"
    then some twelve_hours
    else if s == "24_hours"
    then some twenty_four_hours
    else if s == "daily"
    then some daily
    else if s == "weekly"
    then some weekly
    else if s == "biweekly"
    then some biweekly
    else if s == "monthly"
    then some monthly
    else none

abbrev pub schedule_row : Option Merchant → Result SqlError PayoutSchedule
schedule_row none = err no_rows
schedule_row (some m) = ok m.payout_schedule

-- `SELECT payout_schedule FROM merchants WHERE id = $1`.
unfoldable pub select_schedule : String → Query PayoutSchedule
select_schedule id d = schedule_row (find (λ m. m.id == id) d.merchants)

abbrev pub with_schedule : PayoutSchedule → ℕ → Merchant → Merchant
with_schedule s now m = record m { payout_schedule = s; updated_at = now }

abbrev pub rescheduled : String → PayoutSchedule → ℕ → Db → Db
rescheduled id s now d = record d {
  merchants = update (λ m. m.id == id) (with_schedule s now) d.merchants;
}

abbrev set_to : String → ℕ → Option PayoutSchedule → Stmt Unit
set_to id now none d = err unavailable
set_to id now (some s) d = ok (tt, rescheduled id s now d)

-- The update of `payout_schedule`; a text that is no value of the type is an error.
unfoldable pub set_schedule : String → String → ℕ → Stmt Unit
set_schedule id schedule now = set_to id now (schedule_of schedule)

abbrev pub is_pending : String → Payment → Bool
is_pending merchant_id p =
    p.merchant_id == merchant_id && (is_initiated p.status && is_null p.settlement_id)

abbrev pub sum_of : List Payment → ℤ
sum_of [] = pos 0
sum_of (p ∷ ps) = p.amount +ℤ sum_of ps

-- The sum and the number of the pending payments.
unfoldable pub pending_total : String → Query (ℤ × ℕ)
pending_total merchant_id d =
    let ps = select (is_pending merchant_id) d.payments in ok (sum_of ps, length ps)

abbrev pub pending_settlement : String → String → ℤ → ℕ → Settlement
pending_settlement id merchant_id total now = record {
  id = id;
  merchant_id = merchant_id;
  amount = total;
  currency = "USD";
  status = "processed";
  created_at = now;
  updated_at = now;
}

abbrev pub settle_in : String → ℕ → Payment → Payment
settle_in id now p = record p { settlement_id = some id; status = processed; updated_at = now }

-- The update of the pending payments.
unfoldable pub attach_pending : String → String → ℕ → Stmt Unit
attach_pending id merchant_id now d =
    ok (tt, record d { payments = update (is_pending merchant_id) (settle_in id now) d.payments })

-- The currency is the column's default.
abbrev pub pending_debit : String → String → String → ℤ → ℕ → LedgerEntry
pending_debit nano merchant_id group total now = record {
  id = concat "led_" (concat nano "_1");
  transaction_group_id = group;
  account_id = concat "acc_merchant_payable_" merchant_id;
  payment_id = none;
  entry_type = debit;
  amount = total;
  currency = "INR";
  created_at = now;
}

abbrev pub pending_credit : String → String → String → ℤ → ℕ → LedgerEntry
pending_credit nano merchant_id group total now = record {
  id = concat "led_" (concat nano "_2");
  transaction_group_id = group;
  account_id = concat "acc_merchant_settlement_" merchant_id;
  payment_id = none;
  entry_type = credit;
  amount = total;
  currency = "INR";
  created_at = now;
}

module _ (env : Env) where
  -- The settlement and its entries, up to the commit.
  unfoldable pub settle_total : String → ℤ → ℕ → Act Unit
  settle_total merchant_id total now = do
    settlement_nano ← nano_text env
    wrapping "failed to create settlement" (
        tx_exec env (
          insert_settlement
            (pending_settlement (concat "set_" settlement_nano) merchant_id total now)))
    wrapping "failed to attach settlement id"
        (tx_exec env (attach_pending (concat "set_" settlement_nano) merchant_id now))
    group_nano ← nano_text env
    debit_nano ← nano_text env
    wrapping "failed ledger debit" (
        tx_exec env (
          insert_ledger_entry
            (pending_debit debit_nano merchant_id (concat "txg_" group_nano) total now)))
    credit_nano ← nano_text env
    wrapping "failed ledger credit" (
        tx_exec env (
          insert_ledger_entry
            (pending_credit credit_nano merchant_id (concat "txg_" group_nano) total now)))
    commit env

  abbrev pub settle_found : String → ℕ → Result Error (ℤ × ℕ) → Act Unit
  settle_found merchant_id now (err e) = pure tt
  settle_found merchant_id now (ok (total, n)) =
      if eqb n 0 then pure tt else settle_total merchant_id total now

  -- `settlePendingPayments`.
  unfoldable pub settle_pending_payments : String → Act Unit
  settle_pending_payments merchant_id = do
    begin env
    rolling_back (do
      now ← gets (λ w. w.now)
      found ← attempt (tx_query env (pending_total merchant_id))
      settle_found merchant_id now found)

  -- `GetMerchantSettings`.
  unfoldable pub get_merchant_settings : String → Act PayoutSchedule
  get_merchant_settings merchant_id =
      wrapping "failed to query merchant settings" (pool_query env (select_schedule merchant_id))

  abbrev pub settle_instantly : String → Bool → Act Unit
  settle_instantly merchant_id true = attempt (settle_pending_payments merchant_id) >> pure tt
  settle_instantly merchant_id false = pure tt

  -- `UpdateMerchantSettings`: the error of the settlement is dropped.
  unfoldable pub update_merchant_settings : String → String → Act Unit
  update_merchant_settings merchant_id schedule = do
    now ← gets (λ w. w.now)
    pool_exec env (set_schedule merchant_id schedule now)
    settle_instantly merchant_id (schedule == "instant")

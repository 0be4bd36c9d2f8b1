-- ===== src/Admin/Tests.antt =====
-- The dashboard's operations on a small database.
use pay_fast_processor.Prelude.{
  ◌≡◌, ◌≢◌, ◌⊎◌, refl, String, some, none, [], ◌∷◌, length, select, arith,
}
use pay_fast_processor.Prelude.Int.{pos}
use pay_fast_processor.Store.Schema.{Account, processed, initiated, merchant_payable, bank_transit}
use pay_fast_processor.Store.Sql.{ok, err, null_into_value}
use pay_fast_processor.Runtime.Json.{message, sql}
use pay_fast_processor.Runtime.World.{Env, World, idle}
use pay_fast_processor.Runtime.Act.{
  Act, ◌>>=◌, wrapping, replacing, rolling_back, begin, commit, tx_query, tx_exec, nano_text,
}
use pay_fast_processor.Runtime.Transaction.{Unchanged}
use pay_fast_processor.Books.{account_of, insert_ledger_entry}
use pay_fast_processor.Admin.Refunds.{
  select_payment, insert_refund, mark_refunded, post_entries, write_refund, check_refund, refund,
  issue_refund,
}
use pay_fast_processor.Prelude.Int.{ℤ}
use pay_fast_processor.Admin.Refunding.{
  Done, issue_refund-Refunded, issue_refund-Unchanged, later_refund_refused,
}
use pay_fast_processor.Admin.Overlap.{
  issue_with, second_request, meanwhile, RefundedTwice, overlapping_refunds,
}
use pay_fast_processor.Admin.Settings.{update_merchant_settings}
use pay_fast_processor.Admin.Pending.{Rescheduled, update_merchant_settings-Rescheduled}
use pay_fast_processor.Runtime.Rows.{pool_rows}
use pay_fast_processor.Admin.Lists.{
  get_payments, get_settlements, get_subscriptions, get_refunds, get_recent_ledger_entries,
  scan_payment, scan_settlement, scan_subscription, scan_refund, of_merchant, scan_all,
}
use pay_fast_processor.Admin.Reading.{Listed, lists-Listed}
use pay_fast_processor.Admin.LedgerList.{refund_breaks_list}
use pay_fast_processor.Admin.Report.{generate_settlements_report, csv_lines, interval_of}
use pay_fast_processor.Admin.Reports.{IsReport, generate_settlements_report-IsReport}
use pay_fast_processor.Admin.Handlers.{json_null, csv, handle_ledger, handle_report, write_json}
use pay_fast_processor.Samples.{calm, payment, db_of, at_rest_with}

abbrev payable : Account
payable = record {
  id = "acc_7";
  merchant_id = some "merch_01test";
  kind = merchant_payable;
  currency = "usd";
}

abbrev system : Account
system = record { id = "acc_system_01"; merchant_id = none; kind = bank_transit; currency = "usd" }

abbrev start : World
start = at_rest_with (db_of (payment "py_1" processed (pos 500) ∷ []) (payable ∷ system ∷ []) [])

-- The operation with all that it calls open.
run : Env → String → String → ℤ → Act Unit
unfolding issue_refund refund check_refund write_refund post_entries select_payment insert_refund
    mark_refunded account_of insert_ledger_entry ◌>>=◌ wrapping replacing rolling_back begin commit
    tx_query tx_exec nano_text
run = issue_refund

refunds : (issue_refund calm "merch_01test" "py_1" (pos 500) start).0 ≡ ok tt
unfolding run
refunds = refl

books_two : length (issue_refund calm "merch_01test" "py_1" (pos 500) start).1.db.ledger_entries ≡ 2
unfolding run
books_two = refl

-- Less than the whole amount.
refuses :
    (issue_refund calm "merch_01test" "py_1" (pos 20) start).0
    ≡ err (message "partial refunds not yet supported via admin UI (requested 20, original 500)")
unfolding run
refuses = refl

issue_refund-Refunded_example :
    Done calm "merch_01test" "py_1"
      (pos 500)
      start
      (issue_refund calm "merch_01test" "py_1" (pos 500) start).1
issue_refund-Refunded_example =
    issue_refund-Refunded calm "merch_01test" "py_1" (pos 500) start refl refunds

issue_refund-Unchanged_example :
    Unchanged start (issue_refund calm "merch_01test" "py_1" (pos 20) start).1
issue_refund-Unchanged_example =
    issue_refund-Unchanged calm "merch_01test" "py_1" (pos 20) start refl refuses

still_idle : (issue_refund calm "merch_01test" "py_1" (pos 500) start).1.tx ≡ idle
unfolding run
still_idle = refl

-- A minute later.
later_refund_refused_example :
    (issue_refund calm "merch_01test" "py_1"
      (pos 500)
      (record (issue_refund calm "merch_01test" "py_1" (pos 500) start).1 { now = 160 })).0
    ≢ ok tt
later_refund_refused_example =
    later_refund_refused calm calm "merch_01test" "py_1" (pos 500) (pos 500) start refl refunds
      (record (issue_refund calm "merch_01test" "py_1" (pos 500) start).1 { now = 160 }) still_idle
      refl

-- Two requests at the same time.
both :
    (issue_refund calm "merch_01test" "py_1"
      (pos 500)
      (meanwhile calm "merch_01test" "py_1" (pos 500) start)).0
    ≡ ok tt
unfolding run
both = refl

overlap : Act Unit
unfolding issue_with run
overlap =
    issue_with calm "merch_01test" "py_1" (pos 500)
      (second_request calm "merch_01test" "py_1" (pos 500))

overlaps :
    (issue_with calm "merch_01test" "py_1"
      (pos 500)
      (second_request calm "merch_01test" "py_1" (pos 500))
      start).0
    ≡ ok tt
unfolding overlap
overlaps = refl

overlapping_refunds_example :
    (issue_with calm "merch_01test" "py_1" (pos 500) (λ w. w)
      ≡ issue_refund calm "merch_01test" "py_1" (pos 500))
    × RefundedTwice calm "merch_01test" "py_1"
        (pos 500)
        start
        (issue_with calm "merch_01test" "py_1"
          (pos 500)
          (second_request calm "merch_01test" "py_1" (pos 500))
          start).1
overlapping_refunds_example =
    overlapping_refunds calm "merch_01test" "py_1" (pos 500) start both overlaps

-- Before: a payment that waits for its settlement.
abbrev waiting : World
waiting = at_rest_with (db_of (payment "py_1" initiated (pos 500) ∷ []) (payable ∷ system ∷ []) [])

update_merchant_settings-Rescheduled_example :
    let (result, w) = update_merchant_settings calm "merch_01test" "instant" waiting in
    ((result ≡ ok tt) × Rescheduled calm "merch_01test" "instant" waiting refl refl w)
    ⊎ ((result ≢ ok tt) × Unchanged waiting w)
update_merchant_settings-Rescheduled_example =
    update_merchant_settings-Rescheduled calm "merch_01test" "instant" waiting refl refl

-- A table without rows is answered as `null`.
empty_null : (handle_ledger calm start).0 ≡ record { status = 200; body = json_null }
unfolding handle_ledger get_recent_ledger_entries write_json pool_rows scan_all ◌>>=◌ wrapping
empty_null = refl

empty_report : (handle_report calm "7d" start).0 ≡ record {
  status = 200;
  body = csv "Settlement ID,Amount,Currency,Status,Created At,Updated At\n";
}
unfolding handle_report generate_settlements_report csv_lines interval_of pool_rows ◌>>=◌ wrapping
empty_report = refl

lists-Listed_example :
    Listed calm start
      (λ p. p.created_at)
      50
      start.db.payments
      scan_payment
      (get_payments calm start)
    × Listed calm start
        (λ s. s.created_at)
        50
        start.db.settlements
        scan_settlement
        (get_settlements calm start)
    × Listed calm start
        (λ s. s.created_at)
        20
        start.db.subscriptions
        scan_subscription
        (get_subscriptions calm start)
    × Listed calm start
        (λ r. r.created_at)
        (length (select (of_merchant "merch_01test") start.db.refunds))
        (select (of_merchant "merch_01test") start.db.refunds)
        scan_refund
        (get_refunds calm "merch_01test" start)
lists-Listed_example = lists-Listed calm start refl "merch_01test"

refund_breaks_list_example :
    (get_recent_ledger_entries calm (issue_refund calm "merch_01test" "py_1" (pos 500) start).1).0
    ≡ err (sql null_into_value)
refund_breaks_list_example =
    refund_breaks_list calm calm "merch_01test" "py_1" (pos 500) start refl refunds (omega arith)
      refl refl

generate_settlements_report-IsReport_example :
    IsReport calm start "merch_01test" "7d"
      (generate_settlements_report calm "merch_01test" "7d" start)
generate_settlements_report-IsReport_example =
    generate_settlements_report-IsReport calm start "merch_01test" "7d" refl

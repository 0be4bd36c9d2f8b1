-- ===== src/Ledger/Tests.antt =====
-- The ledger service on a small database.
use pay_fast_processor.Prelude.{◌≡◌, refl, Option, length}
use pay_fast_processor.Prelude.Int.{pos}
use pay_fast_processor.Runtime.Json.{Json, wrap, sql}
use pay_fast_processor.Runtime.World.{Env, World}
use pay_fast_processor.Store.Sql.{ok, err, unavailable}
use pay_fast_processor.Runtime.Transaction.{Unchanged}
use pay_fast_processor.Runtime.Act.{
  Act, ◌>>=◌, wrapping, rolling_back, attempt, in_background, begin, commit, tx_query, tx_exec,
  generate, publish_webhook_event,
}
use pay_fast_processor.Books.{account_of, account_exists, insert_account, insert_ledger_entry}
use pay_fast_processor.Books.Accounts.{ensure_account}
use pay_fast_processor.Ledger.{
  PaymentEvent, handle_payment_event, process_event, book, post_entries, ensure_system_account,
  merchant_of_payment, mark_initiated, decode_event,
}
use pay_fast_processor.Ledger.Delivery.{
  Delivered, handle_payment_event-Unchanged, handle_payment_event-Delivered, redelivery_books_again,
}
use pay_fast_processor.Samples.{calm, failing_at, one_created, created_event}

-- The handler with all that it calls open.
run : Env → Option Json → Act Unit
unfolding handle_payment_event process_event book post_entries ensure_system_account
    merchant_of_payment mark_initiated decode_event ensure_account account_of account_exists
    insert_account insert_ledger_entry ◌>>=◌ wrapping rolling_back attempt in_background begin
    commit tx_query tx_exec generate publish_webhook_event
run = handle_payment_event

abbrev delivered_once : World
delivered_once = (handle_payment_event calm created_event one_created).1

books_once : (handle_payment_event calm created_event one_created).0 ≡ ok tt
unfolding run
books_once = refl

books_twice : (handle_payment_event calm created_event delivered_once).0 ≡ ok tt
unfolding run
books_twice = refl

-- The second entry fails, and the first is gone too.
credit_fails :
    (handle_payment_event (failing_at 12) created_event one_created).0
    ≡ err (wrap "failed to create credit ledger entry" (sql unavailable))
unfolding run
credit_fails = refl

handle_payment_event-Unchanged_example :
    Unchanged one_created (handle_payment_event (failing_at 12) created_event one_created).1
handle_payment_event-Unchanged_example =
    handle_payment_event-Unchanged (failing_at 12) one_created created_event refl credit_fails

handle_payment_event-Delivered_example : Delivered one_created created_event delivered_once
handle_payment_event-Delivered_example =
    handle_payment_event-Delivered calm one_created created_event refl books_once

abbrev created_payment : PaymentEvent
created_payment = record {
  payment_id = "py_1";
  amount = pos 500;
  currency = "USD";
  token_id = "pm_1";
  status = "created";
}

decoded : decode_event created_event ≡ ok created_payment
unfolding decode_event
decoded = refl

redelivery_books_again_example :
    length (handle_payment_event calm created_event delivered_once).1.db.ledger_entries ≡ 4
redelivery_books_again_example =
    redelivery_books_again calm created_event created_payment decoded refl one_created refl
      books_once books_twice

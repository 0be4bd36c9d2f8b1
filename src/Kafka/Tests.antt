-- ===== src/Kafka/Tests.antt =====
-- The consumer of the ledger service on two messages.
use pay_fast_processor.Prelude.{◌≡◌, refl, ap, [], ◌∷◌}
use pay_fast_processor.Store.Sql.{Result, ok, err, unavailable}
use pay_fast_processor.Runtime.Json.{Error, wrap, sql}
use pay_fast_processor.Runtime.World.{World, Message}
use pay_fast_processor.Runtime.Act.{
  Act, ◌>>=◌, wrapping, rolling_back, attempt, in_background, begin, commit, tx_query, tx_exec,
  generate, publish_webhook_event, next_call,
}
use pay_fast_processor.Books.{account_of, account_exists, insert_account, insert_ledger_entry}
use pay_fast_processor.Books.Accounts.{ensure_account}
use pay_fast_processor.Ledger.{
  handle_payment_event, process_event, book, post_entries, ensure_system_account,
  merchant_of_payment, mark_initiated, decode_event,
}
use pay_fast_processor.Kafka.{Consumer, consume}
use pay_fast_processor.Kafka.Calls.{Accounted, consume-Accounted}
use pay_fast_processor.Kafka.Offsets.{failed_message_skipped}
use pay_fast_processor.Samples.{calm, failing_at, one_created, created_event}

-- The query of the first delivery fails, and nothing after it.
abbrev handler : Message → Act Unit
handler m = handle_payment_event (failing_at 2) m.value

-- The handler with all that it calls open.
run : Message → Act Unit
unfolding handle_payment_event process_event book post_entries ensure_system_account
    merchant_of_payment mark_initiated decode_event ensure_account account_of account_exists
    insert_account insert_ledger_entry ◌>>=◌ wrapping rolling_back attempt in_background begin
    commit tx_query tx_exec generate publish_webhook_event
run = handler

abbrev first : Message
first = record { key = "py_1"; value = created_event }

abbrev second : Message
second = record { key = "py_1"; value = created_event }

abbrev start : Consumer
start = record { world = one_created; position = 0; committed = 0 }

abbrev failed_result : Result Error Unit × World
failed_result = handler first (next_call one_created)

abbrev handled_result : Result Error Unit × World
handled_result = handler second (next_call failed_result.1)

breaks : failed_result.0 ≡ err (wrap "failed to get merchant_id" (sql unavailable))
unfolding run
breaks = refl

handles : handled_result.0 ≡ ok tt
unfolding run
handles = refl

failed_message_skipped_example : (consume calm handler (first ∷ second ∷ []) 2 start).committed ≡ 2
failed_message_skipped_example =
    failed_message_skipped calm handler (first ∷ second ∷ []) (λ n. refl) start first second
      (wrap "failed to get merchant_id" (sql unavailable)) failed_result.1 handled_result.1 refl
      refl (ap (λ r. (r, failed_result.1)) breaks) (ap (λ r. (r, handled_result.1)) handles)

consume-Accounted_example :
    Accounted calm handler
      (first ∷ second ∷ [])
      5
      start
      (consume calm handler (first ∷ second ∷ []) 5 start)
consume-Accounted_example = consume-Accounted calm handler (first ∷ second ∷ []) 5 start

-- ===== src/Settlement/Tests.antt =====
-- The settlement service on a small database.
use pay_fast_processor.Prelude.{
  ℕ, count, ◌≡◌, ◌≢◌, refl, String, eq_iff, select, Option, some, [], ◌∷◌, arith,
}
use pay_fast_processor.Prelude.Int.{pos, ◌+ℤ◌}
use pay_fast_processor.Store.Schema.{initiated, processed}
use pay_fast_processor.Store.Sql.{ok, err, unavailable}
use pay_fast_processor.Runtime.Json.{Json, text, number, texts, wrap, sql}
use pay_fast_processor.Runtime.World.{Env, World}
use pay_fast_processor.Runtime.Act.{
  Act, ◌>>=◌, wrapping, rolling_back, attempt, in_background, pool_query, begin, commit, tx_query,
  tx_exec, generate, publish_payment_event,
}
use pay_fast_processor.Books.{account_of, insert_account, insert_ledger_entry}
use pay_fast_processor.Books.Accounts.{ensure_account}
use pay_fast_processor.Settlement.{
  SettleEvent, is_open_target, target_payment_ids, decode_event, insert_settlement,
  attach_settlement, announce, post_entries, pay_out, attach, settle_payments, process_event,
  handle_settle_event,
}
use pay_fast_processor.Settlement.Delivery.{
  Delivered, handle_settle_event-Unchanged, handle_settle_event-Delivered,
  webhook_events-handle_settle_event,
}
use pay_fast_processor.Settlement.Redelivery.{
  redelivery-Unchanged, Overpaid, overlap_overpays, amount_of,
}
use pay_fast_processor.Runtime.Transaction.{Unchanged}
use pay_fast_processor.Settlement.Poll.{
  poll_and_dispatch_settlements, due_rows, dispatch_rows, row_of, settle_event, is_due_in, sum_of,
}
use pay_fast_processor.Settlement.Dispatch.{dispatched, dispatched_amount}
use pay_fast_processor.Samples.{calm, failing_at, payment, db_of, at_rest_with}

-- The handler with all that it calls open.
run : Env → Option Json → Act Unit
unfolding handle_settle_event process_event settle_payments attach pay_out post_entries announce
    attach_settlement insert_settlement decode_event ensure_account account_of insert_account
    insert_ledger_entry ◌>>=◌ wrapping rolling_back attempt in_background begin commit tx_query
    tx_exec generate publish_payment_event
run = handle_settle_event

abbrev two_initiated : World
two_initiated =
    at_rest_with
      (db_of (payment "py_1" initiated (pos 500) ∷ payment "py_2" initiated (pos 300) ∷ []) [] [])

abbrev value : Option Json
value = some (
    ("payment_ids", texts ("py_1" ∷ "py_2" ∷ []))
    ∷ ("merchant_id", text "merch_01test")
    ∷ ("amount", number (pos 800))
    ∷ ("currency", text "USD")
    ∷ ("status", text "initiated")
    ∷ [])

settles : (handle_settle_event calm value two_initiated).0 ≡ ok tt
unfolding run
settles = refl

abbrev event : SettleEvent
event = record {
  payment_id = "";
  payment_ids = "py_1" ∷ "py_2" ∷ [];
  merchant_id = "merch_01test";
  amount = pos 800;
  currency = "USD";
  status = "initiated";
}

decoded : decode_event value ≡ ok event
unfolding decode_event
decoded = refl

abbrev settled : World
settled = (handle_settle_event calm value two_initiated).1

commit_fails :
    (handle_settle_event (failing_at 15) value two_initiated).0
    ≡ err (wrap "failed to commit settlement transaction" (sql unavailable))
unfolding run
commit_fails = refl

handle_settle_event-Unchanged_example :
    Unchanged two_initiated (handle_settle_event (failing_at 15) value two_initiated).1
handle_settle_event-Unchanged_example =
    handle_settle_event-Unchanged (failing_at 15) two_initiated value refl commit_fails

handle_settle_event-Delivered_example : Delivered two_initiated value settled
handle_settle_event-Delivered_example =
    handle_settle_event-Delivered calm two_initiated value refl settles

webhook_events-handle_settle_event_example : settled.webhook_events ≡ []
webhook_events-handle_settle_event_example =
    webhook_events-handle_settle_event calm two_initiated value refl

redelivery-Unchanged_example :
    Unchanged settled (handle_settle_event (failing_at 15) value settled).1
redelivery-Unchanged_example =
    redelivery-Unchanged calm (failing_at 15) two_initiated value refl settles

-- The first payment has a settlement, and the event still has the amount of both.
abbrev half_settled : World
half_settled = at_rest_with (
    db_of
      (record (payment "py_1" processed (pos 500)) { settlement_id = some "set_0" }
        ∷ payment "py_2" initiated (pos 300)
        ∷ [])
      [] [])

settles_half : (handle_settle_event calm value half_settled).0 ≡ ok tt
unfolding run
settles_half = refl

one_open :
    ◌≢◌ {A = ℕ} (count (is_open_target (target_payment_ids event)) half_settled.db.payments) 0
one_open e = omega (arith, e)

overlap_overpays_example :
    Overpaid half_settled event (handle_settle_event calm value half_settled).1
unfolding amount_of ◌+ℤ◌
overlap_overpays_example =
    overlap_overpays calm half_settled value event refl decoded refl one_open refl (omega arith)
      settles_half

-- The poll finds both payments, and dispatches one event.
poll : Env → Act Unit
unfolding poll_and_dispatch_settlements due_rows dispatch_rows ◌>>=◌ attempt pool_query
    publish_payment_event ◌+ℤ◌
poll = poll_and_dispatch_settlements

dispatches :
    (poll_and_dispatch_settlements calm two_initiated).1.payment_events
    ≡ record { key = "merch_01test"; value = value } ∷ []
unfolding poll ◌+ℤ◌
dispatches = refl

two_ids : ◌≢◌ {A = String} "py_2" "py_1"
two_ids e = cc ((eq_iff "py_2" "py_1").1 e)

dispatched_amount_example :
    let e = dispatched two_initiated.db 100 "merch_01test" "USD" in
    let taken = select (is_open_target (target_payment_ids e)) two_initiated.db.payments in
    (decode_event (some (settle_event (row_of two_initiated.db 100 "merch_01test" "USD"))) ≡ ok e)
    × (taken
        ≡ select (is_due_in two_initiated.db 100 "merch_01test" "USD") two_initiated.db.payments)
    × (sum_of taken ≡ e.amount)
dispatched_amount_example =
    dispatched_amount two_initiated.db 100 "merch_01test" "USD" ((two_ids, tt), (tt, tt))

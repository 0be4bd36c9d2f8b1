-- ===== src/Subscriptions/Tests.antt =====
-- Subscriptions on a small database, and the calendar.
use pay_fast_processor.Prelude.{◌+◌, ◌≤◌, false, some, [], ◌∷◌, ◌≡◌, refl}
use pay_fast_processor.Prelude.Int.{pos}
use pay_fast_processor.Store.Schema.{Subscription, active}
use pay_fast_processor.Store.Sql.{ok}
use pay_fast_processor.Runtime.World.{World}
use pay_fast_processor.Runtime.Act.{
  attempt, ◌>>=◌, wrapping, rolling_back, in_background, begin, commit, pool_query, pool_exec,
  tx_exec, generate, publish_payment_event,
}
use pay_fast_processor.Runtime.Rest.{AtRest}
use pay_fast_processor.Gateway.Http.{Response, json}
use pay_fast_processor.Runtime.Cache.{get, remove, set_nx, del}
use pay_fast_processor.Runtime.Rows.{pool_rows}
use pay_fast_processor.Gateway.Keys.{
  acquire_lock, release_lock, get_record, create_pending_record, complete_record, select_record,
  insert_record, update_record,
}
use pay_fast_processor.Gateway.Middleware.{idempotency, with_key, locked_section, run_handler}
use pay_fast_processor.Gateway.Payments.{
  create_payment, decode_request, process_payment, store_payment, authorize, method_type,
  insert_payment, set_status,
}
use pay_fast_processor.Gateway.Auth.{payments_route, api_auth}
use pay_fast_processor.Subscriptions.Calendar.{
  add_month, add_year, plus_month, plus_year, date_of, days_in_month,
}
use pay_fast_processor.Subscriptions.Creation.{
  CreateSubscriptionRequest, create_subscription, store_subscription, insert_subscription,
}
use pay_fast_processor.Subscriptions.Billing.{
  charge_subscription, conclude, next_period, process_due_subscriptions, charge_all, call_gateway,
  insert_invoice, mark_paid, extend_period,
}
use pay_fast_processor.Subscriptions.Charge.{Charged, charge_subscription-Charged}
use pay_fast_processor.Subscriptions.Periods.{Outcome, create_subscription-Outcome}
use pay_fast_processor.Subscriptions.Outcome.{unrecorded_charge}
use pay_fast_processor.Subscriptions.Payee.{payment_ids, payment_ids-process_due_subscriptions}
use pay_fast_processor.Samples.{merchant, calm, failing_at, db_of, at_rest_with}

-- A month after 2025-01-31: in Go 2025-03-03, in PostgreSQL 2025-02-28.
month_of_go : add_month 1738281600 ≡ 1740960000
unfolding add_month date_of days_in_month
month_of_go = refl

month_of_pg : plus_month 1738281600 ≡ 1740700800
unfolding plus_month date_of days_in_month
month_of_pg = refl

-- A year after 2024-02-29: in Go 2025-03-01, in PostgreSQL 2025-02-28.
year_of_go : add_year 1709164800 ≡ 1740787200
unfolding add_year date_of
year_of_go = refl

year_of_pg : plus_year 1709164800 ≡ 1740700800
unfolding plus_year date_of days_in_month
year_of_pg = refl

abbrev shop : World
shop = at_rest_with (db_of [] [] [])

abbrev monthly_request : CreateSubscriptionRequest
monthly_request = record {
  merchant_id = "merch_01test";
  customer_id = "cus_1";
  payment_method_id = "pm_1";
  plan_id = "plan_1";
  amount = pos 900;
  currency = "USD";
  interval = "month";
}

creates :
    (create_subscription calm monthly_request shop).0
    ≡ ok (record {
      id = "sub_";
      status = "active";
      current_period_start = 100;
      current_period_end = 2678500;
    })
unfolding create_subscription store_subscription insert_subscription add_month date_of days_in_month
    ◌>>=◌ wrapping generate pool_exec
creates = refl

create_subscription-Outcome_example :
    Outcome monthly_request shop (create_subscription calm monthly_request shop)
create_subscription-Outcome_example = create_subscription-Outcome calm monthly_request shop

abbrev due : Subscription
due = record {
  id = "sub_1";
  merchant_id = "merch_other";
  customer_id = "cus_1";
  payment_method_id = "pm_1";
  plan_id = "plan_1";
  amount = pos 900;
  currency = "USD";
  interval = "month";
  status = active;
  current_period_start = 0;
  current_period_end = 50;
  created_at = 0;
}

abbrev billed : World
billed = at_rest_with (record (db_of [] [] []) { subscriptions = due ∷ [] })

charge_subscription-Charged_example :
    AtRest (Charged calm due (due ∷ [])) (charge_subscription calm due billed).1
    × (due.current_period_end + 2160000 ≤ (next_period due).current_period_end)
    × ((next_period due).current_period_end ≤ due.current_period_end + 31622400)
charge_subscription-Charged_example =
    charge_subscription-Charged calm due (due ∷ []) billed refl refl

-- The due subscription, with its merchant on record.
abbrev enrolled : World
enrolled = at_rest_with (record (db_of [] [] []) {
  merchants = merchant ∷ record merchant { id = "merch_other" } ∷ [];
  subscriptions = due ∷ [];
})

poll : World
unfolding process_due_subscriptions charge_all charge_subscription call_gateway insert_invoice
    payments_route api_auth idempotency with_key locked_section run_handler create_payment
    decode_request process_payment store_payment authorize method_type insert_payment set_status
    acquire_lock release_lock get_record create_pending_record complete_record select_record
    insert_record update_record attempt ◌>>=◌ wrapping rolling_back in_background begin commit
    pool_query pool_exec pool_rows tx_exec generate publish_payment_event get remove set_nx del
    mark_paid extend_period
poll = (process_due_subscriptions calm enrolled).1

-- The payment for the subscription of "merch_other" belongs to "merch_01test".
poll_pays : payment_ids "merch_01test" poll.db.payments ≡ "py_IIIIIIII" ∷ []
unfolding poll
poll_pays = refl

poll_extends : poll.db.subscriptions ≡ next_period due ∷ []
unfolding poll
poll_extends = refl

payment_ids-process_due_subscriptions_example :
    payment_ids "merch_other" (process_due_subscriptions calm enrolled).1.db.payments ≡ []
payment_ids-process_due_subscriptions_example =
    payment_ids-process_due_subscriptions calm "merch_other" enrolled refl refl

abbrev accepted : Response
accepted = record { status = 201; body = json []; replayed = false }

unrecorded_charge_example :
    ((conclude (failing_at 1) "in_1" due (some accepted) billed).0 ≡ ok tt)
    × ((conclude (failing_at 1) "in_1" due (some accepted) billed).1.db ≡ billed.db)
unrecorded_charge_example =
    unrecorded_charge (failing_at 1) "in_1" due accepted billed refl refl refl refl

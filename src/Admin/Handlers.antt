-- ===== src/Admin/Handlers.antt =====
-- services/admin_api/handler/admin_handler.go: what the dashboard's routes answer.
use pay_fast_processor.Prelude.{
  ℕ, String, Option, none, some, List, [], ◌∷◌, map, concat, ◌==◌, if◌then◌else◌,
}
use pay_fast_processor.Store.Sql.{Result, ok, err}
use pay_fast_processor.Store.Schema.{
  PayoutSchedule, instant, one_hour, twelve_hours, twenty_four_hours, daily, weekly, biweekly,
  monthly,
}
use pay_fast_processor.Runtime.Json.{Value, Json, Error, unmarshal, text, number, null, text_field}
use pay_fast_processor.Runtime.World.{Env, World}
use pay_fast_processor.Runtime.Act.{Act}
use pay_fast_processor.Gateway.Http.{error_text}
use pay_fast_processor.Gateway.Auth.{test_merchant}
use pay_fast_processor.Admin.Settings.{get_merchant_settings, update_merchant_settings}
use pay_fast_processor.Admin.Lists.{
  PaymentRecord, SettlementRecord, LedgerRecord, SubscriptionRecord, RefundRecord, get_payments,
  get_settlements, get_recent_ledger_entries, get_subscriptions, get_refunds,
}
use pay_fast_processor.Admin.Report.{generate_settlements_report}

-- The body of an answer: JSON, a CSV file, or the text of an error.
pub data Body : Type 0 where
  array : List Json → Body
  json_null : Body
  object : Json → Body
  csv : String → Body
  error_body : String → Body

pub record Answer : Type 0 where
  pub status : ℕ
  pub body : Body

-- `writeJSON` of a slice. A slice without elements is nil, which is not the `nil` of an interface.
unfoldable pub write_json : List Json → Answer
write_json [] = record { status = 200; body = json_null }
write_json (row ∷ rows) = record { status = 200; body = array (row ∷ rows) }

abbrev nullable : Option String → Value
nullable none = null
nullable (some s) = text s

abbrev pub schedule_text : PayoutSchedule → String
schedule_text instant = "instant"
schedule_text one_hour = "1_hour"
schedule_text twelve_hours = "12_hours"
schedule_text twenty_four_hours = "24_hours"
schedule_text daily = "daily"
schedule_text weekly = "weekly"
schedule_text biweekly = "biweekly"
schedule_text monthly = "monthly"

module _ (env : Env) where
  abbrev pub payment_json : PaymentRecord → Json
  payment_json p =
      ("id", text p.id)
      ∷ ("amount", number p.amount)
      ∷ ("currency", text p.currency)
      ∷ ("status", text p.status)
      ∷ ("created_at", text (env.time_text p.created_at))
      ∷ ("settlement_id", nullable p.settlement_id)
      ∷ []

  abbrev pub settlement_json : SettlementRecord → Json
  settlement_json s =
      ("id", text s.id)
      ∷ ("merchant_id", text s.merchant_id)
      ∷ ("amount", number s.amount)
      ∷ ("currency", text s.currency)
      ∷ ("status", text s.status)
      ∷ ("created_at", text (env.time_text s.created_at))
      ∷ []

  abbrev pub ledger_json : LedgerRecord → Json
  ledger_json e =
      ("id", text e.id)
      ∷ ("account_id", text e.account_id)
      ∷ ("payment_id", text e.payment_id)
      ∷ ("entry_type", text e.entry_type)
      ∷ ("amount", number e.amount)
      ∷ ("created_at", text (env.time_text e.created_at))
      ∷ []

  abbrev pub subscription_json : SubscriptionRecord → Json
  subscription_json s =
      ("id", text s.id)
      ∷ ("status", text s.status)
      ∷ ("interval", text s.interval)
      ∷ ("amount", number s.amount)
      ∷ ("current_period_end", text (env.time_text s.current_period_end))
      ∷ []

  abbrev pub refund_json : RefundRecord → Json
  refund_json r =
      ("id", text r.id)
      ∷ ("payment_id", text r.payment_id)
      ∷ ("amount", number r.amount)
      ∷ ("currency", text r.currency)
      ∷ ("status", text r.status)
      ∷ ("created_at", text (env.time_text r.created_at))
      ∷ []

  -- `http.Error` with the error's text, or the list.
  abbrev list_answer : {A : Type 0} → (A → Json) → Result Error (List A) → Answer
  list_answer row (ok rows) = write_json (map row rows)
  list_answer row (err e) = record {
    status = 500;
    body = error_body (concat (error_text env e) "\n");
  }

  -- A route that lists the rows of a service call.
  abbrev listing : {A : Type 0} → (A → Json) → Act (List A) → World → Answer × World
  listing row call w = let (result, w') = call w in (list_answer row result, w')

  unfoldable pub handle_payments : World → Answer × World
  handle_payments = listing payment_json (get_payments env)

  unfoldable pub handle_settlements : World → Answer × World
  handle_settlements = listing settlement_json (get_settlements env)

  unfoldable pub handle_ledger : World → Answer × World
  handle_ledger = listing ledger_json (get_recent_ledger_entries env)

  unfoldable pub handle_subscriptions : World → Answer × World
  handle_subscriptions = listing subscription_json (get_subscriptions env)

  unfoldable pub handle_refunds : World → Answer × World
  handle_refunds = listing refund_json (get_refunds env test_merchant)

  abbrev settings_answer : Result Error PayoutSchedule → Answer
  settings_answer (ok schedule) = record {
    status = 200;
    body = object (("payout_schedule", text (schedule_text schedule)) ∷ []);
  }
  settings_answer (err e) = record {
    status = 200;
    body = object (("payout_schedule", text "instant") ∷ []);
  }

  -- `AdminHandler.GetMerchantSettings`: an error is answered as "instant".
  unfoldable pub handle_get_settings : World → Answer × World
  handle_get_settings w =
      let (result, w') = get_merchant_settings env test_merchant w in (settings_answer result, w')

  abbrev update_answer : Result Error Unit → Answer
  update_answer (ok _) = record { status = 200; body = object (("status", text "success") ∷ []) }
  update_answer (err e) = record {
    status = 500;
    body = error_body (concat (error_text env e) "\n");
  }

  abbrev pub decode_schedule : Option Json → Result Error String
  decode_schedule none = err unmarshal
  decode_schedule (some o) = text_field "payout_schedule" o

  abbrev pub update_decoded : Result Error String → World → Answer × World
  update_decoded (err e) w =
      (record { status = 400; body = error_body (concat (error_text env e) "\n") }, w)
  update_decoded (ok schedule) w =
      let (result, w') = update_merchant_settings env test_merchant schedule w in
      (update_answer result, w')

  -- `AdminHandler.UpdateMerchantSettings`.
  unfoldable pub handle_update_settings : Option Json → World → Answer × World
  handle_update_settings body w = update_decoded (decode_schedule body) w

  abbrev report_answer : Result Error String → Answer
  report_answer (ok data_) = record { status = 200; body = csv data_ }
  report_answer (err e) = record { status = 500; body = error_body "Failed to generate report\n" }

  -- `AdminHandler.DownloadSettlementsReport`, with the parameter "range", empty where it is absent.
  unfoldable pub handle_report : String → World → Answer × World
  handle_report range w =
      let (result, w') =
        generate_settlements_report env test_merchant (if range == "" then "24h" else range) w in
      (report_answer result, w')

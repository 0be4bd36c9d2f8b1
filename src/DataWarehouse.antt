-- ===== src/DataWarehouse.antt =====
-- services/data_warehouse/service/dw_service.go: each payment event becomes a line of a daily file.
pub mod Archive
mod Tests
use pay_fast_processor.Prelude.{
  ℕ, ◌+◌, ◌/◌, String, Option, none, some, List, [], ◌∷◌, ◌++◌, any, update, concat, ltb, ◌==◌,
  if◌then◌else◌,
}
use pay_fast_processor.Prelude.Int.{ℤ, pos}
use pay_fast_processor.Prelude.Decimal.{decimal}
use pay_fast_processor.Store.Sql
use pay_fast_processor.Store.Sql.{Result, ok, err}
use pay_fast_processor.Runtime.Json.{
  Json, Error, message, unmarshal, text, number, text_field, number_field,
}
use pay_fast_processor.Runtime.World.{Env, World, ArchiveRecord}
use pay_fast_processor.Runtime.Act.{Act, lift, gets, wrapping, ◌>>=◌, ◌>>◌, next_call}
use pay_fast_processor.Subscriptions.Calendar.{Date, date_of, seconds_per_day}

pub record PaymentEvent : Type 0 where
  pub payment_id : String
  pub merchant_id : String
  pub amount : ℤ
  pub currency : String
  pub status : String

-- `json.Unmarshal(eventData, &event)`.
unfoldable pub decode_event : Option Json → Result Error PaymentEvent
decode_event none = err unmarshal
decode_event (some o) = Sql.◌>>=◌ (text_field "payment_id" o) λ p.
    Sql.◌>>=◌ (text_field "merchant_id" o) λ m. Sql.◌>>=◌ (number_field "amount" o) λ a.
      Sql.◌>>=◌ (text_field "currency" o) λ c.
        Sql.◌>>=◌ (text_field "status" o)
          λ s. ok (record { payment_id = p; merchant_id = m; amount = a; currency = c; status = s })

-- The event as `json.Marshal` writes it, which does not fail on texts and numbers.
abbrev pub event_json : PaymentEvent → Json
event_json event =
    ("payment_id", text event.payment_id)
    ∷ ("merchant_id", text event.merchant_id)
    ∷ ("amount", number event.amount)
    ∷ ("currency", text event.currency)
    ∷ ("status", text event.status)
    ∷ []

abbrev two_digits : ℕ → String
two_digits n = if ltb n 10 then concat "0" (decimal (pos n)) else decimal (pos n)

-- The layout "2006-01-02"; years from 1970 have their four digits.
abbrev date_text : Date → String
date_text d =
    concat (decimal (pos d.year))
      (concat "-" (concat (two_digits d.month) (concat "-" (two_digits d.day))))

-- The path of the archive of the day: `filepath.Join` drops the "./" of the directory.
unfoldable pub archive_path : ℕ → String
archive_path now =
    concat "data/warehouse/payments_archive_"
      (concat (date_text (date_of (now / seconds_per_day))) ".jsonl")

abbrev pub Files : Type 0
Files = List (String × List ArchiveRecord)

-- `O_CREATE`: a file that is missing is made, empty.
abbrev pub with_file : String → Files → Files
with_file path files = if any (λ f. f.0 == path) files then files else files ++ (path, []) ∷ []

-- `O_APPEND`.
abbrev pub append_line : String → ArchiveRecord → Files → Files
append_line path line = update (λ f. f.0 == path) (λ f. (f.0, f.1 ++ line ∷ []))

module _ (env : Env) where
  -- `os.OpenFile(filePath, os.O_APPEND|os.O_CREATE|os.O_WRONLY, 0644)`.
  unfoldable pub open_file : String → Act Unit
  open_file path w =
      if env.fails w.tick
      then (err (message env.file_text), next_call w)
      else (ok tt, record w { archives = with_file path w.archives; tick = w.tick + 1 })

  -- `file.Write` of one line, which the disk takes whole or not at all.
  unfoldable pub write_line : String → ArchiveRecord → Act Unit
  write_line path line w =
      if env.fails w.tick
      then (err (message env.file_text), next_call w)
      else (ok tt, record w { archives = append_line path line w.archives; tick = w.tick + 1 })

  abbrev pub archive_record : PaymentEvent → ℕ → ArchiveRecord
  archive_record event now = record { event_time = env.time_text now; payment = event_json event }

  unfoldable pub archive : PaymentEvent → Act Unit
  archive event = do
    now ← gets (λ w. w.now)
    wrapping "failed to open archive file" (open_file (archive_path now))
    wrapping "failed to write to archive file"
        (write_line (archive_path now) (archive_record event now))

  -- `HandlePaymentEvent`.
  unfoldable pub handle_payment_event : Option Json → Act Unit
  handle_payment_event event_data = do
    event ← wrapping "failed to unmarshal event" (lift (decode_event event_data))
    archive event

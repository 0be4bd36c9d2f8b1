-- ===== src/Settlement/Poll.antt =====
-- `pollAndDispatchSettlements` of services/settlements/service/settlement_service.go.
use pay_fast_processor.Prelude.{
  ℕ, ◌+◌, String, Bool, true, false, Option, none, some, List, [], ◌∷◌, find, select, any, take,
  map, leb, not, ◌&&◌, ◌==◌, if◌then◌else◌,
}
use pay_fast_processor.Prelude.Int.{ℤ, pos, ◌+ℤ◌, leb_ℤ}
use pay_fast_processor.Store.Schema.{
  Db, Merchant, Payment, PayoutSchedule, instant, one_hour, twelve_hours, twenty_four_hours, daily,
  weekly, biweekly, monthly, is_initiated, is_null,
}
use pay_fast_processor.Store.Sql.{Result, ok, err, Query}
use pay_fast_processor.Runtime.Json.{Json, Error, text, number, texts}
use pay_fast_processor.Runtime.World.{Env}
use pay_fast_processor.Runtime.Act.{
  Act, pure, attempt, gets, ◌>>=◌, ◌>>◌, pool_query, publish_payment_event,
}

-- The condition on `payout_schedule`, with an hour of 3600 seconds.
abbrev pub schedule_due : PayoutSchedule → ℕ → ℕ → Bool
schedule_due instant updated_at now = true
schedule_due one_hour updated_at now = leb (updated_at + 3600) now
schedule_due twelve_hours updated_at now = leb (updated_at + 43200) now
schedule_due twenty_four_hours updated_at now = leb (updated_at + 86400) now
schedule_due daily updated_at now = leb (updated_at + 172800) now
schedule_due weekly updated_at now = leb (updated_at + 172800) now
schedule_due biweekly updated_at now = leb (updated_at + 172800) now
schedule_due monthly updated_at now = leb (updated_at + 172800) now

abbrev merchant_due : Option Merchant → ℕ → ℕ → Bool
merchant_due none updated_at now = false
merchant_due (some m) updated_at now = schedule_due m.payout_schedule updated_at now

-- The `WHERE` clause, the join included.
abbrev pub is_due : Db → ℕ → Payment → Bool
is_due d now p =
    (is_initiated p.status && is_null p.settlement_id)
    && merchant_due (find (λ m. m.id == p.merchant_id) d.merchants) p.updated_at now

abbrev pub in_group : String → String → Payment → Bool
in_group merchant_id currency p = p.merchant_id == merchant_id && p.currency == currency

abbrev pub sum_of : List Payment → ℤ
sum_of [] = pos 0
sum_of (p ∷ ps) = p.amount +ℤ sum_of ps

pub record SettlementRow : Type 0 where
  pub merchant_id : String
  pub currency : String
  pub total_amount : ℤ
  pub payment_ids : List String

abbrev pub is_due_in : Db → ℕ → String → String → Payment → Bool
is_due_in d now merchant_id currency p = is_due d now p && in_group merchant_id currency p

-- A row of the result: the sum and the ids of one group.
abbrev pub row_of : Db → ℕ → String → String → SettlementRow
row_of d now merchant_id currency =
    let ps = select (is_due_in d now merchant_id currency) d.payments in
    record {
      merchant_id = merchant_id;
      currency = currency;
      total_amount = sum_of ps;
      payment_ids = map (λ p. p.id) ps;
    }

-- One row for each merchant and currency, in the order of first appearance; PostgreSQL promises no
-- order.
abbrev pub rows_from : Db → ℕ → List (String × String) → List Payment → List SettlementRow
rows_from d now seen [] = []
rows_from d now seen (p ∷ ps) =
    let rest = rows_from d now seen ps in
    let rest' = rows_from d now ((p.merchant_id, p.currency) ∷ seen) ps in
    if is_due d now p && not (any (λ (m, c). in_group m c p) seen)
    then row_of d now p.merchant_id p.currency ∷ rest'
    else rest

-- The query of the poll.
unfoldable pub due_rows : ℕ → Query (List SettlementRow)
due_rows now d = ok (take 100 (rows_from d now [] d.payments))

abbrev pub settle_event : SettlementRow → Json
settle_event row =
    ("payment_ids", texts row.payment_ids)
    ∷ ("merchant_id", text row.merchant_id)
    ∷ ("amount", number row.total_amount)
    ∷ ("currency", text row.currency)
    ∷ ("status", text "initiated")
    ∷ []

-- A sum beyond 64 bits is an error of `Scan`.
abbrev pub fits_int64 : ℤ → Bool
fits_int64 z = leb_ℤ z (pos 9223372036854775807)

module _ (env : Env) where
  abbrev pub dispatch : SettlementRow → Act Unit
  dispatch row w =
      if fits_int64 row.total_amount
      then (attempt (publish_payment_event env row.merchant_id (settle_event row)) >> pure tt) w
      else (ok tt, w)

  -- An error of one row is logged, and the next row follows.
  unfoldable pub dispatch_rows : List SettlementRow → Act Unit
  dispatch_rows [] = pure tt
  dispatch_rows (row ∷ rows) = dispatch row >>= λ _. dispatch_rows rows

  abbrev pub dispatch_result : Result Error (List SettlementRow) → Act Unit
  dispatch_result (err e) = pure tt
  dispatch_result (ok rows) = dispatch_rows rows

  unfoldable pub poll_and_dispatch_settlements : Act Unit
  poll_and_dispatch_settlements = do
    now ← gets (λ w. w.now)
    rows ← attempt (pool_query env (due_rows now))
    dispatch_result rows

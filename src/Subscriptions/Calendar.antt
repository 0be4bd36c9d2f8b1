-- ===== src/Subscriptions/Calendar.antt =====
-- Calendar arithmetic on seconds since 1970-01-01 UTC: Go's `AddDate` and PostgreSQL's intervals, as
-- the subscription service uses them, in UTC.
use pay_fast_processor.Prelude.{
  ℕ, ◌+◌, ◌-◌, ◌*◌, ◌/◌, ◌%◌, ◌≤◌, Bool, true, false, ltb, leb, eqb, ◌||◌, arith, inl, inr,
  Bool-cases, if◌then◌else◌,
}

abbrev pub is_leap : ℕ → Bool
is_leap y = if eqb (y % 4) 0 then (if eqb (y % 100) 0 then eqb (y % 400) 0 else true) else false

unfoldable pub days_in_month : ℕ → ℕ → ℕ
days_in_month y m =
    if eqb m 2
    then (if is_leap y then 29 else 28)
    else if (eqb m 4 || eqb m 6) || (eqb m 9 || eqb m 11)
    then 30
    else 31

abbrev pub days_in_year : ℕ → ℕ
days_in_year y = if is_leap y then 366 else 365

pub record Date : Type 0 where
  pub year : ℕ
  pub month : ℕ
  pub day : ℕ

-- The day with a number, from 0 for 1970-01-01. Years begin in March here, in eras of 400 years.
unfoldable pub date_of : ℕ → Date
date_of n =
    let z = n + 719468 in
    let doe = z % 146097 in
    let yoe = (doe - doe / 1460 + doe / 36524 - doe / 146096) / 365 in
    let doy = doe - (365 * yoe + yoe / 4 - yoe / 100) in
    let mp = (5 * doy + 2) / 153 in
    let month = if ltb mp 10 then mp + 3 else mp - 9 in
    let year = yoe + z / 146097 * 400 in
    record {
      year = if leb month 2 then year + 1 else year;
      month = month;
      day = doy - (153 * mp + 2) / 5 + 1;
    }

abbrev pub seconds_per_day : ℕ
seconds_per_day = 86400

-- `AddDate(0, 1, 0)`: the same day of the next month, where days past its end run into the month
-- after it. So it is always the length of the current month later.
abbrev pub go_month : Date → ℕ
go_month t = days_in_month t.year t.month

-- `AddDate(1, 0, 0)`: later by the days between the first of the month in both years.
abbrev pub go_year : Date → ℕ
go_year t = if leb t.month 2 then days_in_year t.year else days_in_year (t.year + 1)

unfoldable pub add_month : ℕ → ℕ
add_month t = t + go_month (date_of (t / seconds_per_day)) * seconds_per_day

unfoldable pub add_year : ℕ → ℕ
add_year t = t + go_year (date_of (t / seconds_per_day)) * seconds_per_day

-- The length of the next month.
abbrev next_month : Date → ℕ
next_month t =
    if eqb t.month 12 then days_in_month (t.year + 1) 1 else days_in_month t.year (t.month + 1)

-- `+ interval '1 month'`: a day past the end of the next month becomes its last day.
abbrev pub pg_month : Date → ℕ
pg_month t = days_in_month t.year t.month - (t.day - next_month t)

-- `+ interval '1 year'`.
abbrev pub pg_year : Date → ℕ
pg_year t = go_year t - (t.day - days_in_month (t.year + 1) t.month)

unfoldable pub plus_month : ℕ → ℕ
plus_month t = t + pg_month (date_of (t / seconds_per_day)) * seconds_per_day

unfoldable pub plus_year : ℕ → ℕ
plus_year t = t + pg_year (date_of (t / seconds_per_day)) * seconds_per_day

-- A month has 28 to 31 days.
pub days_in_month_bounds : (y m : ℕ) → (28 ≤ days_in_month y m) × (days_in_month y m ≤ 31)
unfolding days_in_month
days_in_month_bounds y m = ground arith

pub go_year_bounds : (t : Date) → (365 ≤ go_year t) × (go_year t ≤ 366)
go_year_bounds t = ground arith

-- The day of a date is 31 at most.
pub day_bound : (n : ℕ) → (date_of n).day ≤ 31
unfolding date_of
day_bound n = omega arith

pub add_month_bounds : (t : ℕ) → (t + 2419200 ≤ add_month t) × (add_month t ≤ t + 2678400)
unfolding add_month
add_month_bounds t =
    let d = date_of (t / seconds_per_day) in
    let b = days_in_month_bounds d.year d.month in (omega (arith, b.0), omega (arith, b.1))

pub add_year_bounds : (t : ℕ) → (t + 31536000 ≤ add_year t) × (add_year t ≤ t + 31622400)
unfolding add_year
add_year_bounds t =
    let b = go_year_bounds (date_of (t / seconds_per_day)) in
    (omega (arith, b.0), omega (arith, b.1))

next_month_bound : (t : Date) → 28 ≤ next_month t
next_month_bound t = elim (Bool-cases (eqb t.month 12)) [
  | inl december ↦ rw december (days_in_month_bounds (t.year + 1) 1).0
  | inr other ↦ rw other (days_in_month_bounds t.year (t.month + 1)).0
]

pub plus_month_bounds : (t : ℕ) → (t + 2160000 ≤ plus_month t) × (plus_month t ≤ t + 2678400)
unfolding plus_month
plus_month_bounds t =
    let d = date_of (t / seconds_per_day) in
    let b = days_in_month_bounds d.year d.month in
    let n = next_month_bound d in
    let day = day_bound (t / seconds_per_day) in (omega (arith, b.0, n, day), omega (arith, b.1))

pub plus_year_bounds : (t : ℕ) → (t + 31276800 ≤ plus_year t) × (plus_year t ≤ t + 31622400)
unfolding plus_year
plus_year_bounds t =
    let d = date_of (t / seconds_per_day) in
    let b = go_year_bounds d in
    let n = days_in_month_bounds (d.year + 1) d.month in
    let day = day_bound (t / seconds_per_day) in (omega (arith, b.0, n.0, day), omega (arith, b.1))

-- ===== src/Admin/Reports.antt =====
-- What the settlements report holds.
use pay_fast_processor.Prelude.{
  ℕ, ◌*◌, ◌+◌, String, true, false, List, ◌≢◌, ◌==◌, eq_iff, Bool-cases, subst, leb, if◌then◌else◌,
  [], ◌∷◌, ◌≡◌, refl, sym, ◌∙◌, ◌⊎◌, inl, inr, map, select, concat, length,
}
use text.Mathlib.TextLemmas as Text
use pay_fast_processor.Store.Schema.{Settlement}
use pay_fast_processor.Store.Sql.{Result, ok, err}
use pay_fast_processor.Store.Rows.{order_desc, Latest, order_desc-Latest}
use pay_fast_processor.Runtime.Json.{Error}
use pay_fast_processor.Runtime.World.{Env, World, idle}
use pay_fast_processor.Runtime.Act.{◌>>=◌, wrapping, next_call}
use pay_fast_processor.Runtime.Rows.{yielded}
use pay_fast_processor.Runtime.Rows.{pool_rows_cases}
use pay_fast_processor.Admin.Report.{
  interval_of, is_reported, csv_header, csv_line, csv_lines, generate_settlements_report,
}

-- The texts one after the other.
abbrev pub join : List String → String
join [] = ""
join (s ∷ l) = concat s (join l)

module _ (env : Env) where
  csv_lines-join :
      (csv : String) (rows : List Settlement)
      → csv_lines env csv rows ≡ concat csv (join (map (csv_line env) rows))
  unfolding csv_lines
  csv_lines-join csv [] = sym (Text.append-nil csv)
  csv_lines-join csv (s ∷ rows) =
      csv_lines-join (concat csv (csv_line env s)) rows
      ∙ Text.append_assoc csv (csv_line env s) (join (map (csv_line env) rows))

-- How many seconds back a range reaches: those of its name, and a day for any other text.
pub data Reaches : String → ℕ → Type 0 where
  hours_24 : Reaches "24h" (24 * 60 * 60)
  hours_48 : Reaches "48h" (48 * 60 * 60)
  days_7 : Reaches "7d" (7 * 24 * 60 * 60)
  days_30 : Reaches "30d" (30 * 24 * 60 * 60)
  any_other :
      (range : String)
      → range ≢ "24h"
      → range ≢ "48h"
      → range ≢ "7d"
      → range ≢ "30d"
      → Reaches range (24 * 60 * 60)

interval_of-Reaches : (range : String) → Reaches range (interval_of range)
unfolding interval_of
interval_of-Reaches range = elim (Bool-cases (range == "24h")) [
  | inl day ↦ rw (day, (eq_iff range "24h").0 day) hours_24
  | inr not_day ↦ elim (Bool-cases (range == "48h")) [
    | inl two ↦
        rw (not_day, two)
          (subst (λ r. Reaches r 172800) (sym ((eq_iff range "48h").0 two)) hours_48)
    | inr not_two ↦ elim (Bool-cases (range == "7d")) [
      | inl week ↦
          rw (not_day, not_two, week)
            (subst (λ r. Reaches r 604800) (sym ((eq_iff range "7d").0 week)) days_7)
      | inr not_week ↦ elim (Bool-cases (range == "30d")) [
        | inl month ↦
            rw (not_day, not_two, not_week, month)
              (subst (λ r. Reaches r 2592000) (sym ((eq_iff range "30d").0 month)) days_30)
        | inr not_month ↦
            rw (not_day, not_two, not_week, not_month)
              (any_other range (differs _ not_day) (differs _ not_two) (differs _ not_week)
                (differs _ not_month))
      ]
    ]
  ]
]
  where
    differs : (s : String) → range == s ≡ false → range ≢ s
    differs s e same = cc (e, (eq_iff range s).1 same)

-- A line of a CSV file: its fields, with commas between them.
abbrev pub csv_record : List String → String
csv_record [] = "\n"
csv_record (s ∷ []) = concat s "\n"
csv_record (s ∷ t ∷ l) = concat s (concat "," (csv_record (t ∷ l)))

-- The settlements of a merchant that were made at a second or later.
abbrev pub made_since : String → ℕ → ℕ → List Settlement → List Settlement
made_since merchant_id now back [] = []
made_since merchant_id now back (s ∷ l) =
    if s.merchant_id == merchant_id
    then if leb now (s.created_at + back)
      then s ∷ made_since merchant_id now back l
      else made_since merchant_id now back l
    else made_since merchant_id now back l

select-made_since :
    (merchant_id : String) (now back : ℕ) (l : List Settlement)
    → select (is_reported merchant_id back now) l ≡ made_since merchant_id now back l
select-made_since m now back [] = refl
select-made_since m now back (s ∷ l) = elim (Bool-cases (s.merchant_id == m)) [
  | inr other ↦ rw other (select-made_since m now back l)
  | inl own ↦ elim (Bool-cases (leb now (s.created_at + back))) [
    | inl young ↦ rw (own, young, select-made_since m now back l) refl
    | inr old ↦ rw (own, old) (select-made_since m now back l)
  ]
]

module _ (env : Env) where
  -- A line of the file, in the order of its header.
  abbrev pub line_of : Settlement → String
  line_of s = csv_record (
      s.id
      ∷ env.cents_text s.amount
      ∷ s.currency
      ∷ s.status
      ∷ env.time_text s.created_at
      ∷ env.time_text s.updated_at
      ∷ [])

module _ (env : Env) (w : World) (merchant_id range : String) where
  -- The file has a line for each settlement of the merchant in the interval, newest first, up to
  -- the row at which the connection broke.
  pub record Written (csv : String) : Type 0 where
    pub back : ℕ
    pub reaches : Reaches range back
    pub rows : List Settlement
    pub newest :
        let wanted = made_since merchant_id w.now back w.db.settlements in
        Latest (λ s. s.created_at) (length wanted) wanted rows
    pub text :
        csv
        ≡ concat "Settlement ID,Amount,Currency,Status,Created At,Updated At\n"
            (join (map (line_of env) (yielded env (next_call w) rows)))

  abbrev pub IsReport : Result Error String × World → Type 0
  IsReport (r, u) =
      (((env.fails w.tick ≡ true) × (x : Error) × (r ≡ err x))
        ⊎ ((csv : String) × (r ≡ ok csv) × Written csv))
      × (u ≡ record w { tick = u.tick })

  newest_lem :
      let wanted = made_since merchant_id w.now (interval_of range) w.db.settlements in
      Latest
        (λ s. s.created_at)
        (length wanted)
        wanted
        (order_desc
          (λ s. s.created_at)
          (select (is_reported merchant_id (interval_of range) w.now) w.db.settlements))
  newest_lem = rw (select-made_since merchant_id w.now (interval_of range) w.db.settlements) (
      order_desc-Latest (λ s. s.created_at)
        (made_since merchant_id w.now (interval_of range) w.db.settlements))

  -- With no transaction open, the report has the header and then one line for each settlement of the
  -- merchant that was made in the range before now, newest first, or those up to the row at which the
  -- connection broke; if the query fails, it is an error. The range is 24 or 48 hours, 7 or 30 days
  -- by its name, and 24 hours for any other text. A line has the id, the amount in decimals, the
  -- currency, the status and the two times, with commas between them. Nothing has changed.
  pub generate_settlements_report-IsReport :
      w.tx ≡ idle → IsReport (generate_settlements_report env merchant_id range w)
  unfolding generate_settlements_report ◌>>=◌ wrapping
  generate_settlements_report-IsReport closed =
      elim (pool_rows_cases env
        (λ d.
          order_desc (λ s. s.created_at)
            (select (is_reported merchant_id (interval_of range) w.now) d.settlements))
        w closed) [
          | inl broken ↦ rw broken.1 (inl (broken.0, _, refl), refl)
          | inr works ↦ rw works (
            inr (
              _,
              refl,
              record {
                back = interval_of range;
                reaches = interval_of-Reaches range;
                rows = _;
                newest = newest_lem;
                text = csv_lines-join env csv_header _;
              },
            ),
            refl,
          )
        ]

-- ===== src/Admin/Report.antt =====
-- The CSV file of the settlements: `GenerateSettlementsReport` of
-- services/admin_api/service/admin_service.go.
use pay_fast_processor.Prelude.{
  ℕ, ◌+◌, String, Bool, List, [], ◌∷◌, select, leb, ◌&&◌, ◌==◌, concat, if◌then◌else◌,
}
use pay_fast_processor.Store.Schema.{Settlement}
use pay_fast_processor.Store.Rows.{order_desc}
use pay_fast_processor.Runtime.World.{Env}
use pay_fast_processor.Runtime.Act.{Act, pure, wrapping, gets, ◌>>=◌}
use pay_fast_processor.Runtime.Rows.{pool_rows}

-- The interval of a range, in seconds.
unfoldable pub interval_of : String → ℕ
interval_of range =
    if range == "24h"
    then 86400
    else if range == "48h"
    then 172800
    else if range == "7d"
    then 604800
    else if range == "30d"
    then 2592000
    else 86400

-- The `WHERE` clause.
abbrev pub is_reported : String → ℕ → ℕ → Settlement → Bool
is_reported merchant_id interval now s =
    s.merchant_id == merchant_id && leb now (s.created_at + interval)

abbrev pub csv_header : String
csv_header = "Settlement ID,Amount,Currency,Status,Created At,Updated At\n"

module _ (env : Env) where
  abbrev pub csv_line : Settlement → String
  csv_line s = concat s.id (
      concat "," (
        concat (env.cents_text s.amount) (
          concat "," (
            concat s.currency (
              concat "," (
                concat s.status (
                  concat "," (
                    concat (env.time_text s.created_at)
                      (concat "," (concat (env.time_text s.updated_at) "\n"))))))))))

  -- The loop appends one line per row.
  unfoldable pub csv_lines : String → List Settlement → String
  csv_lines csv [] = csv
  csv_lines csv (s ∷ rows) = csv_lines (concat csv (csv_line s)) rows

  -- `GenerateSettlementsReport`.
  unfoldable pub generate_settlements_report : String → String → Act String
  generate_settlements_report merchant_id range = do
    now ← gets (λ w. w.now)
    rows ← wrapping "failed to fetch settlements" (
        pool_rows env (λ d.
          order_desc (λ s. s.created_at)
            (select (is_reported merchant_id (interval_of range) now) d.settlements)))
    pure (csv_lines csv_header rows)

-- ===== src/Admin/Rest.antt =====
-- The lists and the report change no table.
use pay_fast_processor.Prelude.{String, List}
use pay_fast_processor.Store.Schema.{Db}
use pay_fast_processor.Runtime.World.{Env}
use pay_fast_processor.Runtime.Act.{Act, wrapping, ◌>>=◌}
use pay_fast_processor.Runtime.Rows.{pool_rows}
use pay_fast_processor.Runtime.Rest.{AtRest, AtRest-Stable, Keeping, Keeping-bind, Keeping-wrapping}
use pay_fast_processor.Runtime.Rest.Calls.{Keeping-pool_rows, Keeping-pool_query}
use pay_fast_processor.Admin.Lists.{
  get_payments, get_settlements, get_recent_ledger_entries, get_subscriptions, get_refunds,
}
use pay_fast_processor.Admin.Settings.{get_merchant_settings}
use pay_fast_processor.Admin.Report.{generate_settlements_report}

module _ (env : Env) (P : Db → Type 0) where
  -- What a query shows is put together without another call.
  listed-AtRest :
      {A B : Type 0} (q : Db → List A) (what : String) (k : List A → Act B)
      → ((rows : List A) → Keeping (AtRest P) (k rows))
      → Keeping (AtRest P) (wrapping what (pool_rows env q) >>= k)
  listed-AtRest q what k keeps =
      Keeping-bind _ _ _ (Keeping-wrapping _ _ _ (Keeping-pool_rows env P _ (AtRest-Stable P) q))
        keeps

  pub get_payments-AtRest : Keeping (AtRest P) (get_payments env)
  unfolding get_payments
  get_payments-AtRest = listed-AtRest _ _ _ λ rows. Keeping-wrapping _ _ _ (λ w h. h)

  pub get_settlements-AtRest : Keeping (AtRest P) (get_settlements env)
  unfolding get_settlements
  get_settlements-AtRest = listed-AtRest _ _ _ λ rows. Keeping-wrapping _ _ _ (λ w h. h)

  pub get_recent_ledger_entries-AtRest : Keeping (AtRest P) (get_recent_ledger_entries env)
  unfolding get_recent_ledger_entries
  get_recent_ledger_entries-AtRest = listed-AtRest _ _ _ λ rows w h. h

  pub get_subscriptions-AtRest : Keeping (AtRest P) (get_subscriptions env)
  unfolding get_subscriptions
  get_subscriptions-AtRest = listed-AtRest _ _ _ λ rows w h. h

  pub get_refunds-AtRest : (merchant_id : String) → Keeping (AtRest P) (get_refunds env merchant_id)
  unfolding get_refunds
  get_refunds-AtRest merchant_id = listed-AtRest _ _ _ λ rows w h. h

  pub get_merchant_settings-AtRest :
      (merchant_id : String) → Keeping (AtRest P) (get_merchant_settings env merchant_id)
  unfolding get_merchant_settings
  get_merchant_settings-AtRest merchant_id =
      Keeping-wrapping _ _ _ (Keeping-pool_query env P _ (AtRest-Stable P) _)

  pub generate_settlements_report-AtRest :
      (merchant_id range : String)
      → Keeping (AtRest P) (generate_settlements_report env merchant_id range)
  unfolding generate_settlements_report
  generate_settlements_report-AtRest merchant_id range =
      Keeping-bind _ _ _ (λ w h. h) λ now. listed-AtRest _ _ _ λ rows w h. h

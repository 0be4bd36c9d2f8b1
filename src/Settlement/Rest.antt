-- ===== src/Settlement/Rest.antt =====
-- The poll of the settlement service changes no table.
use pay_fast_processor.Prelude.{List, [], ◌∷◌, inl, inr, Bool-cases}
use pay_fast_processor.Store.Schema.{Db}
use pay_fast_processor.Store.Sql.{Result, ok, err}
use pay_fast_processor.Runtime.Json.{Error}
use pay_fast_processor.Runtime.World.{Env}
use pay_fast_processor.Runtime.Rest.{AtRest, AtRest-Stable, Keeping, Keeping-bind, Keeping-attempt}
use pay_fast_processor.Runtime.Rest.Calls.{Keeping-pool_query, Keeping-publish_payment_event}
use pay_fast_processor.Settlement.Poll.{
  SettlementRow, fits_int64, dispatch, dispatch_rows, dispatch_result,
  poll_and_dispatch_settlements,
}

module _ (env : Env) (P : Db → Type 0) where
  dispatch-AtRest : (row : SettlementRow) → Keeping (AtRest P) (dispatch env row)
  dispatch-AtRest row w h = elim (Bool-cases (fits_int64 row.total_amount)) [
    | inl fits ↦ rw fits (
        Keeping-bind _ _ _
          (Keeping-attempt _ _ (Keeping-publish_payment_event env P _ (AtRest-Stable P) _ _))
          (λ _ v k. k) w h)
    | inr large ↦ rw large h
  ]

  dispatch_rows-AtRest : (rows : List SettlementRow) → Keeping (AtRest P) (dispatch_rows env rows)
  unfolding dispatch_rows
  dispatch_rows-AtRest [] = λ w h. h
  dispatch_rows-AtRest (row ∷ rows) =
      Keeping-bind _ _ _ (dispatch-AtRest row) λ _. dispatch_rows-AtRest rows

  dispatch_result-AtRest :
      (found : Result Error (List SettlementRow)) → Keeping (AtRest P) (dispatch_result env found)
  dispatch_result-AtRest (ok rows) = dispatch_rows-AtRest rows
  dispatch_result-AtRest (err e) = λ w h. h

  pub poll-AtRest : Keeping (AtRest P) (poll_and_dispatch_settlements env)
  unfolding poll_and_dispatch_settlements
  poll-AtRest =
      Keeping-bind _ _ _ (λ w h. h)
        λ now.
          Keeping-bind _ _ _ (Keeping-attempt _ _ (Keeping-pool_query env P _ (AtRest-Stable P) _))
            dispatch_result-AtRest

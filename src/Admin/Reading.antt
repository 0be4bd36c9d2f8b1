-- ===== src/Admin/Reading.antt =====
-- What the lists of the dashboard show of the tables.
use pay_fast_processor.Prelude.{
  ℕ, String, true, List, [], ◌∷◌, ◌≡◌, refl, ◌⊎◌, inl, inr, map, select, length,
}
use pay_fast_processor.Store.Schema.{Db}
use pay_fast_processor.Store.Sql.{Result, ok, err}
use pay_fast_processor.Store.Rows.{latest, order_desc, Latest, latest-Latest, order_desc-Latest}
use pay_fast_processor.Runtime.Json.{Error}
use pay_fast_processor.Runtime.World.{Env, World, idle}
use pay_fast_processor.Runtime.Rows.{yielded, pool_rows, pool_rows_cases}
use pay_fast_processor.Runtime.Act.{Act, lift, wrapping, ◌>>=◌, next_call}
use pay_fast_processor.Admin.Lists.{
  scan_all, scan_payment, scan_settlement, scan_subscription, scan_refund, of_merchant,
  get_payments, get_settlements, get_subscriptions, get_refunds,
}

module _ {A B : Type 0} (scan : A → B) where
  pub scan_all-map : (l : List A) → scan_all (λ a. ok (scan a)) l ≡ ok (map scan l)
  unfolding scan_all
  scan_all-map [] = refl
  scan_all-map (a ∷ l) = rw (scan_all-map l) refl

module _ (env : Env) (w : World) {A B : Type 0} (key : A → ℕ) where
  -- The rows of the latest `n` that came before the connection broke: all, if it did not.
  pub record Read (n : ℕ) (table : List A) (scan : A → B) (records : List B) : Type 0 where
    pub rows : List A
    pub newest : Latest key n table rows
    pub shown : records ≡ map scan (yielded env (next_call w) rows)

  -- The query fails, or the list shows the latest rows.
  abbrev pub Listed : ℕ → List A → (A → B) → Result Error (List B) × World → Type 0
  Listed n table scan (r, u) =
      (((env.fails w.tick ≡ true) × (x : Error) × (r ≡ err x))
        ⊎ ((records : List B) × (r ≡ ok records) × Read n table scan records))
      × (u ≡ record w { tick = u.tick })

  Listed-of_Latest :
      (n : ℕ) (q : Db → List A) (table : List A) (scan : A → B) (k : List A → Act (List B))
      → ((rows : List A) (v : World) → k rows v ≡ (ok (map scan rows), v))
      → (what : String) → w.tx ≡ idle
      → Latest key n table (q w.db)
      → Listed n table scan ((wrapping what (pool_rows env q) >>= k) w)
  unfolding ◌>>=◌ wrapping
  Listed-of_Latest n q table scan k scans what closed newest =
      elim (pool_rows_cases env q w closed) [
        | inl broken ↦ rw broken.1 (inl (broken.0, _, refl), refl)
        | inr works ↦
            rw (works, scans (yielded env (next_call w) (q w.db)) (next_call (next_call w)))
              (inr (_, refl, record { rows = q w.db; newest = newest; shown = refl }), refl)
      ]

wrapped_scan :
    {A B : Type 0} (scan : A → B) (what : String) (rows : List A) (v : World)
    → wrapping what (lift (scan_all (λ a. ok (scan a)) rows)) v ≡ (ok (map scan rows), v)
unfolding wrapping
wrapped_scan scan what rows v = rw (scan_all-map scan rows) refl

module _ (env : Env) (w : World) (closed : w.tx ≡ idle) where
  pub get_payments-Listed :
      Listed env w (λ p. p.created_at) 50 w.db.payments scan_payment (get_payments env w)
  unfolding get_payments
  get_payments-Listed =
      Listed-of_Latest env w _ 50 (λ d. latest (λ p. p.created_at) 50 d.payments) w.db.payments
        scan_payment _ (wrapped_scan scan_payment "failed to scan payment")
        "failed to query payments" closed (latest-Latest _ 50 w.db.payments)

  pub get_settlements-Listed :
      Listed env w (λ s. s.created_at) 50 w.db.settlements scan_settlement (get_settlements env w)
  unfolding get_settlements
  get_settlements-Listed =
      Listed-of_Latest env w _ 50 (λ d. latest (λ s. s.created_at) 50 d.settlements)
        w.db.settlements scan_settlement _
        (wrapped_scan scan_settlement "failed to scan settlement") "failed to query settlements"
        closed (latest-Latest _ 50 w.db.settlements)

  pub get_subscriptions-Listed :
      Listed env w
        (λ s. s.created_at)
        20
        w.db.subscriptions
        scan_subscription
        (get_subscriptions env w)
  unfolding get_subscriptions
  get_subscriptions-Listed =
      Listed-of_Latest env w _ 20 (λ d. latest (λ s. s.created_at) 20 d.subscriptions)
        w.db.subscriptions scan_subscription _
        (λ rows v. rw (scan_all-map scan_subscription rows) refl) "failed to query subscriptions"
        closed (latest-Latest _ 20 w.db.subscriptions)

  -- All refunds of the merchant.
  pub get_refunds-Listed :
      (merchant_id : String)
      → Listed env w
          (λ r. r.created_at)
          (length (select (of_merchant merchant_id) w.db.refunds))
          (select (of_merchant merchant_id) w.db.refunds)
          scan_refund
          (get_refunds env merchant_id w)
  unfolding get_refunds
  get_refunds-Listed merchant_id =
      Listed-of_Latest env w _ _
        (λ d. order_desc (λ r. r.created_at) (select (of_merchant merchant_id) d.refunds))
        (select (of_merchant merchant_id) w.db.refunds) scan_refund _ (λ rows v. refl)
        "failed to fetch refunds" closed
        (order_desc-Latest _ (select (of_merchant merchant_id) w.db.refunds))

  -- With no transaction open, the lists of payments and settlements show the 50 latest rows, that of
  -- subscriptions the 20 latest, and that of refunds all rows of the merchant, newest first: the rest
  -- of the table holds no newer row, and none is left where the limit is not reached. If the
  -- connection breaks while rows are read, the list is cut there, and if the query fails, it is an
  -- error. Nothing has changed.
  pub lists-Listed :
      (merchant_id : String)
      → Listed env w (λ p. p.created_at) 50 w.db.payments scan_payment (get_payments env w)
        × Listed env w
            (λ s. s.created_at)
            50
            w.db.settlements
            scan_settlement
            (get_settlements env w)
        × Listed env w
            (λ s. s.created_at)
            20
            w.db.subscriptions
            scan_subscription
            (get_subscriptions env w)
        × Listed env w
            (λ r. r.created_at)
            (length (select (of_merchant merchant_id) w.db.refunds))
            (select (of_merchant merchant_id) w.db.refunds)
            scan_refund
            (get_refunds env merchant_id w)
  lists-Listed merchant_id = (
    get_payments-Listed,
    get_settlements-Listed,
    get_subscriptions-Listed,
    get_refunds-Listed merchant_id,
  )

-- ===== src/Subscriptions/Charge.antt =====
-- What a run of the billing worker does to the subscriptions.
use pay_fast_processor.Prelude.{
  String, Option, List, [], ◌∷◌, ◌++◌, update, ◌≡◌, ap, arith, ◌+◌, ◌≤◌, ◌⊎◌, inl, inr, Bool-cases,
  ◌==◌,
}
use pay_fast_processor.Store.Schema.{Db, Payment, PaymentStatus, Subscription}
use pay_fast_processor.Store.Sql.{Result, ok, err}
use pay_fast_processor.Runtime.Json.{Error}
use pay_fast_processor.Runtime.World.{Env, World, idle}
use pay_fast_processor.Runtime.Act.{
  pure, attempt, tx_exec, commit, ◌>>=◌, ◌>>◌, pool_exec, begin, next_call,
}
use pay_fast_processor.Runtime.Rest.{
  Kept, AtRest, AtRest-Stable, Keeping, Keeping-attempt, Leading-bind,
}
use pay_fast_processor.Runtime.Rest.Calls.{
  Keeping-next_call, Keeping-generate, Keeping-pool_exec, pool_exec-AtRest,
}
use pay_fast_processor.Runtime.Rest.Scope.{
  opened-Kept, Kept-weaker, tx_exec-Kept, Keeping-tx_exec, Keeping-commit, rolling_back-AtRest,
}
use pay_fast_processor.Books.Inserts.{Leads-constrained}
use pay_fast_processor.Gateway.Http.{Request, Response}
use pay_fast_processor.Gateway.Auth.{test_merchant}
use pay_fast_processor.Gateway.Rest.{payments_route-Preserves}
use pay_fast_processor.Subscriptions.Calendar.{plus_month_bounds, plus_year_bounds}
use pay_fast_processor.Subscriptions.Billing.{
  insert_invoice, invoice_constraints, draft_invoice, mark_uncollectible, mark_past_due, lapse,
  mark_paid, paid_constraints, extend, next_end, next_period, extend_period, billing_request,
  is_refused, call_gateway, refuse, settle_invoice, record_charge, conclude, charge_invoiced,
  charge_subscription,
}

next_end_bounds :
    (x : Subscription)
    → (x.current_period_end + 2160000 ≤ next_end x) × (next_end x ≤ x.current_period_end + 31622400)
next_end_bounds x = elim (Bool-cases (x.interval == "month")) [
  | inl month ↦
      let b = plus_month_bounds x.current_period_end in
      rw month (omega (arith, b.0), omega (arith, b.1))
  | inr other ↦
      let b = plus_year_bounds x.current_period_end in
      rw other (omega (arith, b.0), omega (arith, b.1))
]

-- The worker's calls outside the table of subscriptions keep what does not look at the tables that they change.
module _ (env : Env) (P : Db → Type 0)
    (insert : (d : Db) (p : Payment)
      → p.merchant_id ≡ test_merchant
      → P d
      → P (record d { payments = d.payments ++ p ∷ [] }))
    (restate : (d : Db) (id : String) (s : PaymentStatus)
      → P d
      → P (record d {
        payments = update (λ p. p.id == id) (λ p. record p { status = s }) d.payments;
      }))
    (keys : (d : Db) (l : _) → P d → P (record d { idempotency_keys = l }))
    (invoices : (d : Db) (l : _) → P d → P (record d { invoices = l })) where
  pub call_gateway-AtRest : (r : Request) → Keeping (AtRest P) (call_gateway env r)
  unfolding call_gateway
  call_gateway-AtRest r w h = elim (Bool-cases (env.fails w.tick)) [
    | inl lost ↦ rw lost (Keeping-next_call env P _ (AtRest-Stable P) w h)
    | inr sent ↦ rw sent (
        Keeping-next_call env P _ (AtRest-Stable P) _ (
          payments_route-Preserves env P insert restate keys r (next_call w)
            (Keeping-next_call env P _ (AtRest-Stable P) w h)))
  ]

  pub insert_invoice-AtRest :
      (id : String) (s : Subscription)
      → Keeping (AtRest P) (pool_exec env (insert_invoice (draft_invoice id s)))
  unfolding insert_invoice
  insert_invoice-AtRest id s = Keeping-pool_exec env P _ (AtRest-Stable P) _ λ d h.
      Leads-constrained _ (invoice_constraints (draft_invoice id s) d) tt _ (λ _. invoices d _ h)

  pub mark_uncollectible-AtRest :
      (id : String) → Keeping (AtRest P) (pool_exec env (mark_uncollectible id))
  unfolding mark_uncollectible
  mark_uncollectible-AtRest id =
      Keeping-pool_exec env P _ (AtRest-Stable P) _ (λ d h. invoices d _ h)

  pub mark_paid-Kept :
      (payment_id invoice_id : String)
      → Keeping (Kept P) (tx_exec env (mark_paid payment_id invoice_id))
  unfolding mark_paid
  mark_paid-Kept payment_id invoice_id = Keeping-tx_exec P env _ λ d h.
      Leads-constrained (λ _. P) (paid_constraints payment_id invoice_id d) tt _
        (λ _. invoices d _ h)

module _ (env : Env) (s : Subscription) (before : List Subscription) where
  abbrev Same : Db → Type 0
  Same d = d.subscriptions ≡ before

  abbrev Extended : Db → Type 0
  Extended d = (d.subscriptions ≡ before) ⊎ (d.subscriptions ≡ extend s.id before)

  -- The subscription is as before, or lapsed, or extended by one period; the others are as before.
  abbrev pub Charged : Db → Type 0
  Charged d =
      (d.subscriptions ≡ before)
      ⊎ (d.subscriptions ≡ lapse s.id before)
      ⊎ (d.subscriptions ≡ extend s.id before)

  settled : (w : World) → AtRest Same w → AtRest Charged w
  settled w h = record { holds = inl h.holds; closed = h.closed }

  lapse_lem :
      (w : World)
      → AtRest Same w
      → AtRest Charged ((attempt (pool_exec env (mark_past_due s.id)) >> pure tt) w).1
  unfolding attempt ◌>>=◌ mark_past_due
  lapse_lem =
      pool_exec-AtRest env Same Charged (λ d h. inl h) _ (λ d h. inr (inl (ap (lapse s.id) h)))

  refuse_lem :
      (invoice_id : String) (w : World)
      → AtRest Same w
      → AtRest Charged (refuse env invoice_id s w).1
  refuse_lem invoice_id =
      Leading-bind _ _ settled _ _
        (Keeping-attempt _ _ (
          mark_uncollectible-AtRest env Same (λ d p m h. h) (λ d id s h. h) (λ d l h. h)
            (λ d l h. h) invoice_id))
        λ _. lapse_lem

  -- The statements of the transaction.
  extend_lem :
      (w : World)
      → Kept Same w
      → Kept Extended
          ((attempt (tx_exec env (extend_period s.id)) >> (attempt (commit env) >> pure tt)) w).1
  unfolding attempt ◌>>=◌ extend_period
  extend_lem w h =
      Keeping-commit Extended env _
        (tx_exec-Kept Same Extended (λ d h. inl h) env _ (λ d h. inr (ap (extend s.id) h)) w h)

  settle_invoice_lem :
      (payment_id invoice_id : String) (w : World)
      → Kept Same w
      → Kept Extended (settle_invoice env payment_id invoice_id s w).1
  settle_invoice_lem payment_id invoice_id w h =
      Leading-bind (Kept Same) (Kept Extended) (Kept-weaker Same Extended (λ d h. inl h)) _ _
        (Keeping-attempt _ _ (
          mark_paid-Kept env Same (λ d p m h. h) (λ d id s h. h) (λ d l h. h) (λ d l h. h)
            payment_id invoice_id))
        (λ _. extend_lem) w h

  charged : (w : World) → AtRest Extended w → AtRest Charged w
  charged w h = record {
    holds = elim h.holds [ inl same ↦ inl same | inr later ↦ inr (inr later) ];
    closed = h.closed;
  }

  record_charge_lem :
      (payment_id invoice_id : String) (w : World)
      → AtRest Same w
      → AtRest Charged (record_charge env payment_id invoice_id s w).1
  unfolding attempt begin ◌>>=◌
  record_charge_lem payment_id invoice_id w h = elim (Bool-cases (env.fails w.tick)) [
    | inl broken ↦ rw broken (record { holds = inl h.holds; closed = h.closed })
    | inr works ↦ rw works (
        charged _ (
          rolling_back-AtRest Extended _ _
            (settle_invoice_lem payment_id invoice_id _ (opened-Kept Same w h))))
  ]

  conclude_lem :
      (invoice_id : String) (response : Option Response) (w : World)
      → AtRest Same w
      → AtRest Charged (conclude env invoice_id s response w).1
  conclude_lem invoice_id response w h = elim (Bool-cases (is_refused response)) [
    | inl refused ↦ rw refused (refuse_lem invoice_id w h)
    | inr accepted ↦ rw accepted (record_charge_lem _ invoice_id w h)
  ]

  charge_invoiced_lem :
      (invoice_id : String) (invoiced : Result Error Unit) (w : World)
      → AtRest Same w
      → AtRest Charged (charge_invoiced env invoice_id s invoiced w).1
  charge_invoiced_lem invoice_id (err e) w h = settled w h
  charge_invoiced_lem invoice_id (ok _) w h =
      Leading-bind _ _ settled _ _
        (call_gateway-AtRest env Same (λ d p m h. h) (λ d id s h. h) (λ d l h. h) (λ d l h. h)
          (billing_request invoice_id s))
        (conclude_lem invoice_id) w h

  charge_lem : (w : World) → AtRest Same w → AtRest Charged (charge_subscription env s w).1
  unfolding charge_subscription
  charge_lem =
      Leading-bind _ _ settled _ _ (Keeping-generate env Same _ (AtRest-Stable Same) "in_")
        λ invoice_id.
          Leading-bind _ _ settled _ _
            (Keeping-attempt _ _ (
              insert_invoice-AtRest env Same (λ d p m h. h) (λ d id s h. h) (λ d l h. h)
                (λ d l h. h) invoice_id s))
            (charge_invoiced_lem invoice_id)

  -- What one run of `chargeSubscription` does to the subscriptions, with no transaction open and
  -- whichever calls fail: all are as before, or this one has lapsed, or this one is extended by one
  -- period; and no transaction is open. The next period of this subscription ends 25 to 366 days
  -- after the last one.
  pub charge_subscription-Charged :
      (w : World)
      → w.tx ≡ idle
      → w.db.subscriptions ≡ before
      → AtRest Charged (charge_subscription env s w).1
        × (s.current_period_end + 2160000 ≤ (next_period s).current_period_end)
        × ((next_period s).current_period_end ≤ s.current_period_end + 31622400)
  charge_subscription-Charged w closed same =
      let b = next_end_bounds s in
      (charge_lem w (record { holds = same; closed = closed }), b.0, b.1)

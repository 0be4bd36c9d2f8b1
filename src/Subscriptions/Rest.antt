-- ===== src/Subscriptions/Rest.antt =====
-- The subscription service changes payments, idempotency keys, invoices and subscriptions only, and
-- what it adds to the payments is made for the test merchant.
use pay_fast_processor.Prelude.{
  String, Option, List, [], ◌∷◌, ◌++◌, ◌≡◌, update, inl, inr, Bool-cases, ◌==◌, ◌||◌,
}
use pay_fast_processor.Prelude.Int.{pos, leb_ℤ}
use pay_fast_processor.Store.Schema.{
  Db, Payment, PaymentStatus, IdempotencyKey, Invoice, Subscription,
}
use pay_fast_processor.Store.Sql.{Result, ok, err}
use pay_fast_processor.Runtime.Json.{Json, Error}
use pay_fast_processor.Runtime.World.{Env, World}
use pay_fast_processor.Runtime.Act.{attempt, ◌>>=◌, begin}
use pay_fast_processor.Runtime.Rest.{
  Kept, AtRest, AtRest-Stable, Keeping, Keeping-bind, Keeping-attempt, Keeping-wrapping, Keeping-if,
}
use pay_fast_processor.Runtime.Rest.Calls.{Keeping-generate, Keeping-pool_exec, Keeping-pool_rows}
use pay_fast_processor.Runtime.Rest.Scope.{
  opened-Kept, Keeping-tx_exec, Keeping-commit, rolling_back-AtRest,
}
use pay_fast_processor.Books.Inserts.{Leads-constrained}
use pay_fast_processor.Gateway.Auth.{test_merchant}
use pay_fast_processor.Subscriptions.Creation.{
  CreateSubscriptionRequest, subscription_of, subscription_constraints, insert_subscription,
  store_subscription, create_subscription, subscription_decoded, with_merchant, decode_subscription,
  handle_create,
}
use pay_fast_processor.Subscriptions.Billing.{
  mark_past_due, extend_period, is_refused, refuse, settle_invoice, record_charge, charge_invoiced,
  charge_subscription, charge_all, charge_found, process_due_subscriptions, billing_request,
  paid_id,
}
use pay_fast_processor.Subscriptions.Charge.{
  call_gateway-AtRest, insert_invoice-AtRest, mark_uncollectible-AtRest, mark_paid-Kept,
}

module _ (env : Env) (P : Db → Type 0)
    (insert : (d : Db) (p : Payment)
      → p.merchant_id ≡ test_merchant
      → P d
      → P (record d { payments = d.payments ++ p ∷ [] }))
    (restate : (d : Db) (id : String) (s : PaymentStatus)
      → P d
      → P (record d {
        payments = update (λ p. p.id == id) (λ p. record p { status = s }) d.payments;
      }))
    (keys : (d : Db) (l : List IdempotencyKey) → P d → P (record d { idempotency_keys = l }))
    (invoices : (d : Db) (l : List Invoice) → P d → P (record d { invoices = l }))
    (subscriptions : (d : Db) (l : List Subscription)
      → P d
      → P (record d { subscriptions = l })) where
  store_subscription-AtRest :
      (req : CreateSubscriptionRequest) → Keeping (AtRest P) (store_subscription env req)
  unfolding store_subscription insert_subscription
  store_subscription-AtRest req =
      Keeping-bind _ _ _ (Keeping-generate env P _ (AtRest-Stable P) "sub_") λ id.
        Keeping-bind _ _ _ (λ w h. h)
          λ now.
            Keeping-bind _ _ _
              (Keeping-wrapping _ _ _ (
                Keeping-pool_exec env P _ (AtRest-Stable P) _ λ d h.
                  Leads-constrained (λ _. P)
                    (subscription_constraints (subscription_of id req now) d) tt _
                    (λ _. subscriptions d _ h)))
              (λ _ w h. h)

  create_subscription-AtRest :
      (req : CreateSubscriptionRequest) → Keeping (AtRest P) (create_subscription env req)
  unfolding create_subscription
  create_subscription-AtRest req =
      Keeping-if _ (leb_ℤ req.amount (pos 0)) _ _ (λ w h. h)
        (Keeping-if _ (req.interval == "month" || req.interval == "year") _ _
          (store_subscription-AtRest req) (λ w h. h))

  subscription_decoded-AtRest :
      (r : Result Error CreateSubscriptionRequest) (w : World)
      → AtRest P w
      → AtRest P (subscription_decoded env r w).1
  subscription_decoded-AtRest (ok req) w h = create_subscription-AtRest (with_merchant req) w h
  subscription_decoded-AtRest (err e) w h = h

  pub handle_create-AtRest :
      (body : Option Json) (w : World) → AtRest P w → AtRest P (handle_create env body w).1
  unfolding handle_create
  handle_create-AtRest body w h = subscription_decoded-AtRest (decode_subscription body) w h

  module _ (invoice_id : String) (s : Subscription) where
    refuse-AtRest : Keeping (AtRest P) (refuse env invoice_id s)
    unfolding mark_past_due
    refuse-AtRest =
        Keeping-bind _ _ _
          (Keeping-attempt _ _
            (mark_uncollectible-AtRest env P insert restate keys invoices invoice_id))
          λ _.
            Keeping-bind _ _ _
              (Keeping-attempt _ _
                (Keeping-pool_exec env P _ (AtRest-Stable P) _ (λ d h. subscriptions d _ h)))
              (λ _ w h. h)

    settle_invoice-Kept :
        (payment_id : String) → Keeping (Kept P) (settle_invoice env payment_id invoice_id s)
    unfolding extend_period
    settle_invoice-Kept payment_id =
        Keeping-bind _ _ _
          (Keeping-attempt _ _
            (mark_paid-Kept env P insert restate keys invoices payment_id invoice_id))
          λ _.
            Keeping-bind _ _ _
              (Keeping-attempt _ _ (Keeping-tx_exec P env _ (λ d h. subscriptions d _ h)))
              λ _. Keeping-bind _ _ _ (Keeping-attempt _ _ (Keeping-commit P env)) (λ _ w h. h)

    record_charge-AtRest :
        (payment_id : String) → Keeping (AtRest P) (record_charge env payment_id invoice_id s)
    unfolding attempt begin ◌>>=◌
    record_charge-AtRest payment_id w h = elim (Bool-cases (env.fails w.tick)) [
      | inl broken ↦ rw broken (record { holds = h.holds; closed = h.closed })
      | inr works ↦
          rw works
            (rolling_back-AtRest P _ _ (settle_invoice-Kept payment_id _ (opened-Kept P w h)))
    ]

    charge_invoiced-AtRest :
        (invoiced : Result Error Unit)
        → Keeping (AtRest P) (charge_invoiced env invoice_id s invoiced)
    charge_invoiced-AtRest (err e) = λ w h. h
    charge_invoiced-AtRest (ok _) =
        Keeping-bind _ _ _
          (call_gateway-AtRest env P insert restate keys invoices (billing_request invoice_id s))
          λ response.
            Keeping-if _ (is_refused response) _ _ refuse-AtRest
              (record_charge-AtRest (paid_id response))

  charge_subscription-AtRest : (s : Subscription) → Keeping (AtRest P) (charge_subscription env s)
  unfolding charge_subscription
  charge_subscription-AtRest s =
      Keeping-bind _ _ _ (Keeping-generate env P _ (AtRest-Stable P) "in_") λ invoice_id.
        Keeping-bind _ _ _
          (Keeping-attempt _ _
            (insert_invoice-AtRest env P insert restate keys invoices invoice_id s))
          (charge_invoiced-AtRest invoice_id s)

  charge_all-AtRest : (rows : List Subscription) → Keeping (AtRest P) (charge_all env rows)
  unfolding charge_all
  charge_all-AtRest [] = λ w h. h
  charge_all-AtRest (s ∷ rows) =
      Keeping-bind _ _ _ (charge_subscription-AtRest s) λ _. charge_all-AtRest rows

  charge_found-AtRest :
      (found : Result Error (List Subscription)) → Keeping (AtRest P) (charge_found env found)
  charge_found-AtRest (ok rows) = charge_all-AtRest rows
  charge_found-AtRest (err e) = λ w h. h

  pub process_due_subscriptions-AtRest : Keeping (AtRest P) (process_due_subscriptions env)
  unfolding process_due_subscriptions
  process_due_subscriptions-AtRest =
      Keeping-bind _ _ _ (λ w h. h)
        λ now.
          Keeping-bind _ _ _ (Keeping-attempt _ _ (Keeping-pool_rows env P _ (AtRest-Stable P) _))
            charge_found-AtRest

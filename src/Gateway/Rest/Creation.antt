-- ===== src/Gateway/Rest/Creation.antt =====
-- Creating a payment adds one of the test merchant, and changes the status of payments.
use pay_fast_processor.Prelude.{update, subst, sym, ◌++◌, ◌≡◌, refl, String, some, ◌==◌, [], ◌∷◌}
use pay_fast_processor.Prelude.Int.{leb_ℤ, pos}
use pay_fast_processor.Store.Schema.{Db, Payment, PaymentStatus}
use pay_fast_processor.Store.Sql.{Result, ok, err}
use pay_fast_processor.Runtime.Json.{Error}
use pay_fast_processor.Runtime.World.{Env, World}
use pay_fast_processor.Runtime.Rest.{
  Kept, AtRest, AtRest-Stable, Kept-Stable, Keeping, Keeping-bind, Keeping-wrapping,
  Keeping-in_background, Keeping-if,
}
use pay_fast_processor.Runtime.Rest.Calls.{
  Keeping-generate, Keeping-pool_query, Keeping-pool_exec, Keeping-publish_payment_event,
}
use pay_fast_processor.Runtime.Rest.Scope.{
  Keeping-tx_exec, Keeping-commit, transaction_wrapped-AtRest,
}
use pay_fast_processor.Books.Inserts.{Leads-constrained}
use pay_fast_processor.Gateway.Http.{Request, Handler}
use pay_fast_processor.Gateway.Payments.{
  CreatePaymentRequest, insert_payment, payment_constraints, set_status, payment_of, store_payment,
  authorize, process_payment, create_decoded, create_for, create_payment, decode_request,
}
use pay_fast_processor.Gateway.Auth.{test_merchant}

-- A handler that keeps what holds between two operations, where the request is the test merchant's.
abbrev pub Safe : (Db → Type 0) → Handler → Type 0
Safe P h =
    (r : Request) (w : World) → r.merchant_id ≡ some test_merchant → AtRest P w → AtRest P (h r w).1

module _ (env : Env) (P : Db → Type 0)
    (insert : (d : Db) (p : Payment)
      → p.merchant_id ≡ test_merchant
      → P d
      → P (record d { payments = d.payments ++ p ∷ [] }))
    (restate : (d : Db) (id : String) (s : PaymentStatus)
      → P d
      → P (record d {
        payments = update (λ p. p.id == id) (λ p. record p { status = s }) d.payments;
      })) where
  store_payment-Kept :
      (id merchant_id key : String) (req : CreatePaymentRequest)
      → merchant_id ≡ test_merchant
      → Keeping (Kept P) (store_payment env id merchant_id key req)
  unfolding store_payment insert_payment
  store_payment-Kept id merchant_id key req test =
      Keeping-bind _ _ _ (λ w h. h)
        λ now.
          Keeping-bind _ _ _ (Keeping-wrapping _ _ _ (Keeping-pool_query env P _ (Kept-Stable P) _))
            λ kind.
              Keeping-bind _ _ _
                (Keeping-wrapping _ _ _ (
                  Keeping-tx_exec P env _ λ d h.
                    Leads-constrained _
                      (payment_constraints (payment_of id merchant_id key kind req now) d) tt _
                      (λ _. insert d _ test h)))
                λ _. Keeping-wrapping _ _ _ (Keeping-commit P env)

  authorize-Kept :
      (id merchant_id : String) (req : CreatePaymentRequest)
      → Keeping (Kept P) (authorize env id merchant_id req)
  unfolding authorize set_status
  authorize-Kept id merchant_id req =
      Keeping-bind _ _ _
        (Keeping-wrapping _ _ _
          (Keeping-pool_exec env P _ (Kept-Stable P) _ (λ d h. restate d id _ h)))
        λ _.
          Keeping-bind _ _ _
            (Keeping-in_background _ _ (Keeping-publish_payment_event env P _ (Kept-Stable P) _ _))
            λ _ w h. h

  process_payment-AtRest :
      (merchant_id key : String) (req : CreatePaymentRequest)
      → merchant_id ≡ test_merchant
      → Keeping (AtRest P) (process_payment env merchant_id key req)
  unfolding process_payment
  process_payment-AtRest merchant_id key req test =
      Keeping-if _ (leb_ℤ req.amount (pos 0)) _ _ (λ w h. h)
        (Keeping-bind _ _ _ (Keeping-generate env P _ (AtRest-Stable P) "py_") λ id.
          transaction_wrapped-AtRest P env _
            (Keeping-bind _ _ _ (store_payment-Kept id merchant_id key req test)
              λ _. authorize-Kept id merchant_id req)
            "failed to begin transaction")

  pub create_payment-Safe : Safe P (create_payment env)
  unfolding create_payment
  create_payment-Safe r w test h =
      subst (λ o. AtRest P (create_for env o r w).1) (sym test) decoded_of_test
    where
      decoded_lem :
          (d : Result Error CreatePaymentRequest)
          → AtRest P (create_decoded env d test_merchant r w).1
      decoded_lem (err e) = h
      decoded_lem (ok req) = process_payment-AtRest test_merchant r.idempotency_key req refl w h

      decoded_of_test : AtRest P (create_for env (some test_merchant) r w).1
      decoded_of_test = decoded_lem (decode_request r.body)

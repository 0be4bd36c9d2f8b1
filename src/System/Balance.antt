-- ===== src/System/Balance.antt =====
-- In every world that the services reach the books are balanced and no transaction is open.
use pay_fast_processor.Prelude.{String, ◌≡◌, sym, subst, ◌∙◌, ◌==◌, if◌then◌else◌}
use pay_fast_processor.Store.Sql.{Result, ok, err}
use pay_fast_processor.Runtime.Json.{Error}
use pay_fast_processor.Runtime.World.{Env, World, Message, idle}
use pay_fast_processor.Runtime.Rest.{AtRest}
use pay_fast_processor.Books.Balance.{Balanced}
use pay_fast_processor.Gateway.Auth.{test_merchant}
use pay_fast_processor.Gateway.Rest.{payments_route-Safe}
use pay_fast_processor.Ledger.Delivery.{handle_payment_event-IsBalanced, handle_payment_event-idle}
use pay_fast_processor.Settlement.Delivery.{
  handle_settle_event-IsBalanced, handle_settle_event-idle,
}
use pay_fast_processor.Settlement.Rest.{poll-AtRest}
use pay_fast_processor.Fraud.Rest.{handle_payment_event-AtRest}
use pay_fast_processor.DataWarehouse.Archive.{handle_payment_event-Handled}
use pay_fast_processor.Webhook.Rest.{handle_webhook_event-AtRest}
use pay_fast_processor.Vault.Tokens.{TokenizeRequest}
use pay_fast_processor.Vault.Handler.{decode_token, token_decoded, tokenize}
use pay_fast_processor.Vault.Rest.{tokenize_card-AtRest}
use pay_fast_processor.Admin.Refunds.{RefundRequest, decode_refund, refund_decoded, handle_refund}
use pay_fast_processor.Admin.Refunding.{issue_refund-IsBalanced, issue_refund-idle}
use pay_fast_processor.Admin.Handlers.{
  handle_payments, handle_settlements, handle_ledger, handle_subscriptions, handle_refunds,
  handle_get_settings, handle_update_settings, handle_report, update_decoded, decode_schedule,
}
use pay_fast_processor.Admin.Balance.{update_merchant_settings-AtRest}
use pay_fast_processor.Admin.Rest.{
  get_payments-AtRest, get_settlements-AtRest, get_recent_ledger_entries-AtRest,
  get_subscriptions-AtRest, get_refunds-AtRest, get_merchant_settings-AtRest,
  generate_settlements_report-AtRest,
}
use pay_fast_processor.Subscriptions.Rest.{handle_create-AtRest, process_due_subscriptions-AtRest}
use pay_fast_processor.System.{
  Externals, AdminRoute, get_payments, get_ledger, get_subscriptions, get_settlements, get_settings,
  get_refunds, put_settings, get_report, post_refund, admin_route, Group, ledger_service_group,
  settlement_group, fraud_group, dw_group, webhook_service_group, group_handler, ledger_consumer,
  settlement_consumer, fraud_consumer, warehouse_consumer, webhook_consumer, subscriptions_route,
  tokens_route, scheduler_tick, billing_tick, Input, payment_request, subscription_request,
  token_request, admin_request, message_for, poll_ticker, billing_ticker, wait, serve, Reachable,
  at_start, after,
}

-- What every operation keeps.
abbrev pub Sound : World → Type 0
Sound = AtRest Balanced

module _ (x : Externals) (env : Env) (w : World) (h : Sound w) where
  refund_decoded-Sound : (r : Result Error RefundRequest) → Sound (refund_decoded env r w).1
  refund_decoded-Sound (err e) = h
  refund_decoded-Sound (ok req) = record {
    holds = issue_refund-IsBalanced env test_merchant req.payment_id req.amount w h.closed h.holds;
    closed = issue_refund-idle env test_merchant req.payment_id req.amount w h.closed;
  }

  update_decoded-Sound : (r : Result Error String) → Sound (update_decoded env r w).1
  update_decoded-Sound (err e) = h
  update_decoded-Sound (ok schedule) =
      update_merchant_settings-AtRest env test_merchant schedule w h

  admin_route-Sound : (route : AdminRoute) → Sound (admin_route env route w)
  unfolding admin_route handle_payments handle_settlements handle_ledger handle_subscriptions
      handle_refunds handle_get_settings handle_update_settings handle_report handle_refund
  admin_route-Sound get_payments = get_payments-AtRest env Balanced w h
  admin_route-Sound get_ledger = get_recent_ledger_entries-AtRest env Balanced w h
  admin_route-Sound get_subscriptions = get_subscriptions-AtRest env Balanced w h
  admin_route-Sound get_settlements = get_settlements-AtRest env Balanced w h
  admin_route-Sound get_settings = get_merchant_settings-AtRest env Balanced test_merchant w h
  admin_route-Sound get_refunds = get_refunds-AtRest env Balanced test_merchant w h
  admin_route-Sound (put_settings body) = update_decoded-Sound (decode_schedule env body)
  admin_route-Sound (get_report range) =
      generate_settlements_report-AtRest env Balanced test_merchant
        (if range == "" then "24h" else range) w h
  admin_route-Sound (post_refund r) = refund_decoded-Sound (decode_refund r.body)

  group_handler-Sound : (group : Group) (m : Message) → Sound (group_handler x env group m w).1
  unfolding ledger_consumer settlement_consumer fraud_consumer warehouse_consumer webhook_consumer
  group_handler-Sound ledger_service_group m = record {
    holds = handle_payment_event-IsBalanced env w m.value h.closed h.holds;
    closed = handle_payment_event-idle env w m.value h.closed;
  }
  group_handler-Sound settlement_group m = record {
    holds = handle_settle_event-IsBalanced env w m.value h.closed h.holds;
    closed = handle_settle_event-idle env w m.value h.closed;
  }
  group_handler-Sound fraud_group m =
      handle_payment_event-AtRest env Balanced (λ d l b. b) m.value w h
  group_handler-Sound dw_group m =
      let e = (handle_payment_event-Handled env m.value w).1 in
      record { holds = subst Balanced (sym e.0) h.holds; closed = e.1 ∙ h.closed }
  group_handler-Sound webhook_service_group m =
      handle_webhook_event-AtRest env x.hmac_hex Balanced m.value w h

  token_decoded-Sound :
      (r : Result Error TokenizeRequest)
      → Sound (token_decoded x.bytes x.text_of env x.gcm x.entropy x.sha256_hex x.vault_key r w).1
  token_decoded-Sound (err e) = h
  token_decoded-Sound (ok req) =
      tokenize_card-AtRest env x.gcm x.entropy x.sha256_hex x.vault_key Balanced (λ d l b. b) req w
        h

  -- One input.
  serve-Sound : (input : Input) → Sound (serve x env input w)
  unfolding serve subscriptions_route tokens_route tokenize scheduler_tick billing_tick
  serve-Sound (payment_request r) = payments_route-Safe env Balanced (λ d l b. b) (λ d l b. b) r w h
  serve-Sound (subscription_request body) =
      handle_create-AtRest env Balanced (λ d p m b. b) (λ d id s b. b) (λ d l b. b) (λ d l b. b)
        (λ d l b. b) body w h
  serve-Sound (token_request body) = token_decoded-Sound (decode_token x.bytes x.text_of body)
  serve-Sound (admin_request route) = admin_route-Sound route
  serve-Sound (message_for group m) = group_handler-Sound group m
  serve-Sound poll_ticker = poll-AtRest env Balanced w h
  serve-Sound billing_ticker =
      process_due_subscriptions-AtRest env Balanced (λ d p m b. b) (λ d id s b. b) (λ d l b. b)
        (λ d l b. b) (λ d l b. b) w h
  serve-Sound (wait seconds) = record { holds = h.holds; closed = h.closed }

module _ (x : Externals) (start : World) (balanced : Balanced start.db)
    (closed : start.tx ≡ idle) where
  -- From a world with balanced books and no open transaction, whatever requests, messages and ticks
  -- arrive, in any order and any number of times, and whichever calls fail: the books are balanced
  -- after each of them, and no transaction stays open.
  pub Reachable-Sound : (w : World) → Reachable x start w → Balanced w.db × (w.tx ≡ idle)
  Reachable-Sound w r = let h = sound w r in (h.holds, h.closed)
    where
      sound : (w : World) → Reachable x start w → Sound w
      sound w at_start = record { holds = balanced; closed = closed }
      sound w (after env input v r) = serve-Sound x env v (sound v r) input

-- ===== src/System.antt =====
-- The services together, as services/*/cmd/main.go start them: which handler a route, a topic or a
-- ticker leads to.
pub mod Balance
mod Tests
use pay_fast_processor.Prelude.{ℕ, ◌+◌, String, Option}
use pay_fast_processor.Runtime.Json.{Json}
use pay_fast_processor.Runtime.World.{Env, World, Message}
use pay_fast_processor.Runtime.Act.{Act}
use pay_fast_processor.Gateway.Http.{Request}
use pay_fast_processor.Gateway.Auth.{payments_route}
use pay_fast_processor.Ledger
use pay_fast_processor.Settlement
use pay_fast_processor.Settlement.Poll.{poll_and_dispatch_settlements}
use pay_fast_processor.Fraud
use pay_fast_processor.DataWarehouse
use pay_fast_processor.Webhook.{handle_webhook_event}
use pay_fast_processor.Vault.Crypto.{Bytes, Gcm}
use pay_fast_processor.Vault.Handler.{tokenize}
use pay_fast_processor.Admin.Refunds.{handle_refund}
use pay_fast_processor.Admin.Handlers.{
  handle_payments, handle_settlements, handle_ledger, handle_subscriptions, handle_refunds,
  handle_get_settings, handle_update_settings, handle_report,
}
use pay_fast_processor.Subscriptions.Creation.{handle_create}
use pay_fast_processor.Subscriptions.Billing.{process_due_subscriptions}

-- Other code that the services call: HMAC, texts as bytes, AES-GCM, randomness, SHA-256; and the key
-- of the vault.
pub record Externals : Type 0 where
  pub hmac_hex : String → Json → String
  pub bytes : String → Bytes
  pub text_of : Bytes → String
  pub gcm : Gcm
  pub entropy : ℕ → Option Bytes
  pub sha256_hex : Bytes → String
  pub vault_key : Bytes

-- The routes of services/admin_api/cmd/main.go.
pub data AdminRoute : Type 0 where
  get_payments get_ledger get_subscriptions get_settlements get_settings get_refunds : AdminRoute
  put_settings : Option Json → AdminRoute
  get_report : String → AdminRoute
  post_refund : Request → AdminRoute

unfoldable pub admin_route : Env → AdminRoute → World → World
admin_route env get_payments w = (handle_payments env w).1
admin_route env get_ledger w = (handle_ledger env w).1
admin_route env get_subscriptions w = (handle_subscriptions env w).1
admin_route env get_settlements w = (handle_settlements env w).1
admin_route env get_settings w = (handle_get_settings env w).1
admin_route env get_refunds w = (handle_refunds env w).1
admin_route env (put_settings body) w = (handle_update_settings env body w).1
admin_route env (get_report range) w = (handle_report env range w).1
admin_route env (post_refund r) w = (handle_refund env r w).1

-- The consumer groups: four of the topic "payment_events", and one of "webhook_events".
pub data Group : Type 0 where
  ledger_service_group settlement_group fraud_group dw_group webhook_service_group : Group

-- What each service's consumer does with a message.
unfoldable pub ledger_consumer : Env → Message → Act Unit
ledger_consumer env m = Ledger.handle_payment_event env m.value

unfoldable pub settlement_consumer : Env → Message → Act Unit
settlement_consumer env m = Settlement.handle_settle_event env m.value

unfoldable pub fraud_consumer : Env → Message → Act Unit
fraud_consumer env m = Fraud.handle_payment_event env m.value

unfoldable pub warehouse_consumer : Env → Message → Act Unit
warehouse_consumer env m = DataWarehouse.handle_payment_event env m.value

unfoldable pub webhook_consumer : Externals → Env → Message → Act Unit
webhook_consumer x env m = handle_webhook_event env x.hmac_hex m.value

abbrev pub group_handler : Externals → Env → Group → Message → Act Unit
group_handler x env ledger_service_group = ledger_consumer env
group_handler x env settlement_group = settlement_consumer env
group_handler x env fraud_group = fraud_consumer env
group_handler x env dw_group = warehouse_consumer env
group_handler x env webhook_service_group = webhook_consumer x env

-- The routes of services/subscriptions and services/vault, and the ticker of the billing worker.
unfoldable pub subscriptions_route : Env → Option Json → World → World
subscriptions_route env body w = (handle_create env body w).1

unfoldable pub tokens_route : Externals → Env → Option Json → World → World
tokens_route x env body w =
    (tokenize x.bytes x.text_of env x.gcm x.entropy x.sha256_hex x.vault_key body w).1

unfoldable pub billing_tick : Env → World → World
billing_tick env w = (process_due_subscriptions env w).1

-- The scheduler of the settlement service.
unfoldable pub scheduler_tick : Env → World → World
scheduler_tick env w = (poll_and_dispatch_settlements env w).1

-- What sets a service to work.
pub data Input : Type 0 where
  -- POST /v1/payments, POST /v1/subscriptions, POST /v1/tokens, and the dashboard.
  payment_request : Request → Input
  subscription_request token_request : Option Json → Input
  admin_request : AdminRoute → Input
  -- A message, first or again, in any order.
  message_for : Group → Message → Input
  -- The tickers of the settlement service and of the billing worker.
  poll_ticker billing_ticker : Input
  -- Time passes.
  wait : ℕ → Input

unfoldable pub serve : Externals → Env → Input → World → World
serve x env (payment_request r) w = (payments_route env r w).1
serve x env (subscription_request body) w = subscriptions_route env body w
serve x env (token_request body) w = tokens_route x env body w
serve x env (admin_request route) w = admin_route env route w
serve x env (message_for group m) w = (group_handler x env group m w).1
serve x env poll_ticker w = scheduler_tick env w
serve x env billing_ticker w = billing_tick env w
serve x env (wait seconds) w = record w { now = w.now + seconds }

-- The worlds that any inputs lead to, each under an environment of its own.
pub data Reachable (x : Externals) (start : World) : World → Type 0 where
  at_start : Reachable x start start
  after :
      (env : Env) (input : Input) (w : World)
      → Reachable x start w
      → Reachable x start (serve x env input w)

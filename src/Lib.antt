-- ===== src/Lib.antt =====
-- PayFast, a payment processor of event-driven services (Go). A merchant posts a payment to the
-- gateway; the ledger books it; the settlement service pays out what is due; the fraud service
-- scores it; the dashboard refunds it; the vault keeps the cards. The services share a PostgreSQL
-- database, a Redis and the Kafka topics "payment_events" and "webhook_events".
--
-- How the parts interact: services/gateway stores a payment and publishes its event on
-- "payment_events". services/ledger and services/fraud consume that event. The poll of
-- services/settlements publishes an event for each merchant and currency on the same topic, and
-- the consumer of services/settlements settles it. services/admin_api changes payments, schedules
-- and the books directly. services/subscriptions bills what is due through the gateway.
-- services/webhook posts what arrives on "webhook_events" to the merchant, and
-- services/data_warehouse archives each payment event in a file of its day. internal/kafka,
-- internal/redis and pkg/uid stand below all of them.
--
-- Files. Prelude holds the shared names: tests on numbers (Prelude/Tests), lists as tables
-- (Prelude/Lists), int64 amounts as integers (Prelude/Int) and their decimal text
-- (Prelude/Decimal).
--   Store      the tables of migrations/*.up.sql as records (Store/Schema), statements with the
--              schema's constraints and their errors (Store/Sql), JSON values (Store/Value),
--              ordered and limited rows (Store/Rows)
--   Runtime    the world that a handler changes (Runtime/World), actions that may fail and pgx
--              transactions with their deferred rollback (Runtime/Act), encoding/json
--              (Runtime/Json), internal/redis (Runtime/Cache), and the Hoare rules by which
--              handlers are proved (Runtime/Triple, Runtime/Transaction, Runtime/Alive,
--              Runtime/Pool), queries of many rows (Runtime/Rows), and what every operation
--              keeps (Runtime/Rest). A module Rest of a service says which tables it leaves
--              alone
--   Books      the double-entry statements that several services share, and balanced books
--              (Books/Balance, Books/Inserts, Books/Accounts)
--   Gateway    services/gateway: requests and answers (Http), service/payment_service.go and
--              handler/payment_handler.go (Payments), service/idempotency_service.go (Keys),
--              middleware/idempotency.go (Middleware), middleware/auth.go (Auth); what creating
--              a payment does (Creation, and Creation/Storing for its transaction), who passes
--              (Bearer), a stored answer (Replay, Retry), requests at the same time (Threads,
--              Interleaving)
--   Ledger     services/ledger/service/ledger_service.go: HandlePaymentEvent is
--              handle_payment_event; what is booked (Booked), its statements (Posting), its
--              deliveries (Delivery)
--   Settlement services/settlements/service/settlement_service.go: HandleSettleEvent is
--              handle_settle_event (Payout, Posting, Delivery, Redelivery),
--              pollAndDispatchSettlements is poll_and_dispatch_settlements (Poll, Dispatch)
--   Admin      services/admin_api: IssueRefund (Refunds, Refunding, and Refunding/Written and
--              Refunding/Writing for its writes; Overlap for two at the same time), the payout schedule and
--              settlePendingPayments (Settings, Pending), the lists (Lists, Reading,
--              LedgerList), the settlements report (Report, Reports), handler/admin_handler.go
--              (Handlers)
--   Webhook    services/webhook/service/webhook_service.go: HandleWebhookEvent is
--              handle_webhook_event; its attempts (Tried, Attempts), when
--              they are made (Timing), a
--              whole delivery (Delivery)
--   Fraud      services/fraud/service/fraud_service.go and its Redis window (Velocity)
--   DataWarehouse
--              services/data_warehouse/service/dw_service.go (Archive)
--   Vault      pkg/crypto/vault_crypto.go (Crypto) and services/vault/service/vault_service.go
--              (Tokens, Sealed), handler/token_handler.go (Handler)
--   Subscriptions
--              services/subscriptions: service/subscription_service.go and its handler
--              (Creation, Periods), worker/billing_worker.go (Billing, Charge, Payee, Outcome),
--              and the calendar of Go's AddDate and of PostgreSQL's intervals (Calendar)
--   Money      pkg/money/money.go
--   Config     internal/config/config.go
--   System     services/*/cmd/main.go: which handler a route, a topic or a ticker leads to, and
--              what holds in every state that the services reach (Balance)
--   Kafka      internal/kafka/consumer.go, the calls of the handler (Calls) and the offsets
--              (Offsets)
--   Samples    a small database on which the tests run
--
-- How code is modelled. A method is a function from the world to a result and the world after it:
-- what was done before an error stays done. A struct is a record, and a table is a list of rows
-- in the order of insertion. Each call of the environment has a number, and `Env` says for each
-- number whether that call fails; the theorems hold for every `Env` unless they say otherwise, so
-- that a fault may strike at any call. This covers a lost connection, a deadline, a serialization
-- failure and a value that its column refuses by its length or range. A handler starts with no
-- transaction open. A statement that fails aborts its transaction, as in PostgreSQL; a commit
-- that fails has changed nothing. The database transaction of one handler runs without another's
-- in between: interleavings are sequences of handler runs, but in Gateway/Interleaving they are
-- sequences of the calls of the idempotency check, and in Admin/Overlap one refund runs between
-- the query and the first write of another, as READ COMMITTED allows. A call of the gateway by
-- the billing worker runs to its end before the worker goes on, or is lost. Times are in UTC.
-- NOW() is the time at which the handler starts, and calls of the database take no time. A
-- goroutine that publishes does so at once, or its message is dropped, which is what its ignored
-- error allows. JSON keys are matched exactly, and logging is left out. New ULIDs, UnixNano,
-- random numbers and the texts of errors from other code are the environment's, and no two of
-- them are taken to differ; so are the answers of merchants' servers and the whole seconds that
-- they take, and the texts of times and of amounts in a report. A line is written to an archive
-- whole or not at all. Rows of a list come one by one, and the connection may break between two
-- of them. HMAC, SHA-256 and the bytes of a text are parameters. AES-GCM is a parameter whose
-- opening undoes its sealing, and the random source gives nonces of its size.
--
-- Bounds and fuel. Amounts are unbounded integers; a sum in SQL beyond 64 bits is an error of its
-- scan. The loop of internal/kafka runs for a number of turns, and its theorems hold for each
-- number. A webhook has the three attempts of the code, and dates count days by division. The
-- decimal text of an amount has 19 digits at most, which an int64 does not exceed.
--
-- Not modelled: Float64 of pkg/money, which is floating point; what the entry points do besides
-- the wiring, internal/database and the opening of connections, which are input and output; the
-- frontend and the deployment.
pub mod Prelude
pub mod Store
pub mod Runtime
pub mod Books
pub mod Ledger
pub mod Settlement
pub mod Gateway
pub mod Kafka
pub mod Vault
pub mod Config
pub mod Fraud
pub mod Admin
pub mod Money
pub mod Subscriptions
pub mod System
pub mod Webhook
pub mod DataWarehouse
pub mod Samples

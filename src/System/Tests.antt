-- ===== src/System/Tests.antt =====
-- A short run of the whole system.
use pay_fast_processor.Prelude.{some, [], ◌∷◌, ◌≡◌, refl}
use pay_fast_processor.Runtime.World.{World, Message, idle}
use pay_fast_processor.Books.Balance.{Balanced, nil-IsBalanced}
use pay_fast_processor.Vault.Crypto.{Gcm}
use pay_fast_processor.System.{
  Externals, ledger_service_group, message_for, poll_ticker, wait, serve, Reachable, at_start,
  after,
}
use pay_fast_processor.System.Balance.{Reachable-Sound}
use pay_fast_processor.Samples.{calm, failing_at, one_created, created_event}

abbrev toy : Gcm
toy = record {
  nonce_size = 1;
  seal = λ key nonce p. p;
  open_sealed = λ key nonce c. some c;
  open_seal = λ key nonce p. refl;
}

abbrev others : Externals
others = record {
  hmac_hex = λ secret payload. "";
  bytes = λ s. [];
  text_of = λ b. "";
  gcm = toy;
  entropy = λ n. some (7 ∷ []);
  sha256_hex = λ b. "digest";
  vault_key = [];
}

abbrev booking : Message
booking = record { key = "py_1"; value = created_event }

-- The event of a payment is delivered twice, the first time with a fault, and then the poll runs.
abbrev delivered : World
delivered = serve others (failing_at 2) (message_for ledger_service_group booking) one_created

abbrev redelivered : World
redelivered = serve others calm (message_for ledger_service_group booking) delivered

abbrev polled : World
polled = serve others calm poll_ticker (serve others calm (wait 60) redelivered)

abbrev path : Reachable others one_created polled
path = after calm poll_ticker _ (
    after calm (wait 60) _ (
      after calm (message_for ledger_service_group booking) _
        (after (failing_at 2) (message_for ledger_service_group booking) _ at_start)))

Reachable-Sound_example : Balanced polled.db × (polled.tx ≡ idle)
Reachable-Sound_example = Reachable-Sound others one_created nil-IsBalanced refl polled path

-- ===== src/Kafka/Offsets.antt =====
-- What becomes of a message whose handler fails.
use pay_fast_processor.Prelude.{ℕ, ◌+◌, false, some, List, ◌≡◌, refl, arith}
use pay_fast_processor.Store.Sql.{ok, err}
use pay_fast_processor.Runtime.Json.{Error}
use pay_fast_processor.Runtime.World.{Env, World, Message}
use pay_fast_processor.Runtime.Act.{Act, next_call}
use pay_fast_processor.Kafka.{
  Consumer, message_at, commit_message, handle_message, consume_one, consume,
}

module _ (env : Env) (handler : Message → Act Unit) (log : List Message) where
  module _ (works : (n : ℕ) → env.fails n ≡ false) where
    turn_failed :
        (c : Consumer) (m : Message) (e : Error) (w : World)
        → message_at c.position log ≡ some m
        → handler m (next_call c.world) ≡ (err e, w)
        → consume_one env handler log c ≡ record c { world = w; position = c.position + 1 }
    unfolding consume_one handle_message
    turn_failed c m e w there failed = rw (works, there, failed) refl

    turn_handled :
        (c : Consumer) (m : Message) (w : World)
        → message_at c.position log ≡ some m
        → handler m (next_call c.world) ≡ (ok tt, w)
        → consume_one env handler log c
          ≡ record { world = next_call w; position = c.position + 1; committed = c.position + 1 }
    unfolding consume_one handle_message commit_message
    turn_handled c m w there handled = rw (works, there, handled, works) refl

    -- A message whose handler returns an error is lost once the next message is handled, where no
    -- fetch and no commit fails: the commit of that one covers both, so that the group never reads
    -- the first again.
    pub failed_message_skipped :
        (c : Consumer) (first second : Message) (e : Error) (w w' : World)
        → message_at c.position log ≡ some first
        → message_at (c.position + 1) log ≡ some second
        → handler first (next_call c.world) ≡ (err e, w)
        → handler second (next_call w) ≡ (ok tt, w')
        → (consume env handler log 2 c).committed ≡ c.position + 2
    unfolding consume
    failed_message_skipped c first second e w w' there there' broken handled =
        rw
          (
            turn_failed c first e w there broken,
            turn_handled (record c { world = w; position = c.position + 1 }) second w' there'
                handled,
          )
          (omega arith)

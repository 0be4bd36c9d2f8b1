-- ===== src/Kafka.antt =====
-- internal/kafka/consumer.go: the loop that reads one partition of a topic for a consumer group. As
-- kafka-go documents, FetchMessage returns the partition's messages one after the other, and
-- CommitMessages stores the offset from which the group goes on after a restart.
pub mod Calls
pub mod Offsets
mod Tests
use pay_fast_processor.Prelude.{ℕ, zero, suc, ◌+◌, Option, none, some, List, [], ◌∷◌, if◌then◌else◌}
use pay_fast_processor.Store.Sql.{Result, ok, err}
use pay_fast_processor.Runtime.Json.{Error}
use pay_fast_processor.Runtime.World.{Env, World, Message}
use pay_fast_processor.Runtime.Act.{Act, next_call}

-- The handler's world, the offset of the next message, and the committed offset.
pub record Consumer : Type 0 where
  pub world : World
  pub position : ℕ
  pub committed : ℕ

abbrev pub message_at : ℕ → List Message → Option Message
message_at n [] = none
message_at zero (m ∷ log) = some m
message_at (suc n) (m ∷ log) = message_at n log

module _ (env : Env) (handler : Message → Act Unit) (log : List Message) where
  -- `CommitMessages(ctx, msg)`, whose error is only logged.
  unfoldable pub commit_message : Consumer → Consumer
  commit_message c =
      if env.fails c.world.tick
      then record c { world = next_call c.world }
      else record c { world = next_call c.world; committed = c.position }

  abbrev pub after_handler : Result Error Unit → Consumer → Consumer
  after_handler (ok _) c = commit_message c
  after_handler (err e) c = c

  unfoldable pub handle_message : Message → Consumer → Consumer
  handle_message m c =
      let (result, w) = handler m c.world in
      after_handler result (record c { world = w; position = c.position + 1 })

  abbrev pub fetched : Option Message → Consumer → Consumer
  fetched none c = c
  fetched (some m) c = handle_message m c

  -- One turn of the loop. A fetch that fails is logged; without a new message it waits.
  unfoldable pub consume_one : Consumer → Consumer
  consume_one c =
      let next = record c { world = next_call c.world } in
      if env.fails c.world.tick then next else fetched (message_at c.position log) next

  -- So many turns of `Consume`, until its context ends.
  unfoldable pub consume : ℕ → Consumer → Consumer
  consume zero c = c
  consume (suc n) c = consume n (consume_one c)

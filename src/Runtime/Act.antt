-- ===== src/Runtime/Act.antt =====
-- Actions: Go code that changes the world and may return an error. What was done before an error
-- stays done.
use pay_fast_processor.Prelude.{◌+◌, String, Bool, some, [], ◌∷◌, ◌++◌, concat, if◌then◌else◌}
use pay_fast_processor.Store.Schema.{Db}
use pay_fast_processor.Store.Sql.{
  SqlError, unavailable, tx_aborted, tx_closed, Result, ok, err, Stmt, Query,
}
use pay_fast_processor.Runtime.Json.{Json, Error, message, sql, broker, wrap}
use pay_fast_processor.Runtime.World.{Env, Tx, idle, open_at, aborted_at, World}

abbrev pub Act : Type 0 → Type 0
Act A = World → Result Error A × World

module _ {A : Type 0} where
  abbrev pub pure : A → Act A
  pure a w = (ok a, w)

  abbrev pub raise : Error → Act A
  raise e w = (err e, w)

  abbrev pub lift : Result Error A → Act A
  lift r w = (r, w)

  abbrev pub wrap_error : String → Result Error A → Result Error A
  wrap_error s (ok a) = ok a
  wrap_error s (err e) = err (wrap s e)

  -- `if err != nil { return fmt.Errorf("s: %w", err) }`
  unfoldable pub wrapping : String → Act A → Act A
  wrapping s m w = let (r, w') = m w in (wrap_error s r, w')

  abbrev pub replace_error : String → Result Error A → Result Error A
  replace_error s (ok a) = ok a
  replace_error s (err e) = err (message s)

  -- `if err != nil { return fmt.Errorf("s") }`
  unfoldable pub replacing : String → Act A → Act A
  replacing s m w = let (r, w') = m w in (replace_error s r, w')

  -- `err` kept in a variable and tested later.
  unfoldable pub attempt : Act A → Act (Result Error A)
  attempt m w = let (r, w') = m w in (ok r, w')

  abbrev pub gets : (World → A) → Act A
  gets f w = (ok (f w), w)

module _ {A B : Type 0} where
  abbrev pub continue : Result Error A → (A → Act B) → Act B
  continue (ok a) f w = f a w
  continue (err e) f w = (err e, w)

  infixl 5 ◌>>=◌ ◌>>◌
  unfoldable pub ◌>>=◌ : Act A → (A → Act B) → Act B
  ◌>>=◌ m f w = let (r, w') = m w in continue r f w'

  abbrev pub ◌>>◌ : Act A → Act B → Act B
  m >> k = m >>= λ _. k

-- What a rollback leaves: the database at `Begin`.
abbrev pub rolled_back : Tx → Db → Db
rolled_back idle d = d
rolled_back (open_at s) d = s
rolled_back (aborted_at s) d = s

abbrev pub rollback : World → World
rollback w = record w { db = rolled_back w.tx w.db; tx = idle }

-- `defer tx.Rollback(ctx)`: no effect after a commit.
unfoldable pub rolling_back : {A : Type 0} → Act A → Act A
rolling_back m w = let (r, w') = m w in (r, rollback w')

-- A call of the environment: the next one has the next number.
abbrev pub next_call : World → World
next_call w = record w { tick = w.tick + 1 }

abbrev pub abort : Tx → Tx
abort idle = idle
abort (open_at s) = aborted_at s
abort (aborted_at s) = aborted_at s

-- What the pool's other connections see: not the changes of an open transaction.
abbrev pub committed : World → Db
committed w = rolled_back w.tx w.db

module _ {A : Type 0} where
  abbrev pub pool_result : World → Result SqlError (A × Db) → Result Error A × World
  pool_result w (ok (a, d)) = (ok a, record w { db = d })
  pool_result w (err e) = (err (sql e), w)

  abbrev pub tx_result : World → Result SqlError (A × Db) → Result Error A × World
  tx_result w (ok (a, d)) = (ok a, record w { db = d })
  tx_result w (err e) = (err (sql e), record w { tx = abort w.tx })

  -- The error of a statement as the error of the call.
  abbrev pub as_error : Result SqlError A → Result Error A
  as_error (ok a) = ok a
  as_error (err e) = err (sql e)

  abbrev pub read_result : World → Result SqlError A → Result Error A × World
  read_result w (ok a) = (ok a, w)
  read_result w (err e) = (err (sql e), w)

  abbrev pub in_tx : Bool → Tx → World → (World → Result Error A × World) → Result Error A × World
  in_tx fails idle w k = (err (sql tx_closed), w)
  in_tx fails (aborted_at s) w k = (err (sql tx_aborted), w)
  in_tx fails (open_at s) w k =
      if fails then (err (sql unavailable), record w { tx = aborted_at s }) else k w

module _ (env : Env) where
  module _ {A : Type 0} where
    -- `Pool.QueryRow(…).Scan(…)`.
    unfoldable pub pool_query : Query A → Act A
    pool_query q w =
        if env.fails w.tick
        then (err (sql unavailable), next_call w)
        else read_result (next_call w) (q (committed w))

    -- `Pool.Exec`, where the handler has no transaction open.
    unfoldable pub pool_exec : Stmt A → Act A
    pool_exec s w =
        if env.fails w.tick
        then (err (sql unavailable), next_call w)
        else pool_result (next_call w) (s w.db)

    -- `tx.QueryRow(…).Scan(…)`: an empty result is an error of `Scan` and no failed statement.
    unfoldable pub tx_query : Query A → Act A
    tx_query q w = in_tx (env.fails w.tick) w.tx (next_call w) (λ v. read_result v (q v.db))

    -- `tx.Exec`.
    unfoldable pub tx_exec : Stmt A → Act A
    tx_exec s w = in_tx (env.fails w.tick) w.tx (next_call w) (λ v. tx_result v (s v.db))

  -- `Pool.Begin`.
  unfoldable pub begin : Act Unit
  begin w =
      if env.fails w.tick
      then (err (sql unavailable), next_call w)
      else (ok tt, record w { tx = open_at w.db; tick = w.tick + 1 })

  -- `tx.Commit`: a commit that fails has changed nothing.
  unfoldable pub commit : Act Unit
  commit w = in_tx (env.fails w.tick) w.tx (next_call w) (λ v. (ok tt, record v { tx = idle }))

  -- `uid.Generate(prefix)`.
  unfoldable pub generate : String → Act String
  generate prefix w = (ok (concat prefix (env.ulid w.tick)), next_call w)

  -- `fmt.Sprintf("%d", time.Now().UnixNano())`.
  unfoldable pub nano_text : Act String
  nano_text w = (ok (env.unix_nano w.tick), next_call w)

  -- `Producer.Publish` of a producer for the topic "payment_events".
  unfoldable pub publish_payment_event : String → Json → Act Unit
  publish_payment_event k v w = if env.fails w.tick then (err broker, next_call w) else (
    ok tt,
    record w {
      payment_events = w.payment_events ++ record { key = k; value = some v } ∷ [];
      tick = w.tick + 1;
    },
  )

  -- `Producer.Publish` of a producer for the topic "webhook_events".
  unfoldable pub publish_webhook_event : String → Json → Act Unit
  publish_webhook_event k v w = if env.fails w.tick then (err broker, next_call w) else (
    ok tt,
    record w {
      webhook_events = w.webhook_events ++ record { key = k; value = some v } ∷ [];
      tick = w.tick + 1;
    },
  )

-- `go func() { … }()` around a call whose error is only logged.
unfoldable pub in_background : Act Unit → Act Unit
in_background m w = let (r, w') = m w in (ok tt, w')

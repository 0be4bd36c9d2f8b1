-- ===== src/Runtime/Alive.antt =====
-- What a statement or a query that succeeds in a transaction shows: the transaction is alive.
use pay_fast_processor.Prelude.{◌≡◌, refl}
use pay_fast_processor.Store.Schema.{Db}
use pay_fast_processor.Store.Sql.{Result, ok, err, SqlError, Stmt, Query}
use pay_fast_processor.Runtime.World.{Env, open_at, World}
use pay_fast_processor.Runtime.Act.{tx_query, tx_exec, next_call, tx_result, read_result}
use pay_fast_processor.Runtime.Triple.{Post, Triple}
use pay_fast_processor.Runtime.Transaction.{
  InTx, Any, Leads, Reads, InTx-next_call, in_tx_lem, tx_result_lem, read_result_lem,
}

module _ {A : Type 0} (w0 : World) (R : Db → Type 0) (R' : A → Db → Type 0) where
  -- The database is in `R'`, and not only where no statement has failed.
  abbrev Alive : A → World → Type 0
  Alive a w = InTx w0 (R' a) w × R' a w.db

  exec-Alive :
      (v : World)
      → InTx w0 R v
      → v.tx ≡ open_at w0.db
      → (r : Result SqlError (A × Db)) → Leads R' r
      → Post Alive (InTx w0 Any) (tx_result v r).0 (tx_result v r).1
  exec-Alive v h e (ok (a, d)) l = (tx_result_lem w0 R R' v h e (ok (a, d)) l, l)
  exec-Alive v h e (err x) l = tx_result_lem w0 R R' v h e (err x) l

  query-Alive :
      (v : World)
      → InTx w0 R v
      → v.tx ≡ open_at w0.db
      → (r : Result SqlError A) → Reads (λ a. R' a v.db) r
      → Post Alive (InTx w0 Any) (read_result v r).0 (read_result v r).1
  query-Alive v h e (ok a) l = (read_result_lem w0 R R' v h e (ok a) l, l)
  query-Alive v h e (err x) l = read_result_lem w0 R R' v h e (err x) l

module _ (env : Env) (w0 : World) {A : Type 0} (R : Db → Type 0) (R' : A → Db → Type 0) where
  pub Triple-tx_exec_alive :
      (s : Stmt A)
      → ((d : Db) → R d → Leads R' (s d))
      → Triple (InTx w0 R) (tx_exec env s) (λ a w. InTx w0 (R' a) w × R' a w.db) (InTx w0 Any)
  unfolding tx_exec
  Triple-tx_exec_alive s k = record {
    run = λ w h.
        let v = next_call w in
        let h' = InTx-next_call w0 R w h in
        in_tx_lem w0 R (Alive w0 R R') (env.fails w.tick) w.tx v _ refl h'
          λ alive holds. exec-Alive w0 R R' v h' alive (s w.db) (k w.db holds);
  }

  pub Triple-tx_query_alive :
      (q : Query A)
      → ((d : Db) → R d → Reads (λ a. R' a d) (q d))
      → Triple (InTx w0 R) (tx_query env q) (λ a w. InTx w0 (R' a) w × R' a w.db) (InTx w0 Any)
  unfolding tx_query
  Triple-tx_query_alive q k = record {
    run = λ w h.
        let v = next_call w in
        let h' = InTx-next_call w0 R w h in
        in_tx_lem w0 R (Alive w0 R R') (env.fails w.tick) w.tx v _ refl h'
          λ alive holds. query-Alive w0 R R' v h' alive (q w.db) (k w.db holds);
  }

-- ===== src/Runtime/Pool.antt =====
-- Rules for statements on the connection pool: beside an open transaction, and after its commit.
use pay_fast_processor.Prelude.{◌≡◌, refl, some, inl, inr, Bool-cases}
use pay_fast_processor.Store.Schema.{Db}
use pay_fast_processor.Store.Sql.{Result, ok, err, SqlError, Stmt, Query}
use pay_fast_processor.Runtime.World.{Env, Tx, idle, open_at, aborted_at, snapshot, World}
use pay_fast_processor.Runtime.Act.{
  pool_query, pool_exec, rolled_back, committed, read_result, next_call, pool_result,
}
use pay_fast_processor.Runtime.Triple.{Post, Triple}
use pay_fast_processor.Runtime.Transaction.{InTx, Committed, Any, InTx-Any, InTx-next_call, Leads}

module _ (env : Env) (w0 : World) where
  committed-InTx : (R : Db → Type 0) (w : World) → InTx w0 R w → committed w ≡ w0.db
  committed-InTx R w h = back w.tx h.began
    where
      back : (t : Tx) → snapshot t ≡ some w0.db → rolled_back t w.db ≡ w0.db
      back idle e = cc e
      back (open_at s) e = cc e
      back (aborted_at s) e = cc e

  module _ {A : Type 0} (R : Db → Type 0) (q : Query A) where
    read_lem :
        (w : World) (r : Result SqlError A)
        → q w0.db ≡ r
        → InTx w0 R w
        → Post
            (λ a. InTx w0 (λ d. R d × (q w0.db ≡ ok a)))
            (InTx w0 Any)
            (read_result w r).0
            (read_result w r).1
    read_lem w (ok a) e h = record {
      began = h.began;
      live = λ alive. (h.live alive, e);
      outside = h.outside;
    }
    read_lem w (err x) e h = InTx-Any w0 R w h

    -- The pool's other connections do not see the open transaction.
    pub Triple-pool_query :
        Triple
          (InTx w0 R)
          (pool_query env q)
          (λ a. InTx w0 (λ d. R d × (q w0.db ≡ ok a)))
          (InTx w0 Any)
    unfolding pool_query
    Triple-pool_query = record {
      run = λ w h. elim (Bool-cases (env.fails w.tick)) [
        | inl broken ↦ rw broken (InTx-Any w0 R (next_call w) (InTx-next_call w0 R w h))
        | inr works ↦
            rw (works, committed-InTx R w h)
              (read_lem (next_call w) (q w0.db) refl (InTx-next_call w0 R w h))
      ];
    }

  module _ {A : Type 0} (R : Db → Type 0) (R' : A → Db → Type 0) (s : Stmt A) where
    exec_lem :
        (w : World) (r : Result SqlError (A × Db))
        → Committed w0 R w
        → Leads R' r
        → Post (λ a. Committed w0 (R' a)) (Committed w0 R) (pool_result w r).0 (pool_result w r).1
    exec_lem w (ok (a, d)) h l = record { tx = h.tx; holds = l; outside = h.outside }
    exec_lem w (err x) h l = h

    pub Triple-pool_exec :
        ((d : Db) → R d → Leads R' (s d))
        → Triple (Committed w0 R) (pool_exec env s) (λ a. Committed w0 (R' a)) (Committed w0 R)
    unfolding pool_exec
    Triple-pool_exec k = record {
      run = λ w h. elim (Bool-cases (env.fails w.tick)) [
        | inl broken ↦ rw broken (record { tx = h.tx; holds = h.holds; outside = h.outside })
        | inr works ↦ rw works (
            exec_lem (next_call w) (s w.db)
              (record { tx = h.tx; holds = h.holds; outside = h.outside }) (k w.db h.holds))
      ];
    }

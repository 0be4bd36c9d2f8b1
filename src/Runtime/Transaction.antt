-- ===== src/Runtime/Transaction.antt =====
-- Rules for a handler's database transaction. Until the commit the world outside the database is
-- as it was, and a rollback leads back to the database at `begin`.
pub mod Rollback
use pay_fast_processor.Prelude.{
  ◌≡◌, refl, sym, ap, String, Bool, true, false, some, inl, inr, Bool-cases,
}
use pay_fast_processor.Store.Schema.{Db}
use pay_fast_processor.Store.Sql.{Result, ok, err, SqlError, Stmt, Query}
use pay_fast_processor.Runtime.Json.{Error}
use pay_fast_processor.Runtime.World.{Env, Tx, idle, open_at, aborted_at, snapshot, World}
use pay_fast_processor.Runtime.Act.{
  Act, attempt, tx_query, tx_exec, begin, commit, generate, nano_text, rolled_back, rolling_back,
  rollback, gets, as_error, in_tx, next_call, tx_result, read_result,
}
use pay_fast_processor.Runtime.Triple.{Post, Triple}

-- The parts that no statement touches.
abbrev pub SameOutside : World → World → Type 0
SameOutside w0 w =
    (w.cache ≡ w0.cache)
    × (w.payment_events ≡ w0.payment_events)
    × (w.webhook_events ≡ w0.webhook_events)
    × (w.now ≡ w0.now)
    × (w.posts ≡ w0.posts)
    × (w.archives ≡ w0.archives)

-- No effect but calls of the environment.
pub record Unchanged (w0 w : World) : Type 0 where
  pub db : w.db ≡ w0.db
  pub tx : w.tx ≡ idle
  pub outside : SameOutside w0 w

-- Inside the transaction that began at `w0`: if no statement has failed, the database is in `R`.
pub record InTx (w0 : World) (R : Db → Type 0) (w : World) : Type 0 where
  pub began : snapshot w.tx ≡ some w0.db
  pub live : w.tx ≡ open_at w0.db → R w.db
  pub outside : SameOutside w0 w

-- After the commit.
pub record Committed (w0 : World) (R : Db → Type 0) (w : World) : Type 0 where
  pub tx : w.tx ≡ idle
  pub holds : R w.db
  pub outside : SameOutside w0 w

abbrev pub Any : Db → Type 0
Any d = Unit

-- What a statement leads to, where it succeeds.
abbrev pub Leads : {A : Type 0} → (A → Db → Type 0) → Result SqlError (A × Db) → Type 0
Leads R (ok (a, d)) = R a d
Leads R (err e) = Unit

abbrev pub Reads : {A : Type 0} → (A → Type 0) → Result SqlError A → Type 0
Reads R (ok a) = R a
Reads R (err e) = Unit

pub Unchanged-refl : (w : World) → w.tx ≡ idle → Unchanged w w
Unchanged-refl w at_rest = record {
  db = refl;
  tx = at_rest;
  outside = (refl, refl, refl, refl, refl, refl);
}

module _ (w0 : World) where
  pub InTx-Any : (R : Db → Type 0) (w : World) → InTx w0 R w → InTx w0 Any w
  InTx-Any R w h = record { began = h.began; live = λ _. tt; outside = h.outside }

  -- A statement, a query or a commit: what it does where the transaction is alive decides.
  pub in_tx_lem :
      {A : Type 0} (R : Db → Type 0) (Q : A → World → Type 0) (fails : Bool) (t : Tx) (v : World)
      (k : World → Result Error A × World)
      → v.tx ≡ t
      → InTx w0 R v
      → (v.tx ≡ open_at w0.db → R v.db → Post Q (InTx w0 Any) (k v).0 (k v).1)
      → Post Q (InTx w0 Any) (in_tx fails t v k).0 (in_tx fails t v k).1
  in_tx_lem R Q fails idle v k e h step = InTx-Any R v h
  in_tx_lem R Q fails (aborted_at s) v k e h step = InTx-Any R v h
  in_tx_lem R Q true (open_at s) v k e h step = record {
    began = cc (h.began, ap snapshot e);
    live = λ _. tt;
    outside = h.outside;
  }
  in_tx_lem R Q false (open_at s) v k e h step =
      let same : v.tx ≡ open_at w0.db = cc (h.began, ap snapshot e) in step same (h.live same)

  module _ (R : Db → Type 0) where
    pub InTx-next_call : (w : World) → InTx w0 R w → InTx w0 R (next_call w)
    InTx-next_call w h = record { began = h.began; live = h.live; outside = h.outside }

    pub tx_result_lem :
        {A : Type 0} (R' : A → Db → Type 0) (v : World)
        → InTx w0 R v
        → v.tx ≡ open_at w0.db
        → (r : Result SqlError (A × Db)) → Leads R' r
        → Post (λ a. InTx w0 (R' a)) (InTx w0 Any) (tx_result v r).0 (tx_result v r).1
    tx_result_lem R' v h e (ok (a, d)) l = record {
      began = h.began;
      live = λ _. l;
      outside = h.outside;
    }
    tx_result_lem R' v h e (err x) l = record { began = rw e; live = λ _. tt; outside = h.outside }

    pub read_result_lem :
        {A : Type 0} (R' : A → Db → Type 0) (v : World)
        → InTx w0 R v
        → v.tx ≡ open_at w0.db
        → (r : Result SqlError A) → Reads (λ a. R' a v.db) r
        → Post (λ a. InTx w0 (R' a)) (InTx w0 Any) (read_result v r).0 (read_result v r).1
    read_result_lem R' v h e (ok a) l = record {
      began = h.began;
      live = λ _. l;
      outside = h.outside;
    }
    read_result_lem R' v h e (err x) l = InTx-Any R v h

  -- A tested error: the transaction is dead, or the query ran and this is its result.
  attempt_lem :
      {A : Type 0} (R : Db → Type 0) (R' : Result Error A → Db → Type 0) (fails : Bool) (t : Tx)
      (v : World) (q : Query A)
      → v.tx ≡ t
      → InTx w0 R v
      → (R v.db → R' (as_error (q v.db)) v.db)
      → let r = in_tx fails t v (λ u. read_result u (q u.db)) in InTx w0 (R' r.0) r.1
  attempt_lem R R' fails idle v q e h k = record {
    began = h.began;
    live = λ alive. cc (alive, e);
    outside = h.outside;
  }
  attempt_lem R R' fails (aborted_at s) v q e h k = record {
    began = h.began;
    live = λ alive. cc (alive, e);
    outside = h.outside;
  }
  attempt_lem R R' true (open_at s) v q e h k = record {
    began = cc (h.began, ap snapshot e);
    live = λ alive. cc alive;
    outside = h.outside;
  }
  attempt_lem R R' false (open_at s) v q e h k = tested (q v.db) k
    where
      tested :
          (r : Result SqlError _)
          → (R v.db → R' (as_error r) v.db)
          → InTx w0 (R' (read_result v r).0) (read_result v r).1
      tested (ok a) k' = record {
        began = h.began;
        live = λ alive. k' (h.live alive);
        outside = h.outside;
      }
      tested (err x) k' = record {
        began = h.began;
        live = λ alive. k' (h.live alive);
        outside = h.outside;
      }

module _ (env : Env) (w0 : World) where
  pub Triple-begin :
      w0.tx ≡ idle → Triple (λ w. w ≡ w0) (begin env) (λ _. InTx w0 (λ d. d ≡ w0.db)) (Unchanged w0)
  unfolding begin
  Triple-begin h = record {
    run = λ w e. rw e (elim (Bool-cases (env.fails w0.tick)) [
      | inl f ↦ rw f (record { db = refl; tx = h; outside = (refl, refl, refl, refl, refl, refl) })
      | inr f ↦ rw f (record {
        began = refl;
        live = λ _. refl;
        outside = (refl, refl, refl, refl, refl, refl);
      })
    ]);
  }

  pub Triple-commit :
      (R : Db → Type 0) → Triple (InTx w0 R) (commit env) (λ _. Committed w0 R) (InTx w0 Any)
  unfolding commit
  Triple-commit R = record {
    run = λ w h.
        in_tx_lem w0 R (λ _. Committed w0 R) (env.fails w.tick) w.tx (next_call w) _ refl
          (InTx-next_call w0 R w h)
          λ _ holds. record { tx = refl; holds = holds; outside = h.outside };
  }

  pub Triple-tx_exec :
      {A : Type 0} (R : Db → Type 0) (R' : A → Db → Type 0) (s : Stmt A)
      → ((d : Db) → R d → Leads R' (s d))
      → Triple (InTx w0 R) (tx_exec env s) (λ a. InTx w0 (R' a)) (InTx w0 Any)
  unfolding tx_exec
  Triple-tx_exec R R' s k = record {
    run = λ w h.
        in_tx_lem w0 R (λ a. InTx w0 (R' a)) (env.fails w.tick) w.tx (next_call w) _ refl
          (InTx-next_call w0 R w h)
          λ alive holds.
            tx_result_lem w0 R R' (next_call w) (InTx-next_call w0 R w h) alive (s w.db)
              (k w.db holds);
  }

  pub Triple-tx_query :
      {A : Type 0} (R : Db → Type 0) (R' : A → Db → Type 0) (q : Query A)
      → ((d : Db) → R d → Reads (λ a. R' a d) (q d))
      → Triple (InTx w0 R) (tx_query env q) (λ a. InTx w0 (R' a)) (InTx w0 Any)
  unfolding tx_query
  Triple-tx_query R R' q k = record {
    run = λ w h.
        in_tx_lem w0 R (λ a. InTx w0 (R' a)) (env.fails w.tick) w.tx (next_call w) _ refl
          (InTx-next_call w0 R w h)
          λ alive holds.
            read_result_lem w0 R R' (next_call w) (InTx-next_call w0 R w h) alive (q w.db)
              (k w.db holds);
  }

  pub Triple-attempt :
      {A : Type 0} (R : Db → Type 0) (R' : Result Error A → Db → Type 0) (q : Query A)
      → ((d : Db) → R d → R' (as_error (q d)) d)
      → Triple (InTx w0 R) (attempt (tx_query env q)) (λ r. InTx w0 (R' r)) (InTx w0 Any)
  unfolding attempt tx_query
  Triple-attempt R R' q k = record {
    run = λ w h.
        attempt_lem w0 R R' (env.fails w.tick) w.tx (next_call w) q refl (InTx-next_call w0 R w h)
          (k w.db);
  }

  pub Triple-generate :
      (R : Db → Type 0) (prefix : String)
      → Triple (InTx w0 R) (generate env prefix) (λ _. InTx w0 R) (InTx w0 Any)
  unfolding generate
  Triple-generate R prefix = record { run = InTx-next_call w0 R }

  pub Triple-nano_text :
      (R : Db → Type 0) → Triple (InTx w0 R) (nano_text env) (λ _. InTx w0 R) (InTx w0 Any)
  unfolding nano_text
  Triple-nano_text R = record { run = InTx-next_call w0 R }

  pub Triple-now :
      (R : Db → Type 0)
      → Triple
          (InTx w0 R)
          (gets (λ w. w.now))
          (λ n. InTx w0 (λ d. R d × (n ≡ w0.now)))
          (InTx w0 Any)
  Triple-now R = record {
    run = λ w h. record {
      began = h.began;
      live = λ alive. (h.live alive, h.outside.3);
      outside = h.outside;
    };
  }

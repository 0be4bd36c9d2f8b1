-- ===== src/Runtime/Rows.antt =====
-- Queries on the connection pool: the loop over many rows, and the two outcomes of a query.
use pay_fast_processor.Prelude.{
  List, ◌≡◌, ◌⊎◌, refl, inl, inr, Bool-cases, take, if◌then◌else◌, true,
}
use pay_fast_processor.Store.Schema.{Db}
use pay_fast_processor.Store.Sql.{unavailable, Result, ok, err, Query, SqlError}
use pay_fast_processor.Runtime.Json.{sql}
use pay_fast_processor.Runtime.World.{Env, World, idle}
use pay_fast_processor.Runtime.Act.{Act, committed, next_call, pool_query, read_result, as_error}

module _ (env : Env) where
  -- What `rows.Next()` yields. Where the connection breaks it yields no more, and nobody asks `rows.Err()`.
  abbrev pub yielded : {A : Type 0} → World → List A → List A
  yielded w rows = if env.fails w.tick then take (env.random w.tick) rows else rows

  -- `Pool.Query(…)`, and the rows up to the end of the loop.
  unfoldable pub pool_rows : {A : Type 0} → (Db → List A) → Act (List A)
  pool_rows q w =
      if env.fails w.tick
      then (err (sql unavailable), next_call w)
      else (ok (yielded (next_call w) (q (committed w))), next_call (next_call w))

module _ (env : Env) {A : Type 0} (q : Db → List A) where
  pub pool_rows_cases :
      (w : World)
      → w.tx ≡ idle
      → ((env.fails w.tick ≡ true) × (pool_rows env q w ≡ (err (sql unavailable), next_call w)))
        ⊎ (pool_rows env q w ≡ (ok (yielded env (next_call w) (q w.db)), next_call (next_call w)))
  unfolding pool_rows
  pool_rows_cases w closed = elim (Bool-cases (env.fails w.tick)) [
    | inl broken ↦ rw broken (inl (refl, refl))
    | inr works ↦ rw (works, closed) (inr refl)
  ]

module _ (env : Env) {A : Type 0} (q : Query A) where
  pub pool_query_cases :
      (w : World)
      → w.tx ≡ idle
      → ((env.fails w.tick ≡ true) × (pool_query env q w ≡ (err (sql unavailable), next_call w)))
        ⊎ (pool_query env q w ≡ (as_error (q w.db), next_call w))
  unfolding pool_query
  pool_query_cases w closed = elim (Bool-cases (env.fails w.tick)) [
    | inl broken ↦ rw broken (inl (refl, refl))
    | inr works ↦ rw (works, closed) (inr (found _ (q w.db)))
  ]
    where
      found : (v : World) (r : Result SqlError A) → read_result v r ≡ (as_error r, v)
      found v (ok a) = refl
      found v (err e) = refl

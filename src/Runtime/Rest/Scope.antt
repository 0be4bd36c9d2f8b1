-- ===== src/Runtime/Rest/Scope.antt =====
-- From `begin` to the rollback: what holds inside a transaction, and after it.
use pay_fast_processor.Prelude.{
  String, ◌+◌, Bool, true, false, some, ◌≡◌, refl, ap, ◌∙◌, subst, inl, inr, Bool-cases,
}
use pay_fast_processor.Store.Schema.{Db}
use pay_fast_processor.Store.Sql.{Result, ok, err, SqlError, Stmt, Query}
use pay_fast_processor.Runtime.Json.{Error}
use pay_fast_processor.Runtime.World.{Env, Tx, idle, open_at, aborted_at, snapshot, World}
use pay_fast_processor.Runtime.Transaction.{Leads}
use pay_fast_processor.Runtime.Act.{
  ◌>>=◌, wrapping, Act, rolled_back, rolling_back, rollback, next_call, abort, in_tx, tx_result,
  read_result, tx_query, tx_exec, begin, commit,
}
use pay_fast_processor.Runtime.Rest.{Kept, AtRest, Moves, Keeping}

-- A call in a transaction: what holds after each of its outcomes.
in_tx_cases :
    {A : Type 0} (W : World → Type 0) (fails : Bool) (t : Tx) (v : World)
    (k : World → Result Error A × World)
    → W v
    → ((d : Db) → t ≡ open_at d → W (record v { tx = aborted_at d }))
    → W (k v).1
    → W (in_tx fails t v k).1
in_tx_cases W fails idle v k same broken done_ = same
in_tx_cases W fails (aborted_at d) v k same broken done_ = same
in_tx_cases W true (open_at d) v k same broken done_ = broken d refl
in_tx_cases W false (open_at d) v k same broken done_ = done_

module _ (P Q : Db → Type 0) (weaker : (d : Db) → P d → Q d) where
  pub Kept-weaker : (w : World) → Kept P w → Kept Q w
  Kept-weaker w h = record { now = weaker w.db h.now; back = λ d e. weaker d (h.back d e) }

  snapshot-abort : (t : Tx) (d : Db) → snapshot (abort t) ≡ some d → snapshot t ≡ some d
  snapshot-abort idle d e = e
  snapshot-abort (open_at s) d e = e
  snapshot-abort (aborted_at s) d e = e

  aborted_lem :
      (w : World) (d : Db) → Kept P w → w.tx ≡ open_at d → Kept Q (record w { tx = aborted_at d })
  aborted_lem w d h e = record {
    now = weaker w.db h.now;
    back = λ x back. weaker x (h.back x (ap snapshot e ∙ back));
  }

  module _ (env : Env) {A : Type 0} where
    exec_lem :
        (v : World) (r : Result SqlError (A × Db))
        → Leads (λ _. Q) r
        → Kept P v
        → Kept Q (tx_result v r).1
    exec_lem v (ok (a, d)) l h = record { now = l; back = λ x b. weaker x (h.back x b) }
    exec_lem v (err x) l h = record {
      now = weaker v.db h.now;
      back = λ d b. weaker d (h.back d (snapshot-abort v.tx d b));
    }

    -- A statement of the transaction that leads from `P` to a weaker `Q`.
    pub tx_exec-Kept :
        (s : Stmt A) → Moves P Q s → (w : World) → Kept P w → Kept Q (tx_exec env s w).1
    unfolding tx_exec
    tx_exec-Kept s moves w h =
        let v = next_call w in
        let h' : Kept P v = record { now = h.now; back = h.back } in
        in_tx_cases (Kept Q) (env.fails w.tick) w.tx v (λ u. tx_result u (s u.db))
          (Kept-weaker v h') (λ d e. aborted_lem v d h' e)
          (exec_lem v (s w.db) (moves w.db h.now) h')

module _ (P : Db → Type 0) where
  pub Keeping-tx_exec :
      (env : Env) {A : Type 0} (s : Stmt A) → Moves P P s → Keeping (Kept P) (tx_exec env s)
  Keeping-tx_exec env s moves = tx_exec-Kept P P (λ d p. p) env s moves

  pub Keeping-commit : (env : Env) → Keeping (Kept P) (commit env)
  unfolding commit
  Keeping-commit env w h =
      in_tx_cases (Kept P) (env.fails w.tick) w.tx (next_call w) _
        (record { now = h.now; back = h.back })
        (λ d e.
          aborted_lem P P (λ x p. p) (next_call w) d (record { now = h.now; back = h.back }) e)
        (record { now = h.now; back = λ d e. cc e })

  module _ {A : Type 0} where
    read_lem : (v : World) (r : Result SqlError A) → Kept P v → Kept P (read_result v r).1
    read_lem v (ok a) h = h
    read_lem v (err e) h = h

    pub Keeping-tx_query : (env : Env) (q : Query A) → Keeping (Kept P) (tx_query env q)
    unfolding tx_query
    Keeping-tx_query env q w h =
        let same : Kept P (next_call w) = record { now = h.now; back = h.back } in
        in_tx_cases (Kept P) (env.fails w.tick) w.tx (next_call w) _ same
          (λ d e. aborted_lem P P (λ x p. p) (next_call w) d same e)
          (read_lem (next_call w) (q w.db) same)

  rollback-AtRest : (v : World) → Kept P v → AtRest P (rollback v)
  rollback-AtRest v h = record { holds = back_lem v.tx refl; closed = refl }
    where
      back_lem : (t : Tx) → v.tx ≡ t → P (rolled_back t v.db)
      back_lem idle e = h.now
      back_lem (open_at d) e = h.back d (ap snapshot e)
      back_lem (aborted_at d) e = h.back d (ap snapshot e)

  -- What a rollback at the end of an operation leaves.
  pub rolling_back-AtRest :
      {A : Type 0} (m : Act A) (w : World) → Kept P (m w).1 → AtRest P (rolling_back m w).1
  unfolding rolling_back
  rolling_back-AtRest m w h = rollback-AtRest (m w).1 h

  -- After `begin`.
  pub opened-Kept :
      (w : World) → AtRest P w → Kept P (record w { tx = open_at w.db; tick = w.tick + 1 })
  opened-Kept w h = record { now = h.holds; back = λ d e. subst P (cc e) h.holds }

  module _ (env : Env) {A : Type 0} (m : Act A) (keeps : Keeping (Kept P) m) where
    begun-AtRest :
        (w : World)
        → AtRest P w
        → AtRest P (rolling_back m (record w { tx = open_at w.db; tick = w.tick + 1 })).1
    begun-AtRest w h = rolling_back-AtRest m _ (keeps _ (opened-Kept w h))

    -- A transaction from its begin, where the error of `begin` ends it.
    pub transaction-AtRest : Keeping (AtRest P) (begin env >>= λ _. rolling_back m)
    unfolding begin ◌>>=◌
    transaction-AtRest w h = elim (Bool-cases (env.fails w.tick)) [
      | inl broken ↦ rw broken (record { holds = h.holds; closed = h.closed })
      | inr works ↦ rw works (begun-AtRest w h)
    ]

    pub transaction_wrapped-AtRest :
        (what : String) → Keeping (AtRest P) (wrapping what (begin env) >>= λ _. rolling_back m)
    unfolding begin ◌>>=◌ wrapping
    transaction_wrapped-AtRest what w h = elim (Bool-cases (env.fails w.tick)) [
      | inl broken ↦ rw broken (record { holds = h.holds; closed = h.closed })
      | inr works ↦ rw works (begun-AtRest w h)
    ]

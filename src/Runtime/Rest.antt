-- ===== src/Runtime/Rest.antt =====
-- Rules for what holds between two operations: no transaction is open, and the database has a
-- property that each of their statements keeps.
pub mod Calls
pub mod Scope
use pay_fast_processor.Prelude.{
  String, Bool, true, false, some, ◌≡◌, refl, ap, ◌∙◌, subst, inl, inr, Bool-cases, if◌then◌else◌,
}
use pay_fast_processor.Store.Schema.{Db}
use pay_fast_processor.Store.Sql.{Result, ok, err, SqlError, Stmt, Query}
use pay_fast_processor.Runtime.Json.{Json, Error}
use pay_fast_processor.Runtime.World.{Env, Tx, idle, open_at, aborted_at, snapshot, World}
use pay_fast_processor.Runtime.Transaction.{Leads}
use pay_fast_processor.Runtime.Act.{
  Act, pure, raise, lift, gets, wrapping, replacing, attempt, continue, ◌>>=◌, ◌>>◌, rolled_back,
  committed, rolling_back, rollback, next_call, abort, in_tx, pool_result, tx_result, read_result,
  pool_query, pool_exec, tx_query, tx_exec, begin, commit, generate, nano_text,
  publish_payment_event, publish_webhook_event, in_background,
}

-- The database has the property, and so has the one that a rollback leads back to.
pub record Kept (P : Db → Type 0) (w : World) : Type 0 where
  pub now : P w.db
  pub back : (d : Db) → snapshot w.tx ≡ some d → P d

-- Between two operations.
pub record AtRest (P : Db → Type 0) (w : World) : Type 0 where
  pub holds : P w.db
  pub closed : w.tx ≡ idle

pub AtRest-Kept : (P : Db → Type 0) (w : World) → AtRest P w → Kept P w
AtRest-Kept P w h = record { now = h.holds; back = λ d e. cc (h.closed, e) }

-- A statement that succeeds leads from `P` to `Q`.
abbrev pub Moves : (P Q : Db → Type 0) {A : Type 0} → Stmt A → Type 0
Moves P Q s = (d : Db) → P d → Leads (λ _. Q) (s d)

module _ (P : World → Type 0) where
  abbrev pub Keeping : {A : Type 0} → Act A → Type 0
  Keeping m = (w : World) → P w → P (m w).1

  module _ {A : Type 0} where
    pub Keeping-wrapping : (what : String) (m : Act A) → Keeping m → Keeping (wrapping what m)
    unfolding wrapping
    Keeping-wrapping what m k w h = k w h

    pub Keeping-replacing : (what : String) (m : Act A) → Keeping m → Keeping (replacing what m)
    unfolding replacing
    Keeping-replacing what m k w h = k w h

    pub Keeping-attempt : (m : Act A) → Keeping m → Keeping (attempt m)
    unfolding attempt
    Keeping-attempt m k w h = k w h

    pub Keeping-if : (b : Bool) (m n : Act A) → Keeping m → Keeping n → Keeping (if b then m else n)
    Keeping-if true m n k l = k
    Keeping-if false m n k l = l

  pub Keeping-in_background : (m : Act Unit) → Keeping m → Keeping (in_background m)
  unfolding in_background
  Keeping-in_background m k w h = k w h

  module _ {A B : Type 0} where
    pub Keeping-bind :
        (m : Act A) (f : A → Act B) → Keeping m → ((a : A) → Keeping (f a)) → Keeping (m >>= f)
    unfolding ◌>>=◌
    Keeping-bind m f k l w h = go (m w).0 (m w).1 (k w h)
      where
        go : (r : Result Error A) (v : World) → P v → P (continue r f v).1
        go (ok a) v h' = l a v h'
        go (err e) v h' = h'

-- An action that keeps `P` and one that then leads to a weaker `Q`.
pub Leading-bind :
    (P Q : World → Type 0)
    → ((w : World) → P w → Q w)
    → {A B : Type 0} (m : Act A) (f : A → Act B) → Keeping P m
    → ((a : A) (w : World) → P w → Q (f a w).1)
    → (w : World) → P w
    → Q ((m >>= f) w).1
unfolding ◌>>=◌
Leading-bind P Q weaker {A} {B} m f k l w h = go (m w).0 (m w).1 (k w h)
  where
    go : (r : Result Error A) (v : World) → P v → Q (continue r f v).1
    go (ok a) v h' = l a v h'
    go (err e) v h' = weaker v h'

-- A predicate on worlds that says of the database that it has a property, and else looks at the
-- transaction only.
pub record Stable (P : Db → Type 0) (W : World → Type 0) : Type 0 where
  pub holds : (w : World) → W w → P w.db
  pub replace : (w v : World) → v.tx ≡ w.tx → P v.db → W w → W v

pub Kept-Stable : (P : Db → Type 0) → Stable P (Kept P)
Kept-Stable P = record {
  holds = λ w h. h.now;
  replace = λ w v same p h. record { now = p; back = λ d e. h.back d (cc (same, e)) };
}

pub AtRest-Stable : (P : Db → Type 0) → Stable P (AtRest P)
AtRest-Stable P = record {
  holds = λ w h. h.holds;
  replace = λ w v same p h. record { holds = p; closed = cc (same, h.closed) };
}

-- ===== src/Runtime/Transaction/Rollback.antt =====
-- The deferred rollback of a transaction.
use pay_fast_processor.Prelude.{◌≡◌, refl, sym, some}
use pay_fast_processor.Store.Schema.{Db}
use pay_fast_processor.Store.Sql.{Result, ok, err}
use pay_fast_processor.Runtime.Json.{Error}
use pay_fast_processor.Runtime.World.{Tx, idle, open_at, aborted_at, snapshot, World}
use pay_fast_processor.Runtime.Act.{Act, rolled_back, rolling_back, rollback}
use pay_fast_processor.Runtime.Triple.{Post, Triple}
use pay_fast_processor.Runtime.Transaction.{Unchanged, InTx}

-- Go's deferred rollback after a body that may have committed.
module _ {A : Type 0} (Q : A → World → Type 0) (E : World → Type 0) where
  Post-rollback :
      (r : Result Error A) (w : World)
      → Post Q E r w
      → Post
          (λ a u. (v : World) × Q a v × (u ≡ rollback v))
          (λ u. (v : World) × E v × (u ≡ rollback v))
          r
          (rollback w)
  Post-rollback (ok a) w h = (w, h, refl)
  Post-rollback (err e) w h = (w, h, refl)

module _ {A : Type 0} {P : World → Type 0} {Q : A → World → Type 0} {E : World → Type 0} where
  pub Triple-rolling_back :
      (m : Act A)
      → Triple P m Q E
      → Triple P
          (rolling_back m)
          (λ a u. (v : World) × Q a v × (u ≡ rollback v))
          (λ u. (v : World) × E v × (u ≡ rollback v))
  unfolding rolling_back
  Triple-rolling_back m t = record {
    run = λ w p. let (r, w') = m w in Post-rollback Q E r w' (t.run w p);
  }

pub rollback-InTx : (w0 v : World) (R : Db → Type 0) → InTx w0 R v → Unchanged w0 (rollback v)
rollback-InTx w0 v R h = record { db = back v.tx h.began; tx = refl; outside = h.outside }
  where
    back : (t : Tx) → snapshot t ≡ some w0.db → rolled_back t v.db ≡ w0.db
    back idle e = cc e
    back (open_at s) e = cc e
    back (aborted_at s) e = cc e

pub rollback-idle : (v : World) → v.tx ≡ idle → rollback v ≡ v
rollback-idle v e = λ i. record v { db = same i; tx = sym e i }
  where
    same : rolled_back v.tx v.db ≡ v.db
    same = rw e

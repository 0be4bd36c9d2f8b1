-- ===== src/Subscriptions/Outcome.antt =====
-- What becomes of a charge of the billing worker that is not recorded.
use pay_fast_processor.Prelude.{◌+◌, String, true, false, some, leb, ◌≡◌, refl}
use pay_fast_processor.Store.Schema.{Subscription}
use pay_fast_processor.Store.Sql.{ok}
use pay_fast_processor.Runtime.World.{Env, World, idle}
use pay_fast_processor.Runtime.Act.{attempt, ◌>>=◌, begin, commit, tx_exec, rolling_back}
use pay_fast_processor.Gateway.Http.{Response}
use pay_fast_processor.Subscriptions.Billing.{conclude}

module _ (env : Env) (invoice_id : String) (s : Subscription) (r : Response) (w : World) where
  -- The gateway has accepted the payment of a due subscription. If then the update of the invoice
  -- fails, the worker goes on as if nothing had happened, no table has changed, and the subscription
  -- is as due as before.
  pub unrecorded_charge :
      w.tx ≡ idle
      → leb 400 r.status ≡ false
      → env.fails w.tick ≡ false
      → env.fails (w.tick + 1) ≡ true
      → ((conclude env invoice_id s (some r) w).0 ≡ ok tt)
        × ((conclude env invoice_id s (some r) w).1.db ≡ w.db)
  unfolding attempt begin commit tx_exec rolling_back ◌>>=◌
  unrecorded_charge closed accepted begins fails_then =
      rw (accepted, begins, fails_then) (refl, refl)

-- ===== src/Gateway/Interleaving/Calls.antt =====
-- What each call of a request keeps.
use pay_fast_processor.Prelude.{ℕ, String, true, ◌≡◌, refl, any, ap, ◌∙◌}
use pay_fast_processor.Store.Schema.{Db}
use pay_fast_processor.Runtime.Json.{Json}
use pay_fast_processor.Runtime.World.{Env, World, idle}
use pay_fast_processor.Runtime.Rest.{AtRest, AtRest-Stable}
use pay_fast_processor.Runtime.Rest.Calls.{
  Keeping-pool_query, Keeping-pool_exec, Keeping-set_nx, Keeping-del,
}
use pay_fast_processor.Books.Inserts.{Leads-constrained}
use pay_fast_processor.Gateway.Http.{Request}
use pay_fast_processor.Gateway.Keys.{
  is_record, insert_record, update_record, create_pending_record, complete_record, acquire_lock,
  release_lock, get_record, pending, record_constraints,
}
use pay_fast_processor.Gateway.Payments.{create_payment}
use pay_fast_processor.Gateway.Retry.{create_payment-SameKeys}
use pay_fast_processor.Gateway.Interleaving.Records.{is_kept, complete_record-is_kept}

module _ (env : Env) (merchant_id key : String) where
  -- No transaction is open, and the record is still there if it was.
  abbrev pub Keeps : World → World → Type 0
  Keeps w w' =
      (w'.tx ≡ idle)
      × (is_kept env merchant_id key w ≡ true → is_kept env merchant_id key w' ≡ true)

  abbrev Same : World → Db → Type 0
  Same w d = d.idempotency_keys ≡ w.db.idempotency_keys

  Keeps-Same : (w w' : World) → AtRest (Same w) w' → Keeps w w'
  Keeps-Same w w' h = (h.closed, λ k. ap (any (is_record merchant_id key)) h.holds ∙ k)

  same : (w : World) → w.tx ≡ idle → AtRest (Same w) w
  same w closed = record { holds = refl; closed = closed }

  pub checking-Keeps : (w : World) → w.tx ≡ idle → Keeps w (get_record env merchant_id key w).1
  unfolding get_record
  checking-Keeps w closed =
      Keeps-Same w _
        (Keeping-pool_query env (Same w) _ (AtRest-Stable (Same w)) _ w (same w closed))

  pub locking-Keeps : (w : World) → w.tx ≡ idle → Keeps w (acquire_lock env merchant_id key w).1
  unfolding acquire_lock
  locking-Keeps w closed =
      Keeps-Same w _ (Keeping-set_nx env (Same w) _ (AtRest-Stable (Same w)) _ _ w (same w closed))

  pub unlocking-Keeps : (w : World) → w.tx ≡ idle → Keeps w (release_lock env merchant_id key w).1
  unfolding release_lock
  unlocking-Keeps w closed =
      Keeps-Same w _ (Keeping-del env (Same w) _ (AtRest-Stable (Same w)) _ w (same w closed))

  pub completing-Keeps :
      (code : ℕ) (body : Json) (w : World)
      → w.tx ≡ idle
      → Keeps w (complete_record env merchant_id key code body w).1
  unfolding complete_record update_record
  completing-Keeps code body w closed = (
    (Keeping-pool_exec env (λ d. Unit) _ (AtRest-Stable (λ d. Unit)) _ (λ d p. tt) w
        (record { holds = tt; closed = closed })).closed,
    λ k. complete_record-is_kept env merchant_id key code body w ∙ k,
  )

  pub creating-idle :
      (path method : String) (w : World)
      → w.tx ≡ idle
      → (create_pending_record env merchant_id key path method w).1.tx ≡ idle
  unfolding create_pending_record insert_record
  creating-idle path method w closed =
      (Keeping-pool_exec env (λ d. Unit) _ (AtRest-Stable (λ d. Unit)) _
        (λ d p.
          Leads-constrained _ (record_constraints (pending merchant_id key path method) d) tt _
            (λ _. tt))
        w (record { holds = tt; closed = closed })).closed

  pub handling-Keeps : (r : Request) (w : World) → w.tx ≡ idle → Keeps w (create_payment env r w).1
  handling-Keeps r w closed =
      let (after, keys) = create_payment-SameKeys env w closed r in
      (after, λ k. ap (any (is_record merchant_id key)) keys ∙ k)

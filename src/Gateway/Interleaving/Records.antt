-- ===== src/Gateway/Interleaving/Records.antt =====
-- Whether there is a record of a key, and what the calls on the table of keys do to it.
use pay_fast_processor.Prelude.{
  ℕ, String, Bool, true, List, [], ◌∷◌, ◌≡◌, ◌≢◌, refl, inl, inr, any, update, Bool-cases, eq_refl,
  arith,
}
use pay_fast_processor.Store.Schema.{IdempotencyKey}
use pay_fast_processor.Store.Sql.{ok}
use pay_fast_processor.Runtime.Json.{Json}
use pay_fast_processor.Runtime.World.{Env, World}
use pay_fast_processor.Runtime.Act.{pool_exec}
use pay_fast_processor.Books.Inserts.{any-append}
use pay_fast_processor.Gateway.Keys.{
  is_record, complete, insert_record, update_record, create_pending_record, complete_record,
}

module _ (env : Env) (merchant_id key : String) where
  abbrev pub is_kept : World → Bool
  is_kept w = any (is_record merchant_id key) w.db.idempotency_keys

  any-update :
      (f : IdempotencyKey → IdempotencyKey)
      → ((x : IdempotencyKey) → is_record merchant_id key (f x) ≡ is_record merchant_id key x)
      → (l : List IdempotencyKey)
      → any (is_record merchant_id key) (update (is_record merchant_id key) f l)
        ≡ any (is_record merchant_id key) l
  any-update f keeps [] = refl
  any-update f keeps (x ∷ l) = elim (Bool-cases (is_record merchant_id key x)) [
    | inl hit ↦ rw (hit, keeps x, hit) refl
    | inr miss ↦ rw (miss, miss, any-update f keeps l) refl
  ]

  pub complete_record-is_kept :
      (code : ℕ) (body : Json) (w : World)
      → is_kept (complete_record env merchant_id key code body w).1 ≡ is_kept w
  unfolding complete_record pool_exec update_record
  complete_record-is_kept code body w = elim (Bool-cases (env.fails w.tick)) [
    | inl broken ↦ rw broken refl
    | inr works ↦ rw works (any-update (complete code body) (λ x. refl) w.db.idempotency_keys)
  ]

  pub create-is_kept :
      (path method : String) (w : World)
      → is_kept w ≡ true
      → ((create_pending_record env merchant_id key path method w).0 ≢ ok tt)
        × (is_kept (create_pending_record env merchant_id key path method w).1 ≡ true)
  unfolding create_pending_record pool_exec insert_record
  create-is_kept path method w kept = elim (Bool-cases (env.fails w.tick)) [
    | inl broken ↦ rw broken ((λ same. cc same), kept)
    | inr works ↦ rw (works, kept) ((λ same. cc same), kept)
  ]

  pub create_ok-is_kept :
      (path method : String) (w : World)
      → (create_pending_record env merchant_id key path method w).0 ≡ ok tt
      → is_kept (create_pending_record env merchant_id key path method w).1 ≡ true
  unfolding create_pending_record pool_exec insert_record
  create_ok-is_kept path method w fine = elim (Bool-cases (env.fails w.tick)) [
    | inl broken ↦ cc (rw broken at fine)
    | inr works ↦ elim (Bool-cases (is_kept w)) [
      | inl kept ↦ absurd ((create-is_kept path method w kept).0 fine)
      | inr new ↦
          rw
            (
              works,
              new,
              any-append (is_record merchant_id key) w.db.idempotency_keys,
              eq_refl merchant_id,
              eq_refl key,
            )
            (ground arith)
    ]
  ]

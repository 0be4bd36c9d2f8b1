-- ===== src/Gateway/Rest/Middleware.antt =====
-- What the middlewares keep around a handler.
use pay_fast_processor.Prelude.{
  ◌≡◌, refl, String, Bool, true, false, Option, none, some, List, inl, inr, Bool-cases, ◌==◌, [],
  ◌∷◌,
}
use pay_fast_processor.Store.Schema.{Db, IdempotencyKey}
use pay_fast_processor.Store.Sql.{Result, ok, err}
use pay_fast_processor.Runtime.Json.{Error}
use pay_fast_processor.Runtime.World.{Env, World}
use pay_fast_processor.Runtime.Rest.{AtRest, AtRest-Stable, Keeping}
use pay_fast_processor.Runtime.Rest.Calls.{
  Keeping-pool_query, Keeping-pool_exec, Keeping-set_nx, Keeping-del,
}
use pay_fast_processor.Books.Inserts.{Leads-constrained}
use pay_fast_processor.Gateway.Http.{Request, Handler}
use pay_fast_processor.Gateway.Keys.{
  IdempotencyRecord, get_record, create_pending_record, complete_record, acquire_lock, release_lock,
  insert_record, update_record, pending, record_constraints,
}
use pay_fast_processor.Gateway.Middleware.{
  run_handler, after_pending, locked_section, after_lock, after_check, with_key, for_merchant,
  idempotency,
}
use pay_fast_processor.Gateway.Auth.{
  api_auth, with_header, with_parts, with_api_key, Bytes, split, space, bearer, eqb_bytes,
  has_prefix, key_prefix, test_merchant,
}
use pay_fast_processor.Gateway.Rest.Creation.{Safe}

module _ (env : Env) (P : Db → Type 0)
    (keys : (d : Db) (l : List IdempotencyKey) → P d → P (record d { idempotency_keys = l }))
    (next : Handler) (safe : Safe P next) where
  module _ (merchant_id : String) (r : Request) (test : r.merchant_id ≡ some test_merchant) where
    acquire_lock-AtRest : Keeping (AtRest P) (acquire_lock env merchant_id r.idempotency_key)
    unfolding acquire_lock
    acquire_lock-AtRest = Keeping-set_nx env P _ (AtRest-Stable P) _ 30

    run_handler-AtRest :
        (w : World) → AtRest P w → AtRest P (run_handler env next merchant_id r w).1
    unfolding run_handler complete_record update_record
    run_handler-AtRest w h =
        Keeping-pool_exec env P _ (AtRest-Stable P) _ (λ d p. keys d _ p) _ (safe r w test h)

    after_pending-AtRest :
        (c : Result Error Unit) (w : World)
        → AtRest P w
        → AtRest P (after_pending env next merchant_id r c w).1
    after_pending-AtRest (ok _) w h = run_handler-AtRest w h
    after_pending-AtRest (err e) w h = h

    locked_section-AtRest :
        (w : World) → AtRest P w → AtRest P (locked_section env next merchant_id r w).1
    unfolding locked_section create_pending_record insert_record
    locked_section-AtRest w h = after_pending-AtRest _ _ (
        Keeping-pool_exec env P _ (AtRest-Stable P) _
          (λ d p.
            Leads-constrained _
              (record_constraints (pending merchant_id r.idempotency_key r.path r.method) d) tt _
              (λ _. keys d _ p))
          w h)

    after_lock-AtRest :
        (c : Result Error Bool) (w : World)
        → AtRest P w
        → AtRest P (after_lock env next merchant_id r c w).1
    unfolding release_lock
    after_lock-AtRest (ok true) w h =
        Keeping-del env P _ (AtRest-Stable P) _ _ (locked_section-AtRest w h)
    after_lock-AtRest (ok false) w h = h
    after_lock-AtRest (err e) w h = h

    after_check-AtRest :
        (c : Result Error (Option IdempotencyRecord)) (w : World)
        → AtRest P w
        → AtRest P (after_check env next merchant_id r c w).1
    after_check-AtRest (err e) w h = h
    after_check-AtRest (ok (some found)) w h = h
    after_check-AtRest (ok none) w h = after_lock-AtRest _ _ (acquire_lock-AtRest w h)

    with_key-AtRest : (w : World) → AtRest P w → AtRest P (with_key env next merchant_id r w).1
    unfolding with_key get_record
    with_key-AtRest w h =
        after_check-AtRest _ _ (Keeping-pool_query env P _ (AtRest-Stable P) _ w h)

  pub idempotency-Safe : Safe P (idempotency env next)
  unfolding idempotency
  idempotency-Safe r w test h = elim (Bool-cases (r.method == "POST")) [
    | inr other ↦ rw other (safe r w test h)
    | inl post ↦ elim (Bool-cases (r.idempotency_key == "")) [
      | inl empty ↦ rw (post, empty) h
      | inr keyed ↦ rw (post, keyed) (of_merchant r.merchant_id)
    ]
  ]
    where
      of_merchant : (o : Option String) → AtRest P (for_merchant env next o r w).1
      of_merchant none = h
      of_merchant (some m) = with_key-AtRest m r test w h

module _ (P : Db → Type 0) where
  -- A handler that keeps it for every request.
  abbrev pub Preserves : Handler → Type 0
  Preserves h = (r : Request) (w : World) → AtRest P w → AtRest P (h r w).1

module _ (P : Db → Type 0) (next : Handler) (safe : Safe P next) where
  with_api_key-Preserves : (api_key : Bytes) → Preserves P (with_api_key next api_key)
  with_api_key-Preserves api_key r w h = elim (Bool-cases (has_prefix key_prefix api_key)) [
    | inl test ↦ rw test (safe (record r { merchant_id = some test_merchant }) w refl h)
    | inr other ↦ rw other h
  ]

  with_parts-Preserves : (l : List Bytes) → Preserves P (with_parts next l)
  with_parts-Preserves (scheme ∷ api_key ∷ []) r w h = elim (Bool-cases (eqb_bytes scheme bearer)) [
    | inl named ↦ rw named (with_api_key-Preserves api_key r w h)
    | inr other ↦ rw other h
  ]
  with_parts-Preserves [] r w h = h
  with_parts-Preserves (scheme ∷ []) r w h = h
  with_parts-Preserves (scheme ∷ api_key ∷ more ∷ parts) r w h = h

  with_header-Preserves : (l : Bytes) → Preserves P (with_header next l)
  with_header-Preserves [] r w h = h
  with_header-Preserves (b ∷ s) r w h = with_parts-Preserves (split space (b ∷ s)) r w h

  pub api_auth-Preserves : Preserves P (api_auth next)
  unfolding api_auth
  api_auth-Preserves r w h = with_header-Preserves r.authorization r w h

-- ===== src/Gateway/Interleaving.antt =====
-- Requests with the same idempotency key that run at the same time, in any order of their calls.
pub mod Stages
pub mod Records
pub mod Calls
use pay_fast_processor.Prelude.{
  ℕ, ◌+◌, ◌≤◌, String, Bool, true, false, ◌≡◌, refl, inl, inr, if◌then◌else◌, arith, ap, ◌∙◌, subst,
  Option, none, some,
}
use pay_fast_processor.Store.Sql.{Result, ok, err}
use pay_fast_processor.Runtime.Json.{Error}
use pay_fast_processor.Runtime.World.{Env, World, idle}
use pay_fast_processor.Gateway.Http.{Request, Response}
use pay_fast_processor.Gateway.Keys.{IdempotencyRecord, create_pending_record}
use pay_fast_processor.Gateway.Payments.{create_payment}
use pay_fast_processor.Gateway.Middleware.{with_key}
use pay_fast_processor.Gateway.Threads.{
  Pc, checking, locking, creating, handling, completing, unlocking, answered, checked, locked,
  created, advance, advances, with_key-advances,
}
use pay_fast_processor.Gateway.Interleaving.Records.{is_kept, create-is_kept, create_ok-is_kept}
use pay_fast_processor.Gateway.Interleaving.Calls.{
  Keeps, checking-Keeps, locking-Keeps, unlocking-Keeps, completing-Keeps, handling-Keeps,
  creating-idle,
}
use pay_fast_processor.Gateway.Interleaving.Stages.{
  set, is_handling, Stage, Stage-quiet, OnlyIn-entered, NoneIn-left,
}

-- What the requests share, where each of them stands, and how many calls of the handler there were.
pub record Shared : Type 0 where
  pub world : World
  pub pc : ℕ → Pc
  pub entered : ℕ

-- The calls of the handler that a request makes by its next call.
abbrev pub handler_calls : Pc → ℕ
handler_calls p = if is_handling p then 1 else 0

module _ (env : Env) (merchant_id key : String) (requests : ℕ → Request) where
  -- The request with this number; all have the same key.
  abbrev pub keyed : ℕ → Request
  keyed i = record (requests i) { idempotency_key = key }

  abbrev pub advanced : ℕ → Pc → World → Pc × World
  advanced i = advance env (create_payment env) merchant_id (keyed i)

  -- One call of one of the requests, or of anything else that keeps the record of the key: requests
  -- with other keys, other services, a lock that expires.
  pub data Step : Shared → Shared → Type 0 where
    move :
        (i : ℕ) (s : Shared)
        → Step s (record {
          world = (advanced i (s.pc i) s.world).1;
          pc = set s.pc i (advanced i (s.pc i) s.world).0;
          entered = s.entered + handler_calls (s.pc i);
        })
    elsewhere :
        (s : Shared) (w : World)
        → (is_kept env merchant_id key s.world ≡ true → is_kept env merchant_id key w ≡ true)
        → w.tx ≡ idle
        → Step s (record { world = w; pc = s.pc; entered = s.entered })

  -- From a world in which all requests begin, and no transaction is open.
  pub data Steps : Shared → Type 0 where
    at_begin :
        (w : World) → w.tx ≡ idle → Steps (record { world = w; pc = λ _. checking; entered = 0 })
    more : (s t : Shared) → Steps s → Step s t → Steps t

  record IsGuarded (s : Shared) : Type 0 where
    closed : s.world.tx ≡ idle
    stage : Stage (is_kept env merchant_id key s.world) s.pc s.entered

  not_handling_checked :
      (c : Result Error (Option IdempotencyRecord)) → is_handling (checked c) ≡ false
  not_handling_checked (err e) = refl
  not_handling_checked (ok (some found)) = refl
  not_handling_checked (ok none) = refl

  not_handling_locked : (c : Result Error Bool) → is_handling (locked c) ≡ false
  not_handling_locked (ok true) = refl
  not_handling_locked (ok false) = refl
  not_handling_locked (err e) = refl

  -- A call of request `i`, which stands at `p`.
  abbrev Moved : ℕ → Pc → Shared → Shared
  Moved i p s = record {
    world = (advanced i p s.world).1;
    pc = set s.pc i (advanced i p s.world).0;
    entered = s.entered + handler_calls p;
  }

  quiet :
      (i : ℕ) (p : Pc) (s : Shared)
      → s.pc i ≡ p
      → is_handling p ≡ false
      → is_handling (advanced i p s.world).0 ≡ false
      → Keeps env merchant_id key s.world (advanced i p s.world).1
      → IsGuarded s
      → IsGuarded (Moved i p s)
  quiet i p s at out out' keeps g = record {
    closed = keeps.0;
    stage = rw out (
        subst (Stage _ _) (omega arith)
          (Stage-quiet s.pc i s.entered _ _ _ out' (ap is_handling at ∙ out) keeps.1 g.stage));
  }

  module _ (i : ℕ) (s : Shared) where
    -- The insert of request `i`.
    abbrev inserted : Result Error Unit × World
    inserted =
        create_pending_record env merchant_id key (requests i).path (requests i).method s.world

    entered-Stage :
        inserted.0 ≡ ok tt
        → Stage (is_kept env merchant_id key s.world) s.pc s.entered
        → Stage (is_kept env merchant_id key inserted.1) (set s.pc i handling) (s.entered + 0)
    entered-Stage fine (inl (empty, no_one)) = inr (
      create_ok-is_kept env merchant_id key (requests i).path (requests i).method s.world fine,
      inl (i, OnlyIn-entered s.pc i empty, omega (arith, no_one)),
    )
    entered-Stage fine (inr (k, _)) = absurd (
        (create-is_kept env merchant_id key (requests i).path (requests i).method s.world k).0 fine)

    entered_lem :
        (result : Result Error Unit)
        → s.pc i ≡ creating
        → inserted.0 ≡ result
        → IsGuarded s
        → IsGuarded (record {
          world = inserted.1;
          pc = set s.pc i (created result);
          entered = s.entered + 0;
        })
    entered_lem (ok _) at fine g = record {
      closed =
          creating-idle env merchant_id key (requests i).path (requests i).method s.world g.closed;
      stage = entered-Stage fine g.stage;
    }
    entered_lem (err e) at broken g = record {
      closed =
          creating-idle env merchant_id key (requests i).path (requests i).method s.world g.closed;
      stage = subst (Stage _ _) (omega arith) (
          Stage-quiet s.pc i s.entered _ _ _ refl (ap is_handling at)
            (λ k.
              (create-is_kept env merchant_id key (requests i).path (requests i).method s.world
                k).1)
            g.stage);
    }

    left-Stage :
        (response : Response) (kept : Bool)
        → s.pc i ≡ handling
        → (is_kept env merchant_id key s.world ≡ true → kept ≡ true)
        → Stage (is_kept env merchant_id key s.world) s.pc s.entered
        → Stage kept (set s.pc i (completing response)) (s.entered + 1)
    left-Stage response kept at keeps (inl (empty, _)) = cc (ap is_handling at, empty i)
    left-Stage response kept at keeps (inr (k, inl (j, only, no_one))) =
        inr (
          keeps k,
          inr (NoneIn-left s.pc i j _ refl (ap is_handling at) only, omega (arith, no_one)),
        )
    left-Stage response kept at keeps (inr (k, inr (empty, _))) = cc (ap is_handling at, empty i)

    left_lem : s.pc i ≡ handling → IsGuarded s → IsGuarded (Moved i handling s)
    left_lem at g =
        let h = handling-Keeps env merchant_id key (keyed i) s.world g.closed in
        record { closed = h.0; stage = left-Stage _ _ at h.1 g.stage }

  Moved-IsGuarded :
      (i : ℕ) (p : Pc) (s : Shared) → s.pc i ≡ p → IsGuarded s → IsGuarded (Moved i p s)
  Moved-IsGuarded i checking s at g =
      quiet i checking s at refl (not_handling_checked _)
        (checking-Keeps env merchant_id key s.world g.closed) g
  Moved-IsGuarded i locking s at g =
      quiet i locking s at refl (not_handling_locked _)
        (locking-Keeps env merchant_id key s.world g.closed) g
  Moved-IsGuarded i creating s at g = entered_lem i s _ at refl g
  Moved-IsGuarded i handling s at g = left_lem i s at g
  Moved-IsGuarded i (completing response) s at g =
      quiet i (completing response) s at refl refl
        (completing-Keeps env merchant_id key _ _ s.world g.closed) g
  Moved-IsGuarded i (unlocking response) s at g =
      quiet i (unlocking response) s at refl refl
        (unlocking-Keeps env merchant_id key s.world g.closed) g
  Moved-IsGuarded i (answered response) s at g =
      quiet i (answered response) s at refl refl (g.closed, λ k. k) g

  Steps-IsGuarded : (s : Shared) → Steps s → IsGuarded s
  Steps-IsGuarded _ (at_begin w closed) = record {
    closed = closed;
    stage = inl ((λ j. refl), refl);
  }
  Steps-IsGuarded _ (more s t steps step) = next_state t step (Steps-IsGuarded s steps)
    where
      next_state : (t : Shared) → Step s t → IsGuarded s → IsGuarded t
      next_state _ (move i _) g = Moved-IsGuarded i (s.pc i) s refl g
      next_state _ (elsewhere _ w keeps closed) g = record {
        closed = closed;
        stage = Stage-later g.stage;
      }
        where
          Stage-later :
              Stage (is_kept env merchant_id key s.world) s.pc s.entered
              → Stage (is_kept env merchant_id key w) s.pc s.entered
          Stage-later (inl h) = inl h
          Stage-later (inr (k, h)) = inr (keeps k, h)

  -- A request of the middleware makes six calls: alone, they are what the middleware does with the
  -- handler of payments. However the calls of any number of requests with one key are interleaved,
  -- with each other and with whatever else keeps the record of the key, with locks that expire or are
  -- lost at any time and whichever calls fail, the handler is called at most once for all of them.
  pub entered_once :
      (s : Shared)
      → Steps s
      → (s.entered ≤ 1)
        × ((i : ℕ) (w : World)
            → advances env (create_payment env) merchant_id (keyed i) 6 (checking, w) ≡ (
                let (response, v) = with_key env (create_payment env) merchant_id (keyed i) w in
                (answered response, v)))
  entered_once s steps = (
    bound (Steps-IsGuarded s steps).stage,
    λ i w. with_key-advances env _ merchant_id (keyed i) w,
  )
    where
      bound : Stage (is_kept env merchant_id key s.world) s.pc s.entered → s.entered ≤ 1
      bound (inl (_, no_one)) = omega (arith, no_one)
      bound (inr (_, inl (_, _, no_one))) = omega (arith, no_one)
      bound (inr (_, inr (_, one_in))) = omega (arith, one_in)

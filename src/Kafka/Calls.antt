-- ===== src/Kafka/Calls.antt =====
-- Which messages the loop hands to the handler, and which of them its commits cover.
use pay_fast_processor.Prelude.{
  ℕ, zero, suc, ◌+◌, Bool, true, false, none, some, List, [], ◌∷◌, ◌≡◌, refl, ◌⊎◌, sym, subst,
  length, Option-cases, Bool-cases, inl, inr, arith,
}
use pay_fast_processor.Store.Sql.{Result, ok, err}
use pay_fast_processor.Runtime.Json.{Error}
use pay_fast_processor.Runtime.World.{Env, World, Message}
use pay_fast_processor.Runtime.Act.{Act, next_call}
use pay_fast_processor.Kafka.{
  Consumer, message_at, commit_message, after_handler, handle_message, consume_one, consume,
}

module _ (env : Env) (handler : Message → Act Unit) (log : List Message) where
  abbrev pub Calls : Type 0
  Calls = List (Message × Bool)

  -- So many turns of the loop, with the calls of the handler that they make, and whether each
  -- succeeds.
  pub data Turns : ℕ → Consumer → Calls → Consumer → Type 0 where
    no_turn : (c : Consumer) → Turns 0 c [] c
    -- The fetch fails.
    unread :
        (n : ℕ) (c d : Consumer) (l : Calls)
        → env.fails c.world.tick ≡ true
        → Turns n (record c { world = next_call c.world }) l d
        → Turns (suc n) c l d
    -- There is no new message.
    waiting :
        (n : ℕ) (c d : Consumer) (l : Calls)
        → env.fails c.world.tick ≡ false
        → message_at c.position log ≡ none
        → Turns n (record c { world = next_call c.world }) l d
        → Turns (suc n) c l d
    -- The handler returns an error: nothing is committed.
    failed :
        (n : ℕ) (c d : Consumer) (l : Calls) (m : Message) (e : Error) (w : World)
        → env.fails c.world.tick ≡ false
        → message_at c.position log ≡ some m
        → handler m (next_call c.world) ≡ (err e, w)
        → Turns n (record c { world = w; position = c.position + 1 }) l d
        → Turns (suc n) c ((m, false) ∷ l) d
    -- The handler returns, and the commit fails.
    uncommitted :
        (n : ℕ) (c d : Consumer) (l : Calls) (m : Message) (w : World)
        → env.fails c.world.tick ≡ false
        → message_at c.position log ≡ some m
        → handler m (next_call c.world) ≡ (ok tt, w)
        → env.fails w.tick ≡ true
        → Turns n (record c { world = next_call w; position = c.position + 1 }) l d
        → Turns (suc n) c ((m, true) ∷ l) d
    -- The handler returns, and its message is committed.
    committed :
        (n : ℕ) (c d : Consumer) (l : Calls) (m : Message) (w : World)
        → env.fails c.world.tick ≡ false
        → message_at c.position log ≡ some m
        → handler m (next_call c.world) ≡ (ok tt, w)
        → env.fails w.tick ≡ false
        → Turns n
            (record { world = next_call w; position = c.position + 1; committed = c.position + 1 })
            l
            d
        → Turns (suc n) c ((m, true) ∷ l) d

  -- The messages of the calls are those of the log from an offset on, one after the other.
  abbrev pub InOrder : ℕ → Calls → Type 0
  InOrder p [] = Unit
  InOrder p (x ∷ l) = (message_at p log ≡ some x.0) × InOrder (p + 1) l

  -- The offset is the one after a message whose handler succeeded, in calls from an offset on.
  pub data IsAfterSuccess : ℕ → Calls → ℕ → Type 0 where
    first : (p : ℕ) (m : Message) (l : Calls) → IsAfterSuccess p ((m, true) ∷ l) (p + 1)
    later :
        (p n : ℕ) (x : Message × Bool) (l : Calls)
        → IsAfterSuccess (p + 1) l n
        → IsAfterSuccess p (x ∷ l) n

  pub record Accounted (n : ℕ) (c d : Consumer) : Type 0 where
    pub calls : Calls
    pub turns : Turns n c calls d
    pub in_order : InOrder c.position calls
    pub position : d.position ≡ c.position + length calls
    pub covered : (d.committed ≡ c.committed) ⊎ IsAfterSuccess c.position calls d.committed

  module _ (n : ℕ) (rest : (v : Consumer) → (l : Calls) × Turns n v l (consume env handler log n v))
      (c : Consumer) (reads : env.fails c.world.tick ≡ false) where
    handled_lem :
        (m : Message) (r : Result Error Unit) (w : World)
        → message_at c.position log ≡ some m
        → handler m (next_call c.world) ≡ (r, w)
        → (l : Calls) × Turns (suc n) c l (
            consume env handler log n
              (after_handler env handler log r (record c { world = w; position = c.position + 1 })))
    unfolding commit_message
    handled_lem m (err e) w there run =
        let (l, t) = rest (record c { world = w; position = c.position + 1 }) in
        ((m, false) ∷ l, failed n c _ l m e w reads there run t)
    handled_lem m (ok _) w there run = elim (Bool-cases (env.fails w.tick)) [
      | inl broken ↦
          let (l, t) = rest (record c { world = next_call w; position = c.position + 1 }) in
          rw broken ((m, true) ∷ l, uncommitted n c _ l m w reads there run broken t)
      | inr works ↦
          let (l, t) = rest (record {
            world = next_call w;
            position = c.position + 1;
            committed = c.position + 1;
          }) in
          rw works ((m, true) ∷ l, committed n c _ l m w reads there run works t)
    ]

  Turns-consume : (n : ℕ) (c : Consumer) → (l : Calls) × Turns n c l (consume env handler log n c)
  unfolding consume consume_one handle_message
  Turns-consume zero c = ([], no_turn c)
  Turns-consume (suc n) c = elim (Bool-cases (env.fails c.world.tick)) [
    | inl broken ↦
        let (l, t) = Turns-consume n (record c { world = next_call c.world }) in
        rw broken (l, unread n c _ l broken t)
    | inr reads ↦ elim (Option-cases (message_at c.position log)) [
      | inl none_there ↦
          let (l, t) = Turns-consume n (record c { world = next_call c.world }) in
          rw (reads, none_there) (l, waiting n c _ l reads none_there t)
      | inr (m, there) ↦
          rw (reads, there)
            (handled_lem n (Turns-consume n) c reads m (handler m (next_call c.world)).0
              (handler m (next_call c.world)).1 there refl)
    ]
  ]

  Turns-InOrder :
      (n : ℕ) (c d : Consumer) (l : Calls)
      → Turns n c l d
      → InOrder c.position l × (d.position ≡ c.position + length l)
  Turns-InOrder _ _ _ _ (no_turn c) = (tt, omega arith)
  Turns-InOrder _ _ _ _ (unread n c d l _ t) = Turns-InOrder n _ d l t
  Turns-InOrder _ _ _ _ (waiting n c d l _ _ t) = Turns-InOrder n _ d l t
  Turns-InOrder _ _ _ _ (failed n c d l m e w _ there _ t) =
      let h = Turns-InOrder n _ d l t in ((there, h.0), omega (arith, h.1))
  Turns-InOrder _ _ _ _ (uncommitted n c d l m w _ there _ _ t) =
      let h = Turns-InOrder n _ d l t in ((there, h.0), omega (arith, h.1))
  Turns-InOrder _ _ _ _ (committed n c d l m w _ there _ _ t) =
      let h = Turns-InOrder n _ d l t in ((there, h.0), omega (arith, h.1))

  -- One call later.
  covered_later :
      (p o n : ℕ) (x : Message × Bool) (l : Calls)
      → (n ≡ o) ⊎ IsAfterSuccess (p + 1) l n
      → (n ≡ o) ⊎ IsAfterSuccess p (x ∷ l) n
  covered_later p o n x l (inl same) = inl same
  covered_later p o n x l (inr h) = inr (later p n x l h)

  covered_first :
      (p n : ℕ) (m : Message) (l : Calls)
      → (n ≡ p + 1) ⊎ IsAfterSuccess (p + 1) l n
      → IsAfterSuccess p ((m, true) ∷ l) n
  covered_first p n m l (inl same) =
      subst (IsAfterSuccess p ((m, true) ∷ l)) (sym same) (first p m l)
  covered_first p n m l (inr h) = later p n (m, true) l h

  Turns-covered :
      (n : ℕ) (c d : Consumer) (l : Calls)
      → Turns n c l d
      → (d.committed ≡ c.committed) ⊎ IsAfterSuccess c.position l d.committed
  Turns-covered _ _ _ _ (no_turn c) = inl refl
  Turns-covered _ _ _ _ (unread n c d l _ t) = Turns-covered n _ d l t
  Turns-covered _ _ _ _ (waiting n c d l _ _ t) = Turns-covered n _ d l t
  Turns-covered _ _ _ _ (failed n c d l m e w _ _ _ t) =
      covered_later c.position c.committed d.committed (m, false) l (Turns-covered n _ d l t)
  Turns-covered _ _ _ _ (uncommitted n c d l m w _ _ _ _ t) =
      covered_later c.position c.committed d.committed (m, true) l (Turns-covered n _ d l t)
  Turns-covered _ _ _ _ (committed n c d l m w _ _ _ _ t) =
      inr (covered_first c.position d.committed m l (Turns-covered n _ d l t))

  -- So many turns of the loop call the handler on the messages of the log from the consumer's
  -- position on, each once and in their order, each in the world that the call before it and the
  -- reads and commits since have left. A turn makes no call only where its fetch fails or no message
  -- is left. At the end the position has passed those messages and no other, and the committed
  -- offset is the one of the start or that after a message whose handler returned no error.
  pub consume-Accounted : (n : ℕ) (c : Consumer) → Accounted n c (consume env handler log n c)
  consume-Accounted n c =
      let (l, t) = Turns-consume n c in
      let h = Turns-InOrder n c _ l t in
      record {
        calls = l;
        turns = t;
        in_order = h.0;
        position = h.1;
        covered = Turns-covered n c _ l t;
      }

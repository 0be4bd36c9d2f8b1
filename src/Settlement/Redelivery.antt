-- ===== src/Settlement/Redelivery.antt =====
-- Deliveries of the same payments: once settled, nothing more happens, but an event that overlaps
-- an earlier settlement pays the settled part again.
use pay_fast_processor.Prelude.{
  ℕ, String, Bool, false, Option, List, [], ◌∷◌, ◌≡◌, ◌≢◌, sym, ap, ◌∙◌, ◌⊎◌, inl, inr, ◌++◌, count,
  update, count-update, any, ◌==◌, ◌&&◌, not, if◌then◌else◌, arith, Bool-cases,
}
use pay_fast_processor.Prelude.Int.{ℤ, pos, ◌+ℤ◌, ◌<ℤ◌, int_laws}
use pay_fast_processor.Store.Schema.{Payment, LedgerEntry, is_null}
use pay_fast_processor.Store.Sql.{ok}
use pay_fast_processor.Runtime.Json.{Json}
use pay_fast_processor.Runtime.World.{Env, World, idle}
use pay_fast_processor.Runtime.Triple.{ok-injective, Post-both}
use pay_fast_processor.Runtime.Transaction.{Unchanged}
use pay_fast_processor.Settlement.{
  SettleEvent, decode_event, target_payment_ids, is_open_target, settle, handle_settle_event,
}
use pay_fast_processor.Settlement.Payout.{IsSettled, Paid}
use pay_fast_processor.Settlement.Delivery.{
  Outcome, Delivered, outcome, handle_settle_event-Delivered,
}

settled_not_open :
    (ids : List String) (sid : String) (now : ℕ) (p : Payment)
    → is_open_target ids (settle sid now p) ≡ false
settled_not_open ids sid now p = ground arith

Paid-IsSettled : (w0 w : World) (event : SettleEvent) → Paid w0 event w → IsSettled w event
Paid-IsSettled w0 w event p = rw p.settled.attached.1 (
    count-update (is_open_target (target_payment_ids event)) (settle p.settled.settlement_id w0.now)
      (settled_not_open (target_payment_ids event) p.settled.settlement_id w0.now) w0.db.payments)

-- Nothing is left to do for an event: all is settled, or its status is another.
abbrev IsDone : World → SettleEvent → Type 0
IsDone w event = IsSettled w event ⊎ (event.status ≢ "initiated")

module _ (w0 w : World) (event : SettleEvent) where
  Outcome-IsDone : Outcome w0 event w → (w.tx ≡ idle) × IsDone w event
  Outcome-IsDone (inl (_, inl p)) = (p.tx, inl (Paid-IsSettled w0 w event p))
  Outcome-IsDone (inl (_, inr (u, s))) = (u.tx, inl (rw u.db s))
  Outcome-IsDone (inr (other, u)) = (u.tx, inr other)

done_lem :
    (w0 w : World) (event e : SettleEvent)
    → IsDone w0 event
    → e ≡ event
    → Outcome w0 e w
    → Unchanged w0 w
done_lem w0 w event e done same (inl (_, inr (u, _))) = u
done_lem w0 w event e done same (inr (_, u)) = u
done_lem w0 w event e (inl s) same (inl (_, inl p)) = absurd (p.settled.attached.4 (rw same s))
done_lem w0 w event e (inr other) same (inl (status, inl p)) =
    absurd (other (ap (λ (x : SettleEvent). x.status) (sym same) ∙ status))

done-Unchanged :
    (env : Env) (w0 : World) (value : Option Json) (event : SettleEvent)
    → w0.tx ≡ idle
    → decode_event value ≡ ok event
    → IsDone w0 event
    → Unchanged w0 (handle_settle_event env value w0).1
done-Unchanged env w0 value event at_rest decoded done =
    Post-both (λ _. Delivered w0 value) (Unchanged w0) _ _ (outcome env w0 value at_rest)
      (λ _ d. done_lem w0 _ event d.0 done (ok-injective (sym d.1 ∙ decoded)) d.2) (λ same. same)

-- Kafka delivers at least once. After a delivery that returned no error, a second delivery of the
-- same message changes nothing, whatever fails in between, and however the second delivery ends.
pub redelivery-Unchanged :
    (env env' : Env) (w0 : World) (value : Option Json)
    → w0.tx ≡ idle
    → (handle_settle_event env value w0).0 ≡ ok tt
    → let w1 = (handle_settle_event env value w0).1 in
      Unchanged w1 (handle_settle_event env' value w1).1
redelivery-Unchanged env env' w0 value at_rest fine =
    let (event, decoded, o) = handle_settle_event-Delivered env w0 value at_rest fine in
    let (rest, done) = Outcome-IsDone w0 _ event o in
    done-Unchanged env' _ value event rest decoded done

-- The first delivery of an event with an open target, where it returns no error, pays it.
Paid-of_ok :
    (env : Env) (w0 : World) (value : Option Json) (event : SettleEvent)
    → w0.tx ≡ idle
    → decode_event value ≡ ok event
    → (IsDone w0 event → ⊥)
    → (handle_settle_event env value w0).0 ≡ ok tt
    → Paid w0 event (handle_settle_event env value w0).1
Paid-of_ok env w0 value event at_rest decoded todo fine =
    let (e, d, o) = handle_settle_event-Delivered env w0 value at_rest fine in
    pays e (ok-injective (sym d ∙ decoded)) o
  where
    pays :
        (e : SettleEvent)
        → e ≡ event
        → Outcome w0 e (handle_settle_event env value w0).1
        → Paid w0 event (handle_settle_event env value w0).1
    pays e same (inl (_, inl p)) = rw same at p
    pays e same (inl (_, inr (_, s))) = absurd (todo (inl (rw same at s)))
    pays e same (inr (other, _)) = absurd (todo (inr (rw same at other)))

-- The amounts of the rows that pass a test.
unfoldable pub amount_of : (Payment → Bool) → List Payment → ℤ
amount_of p [] = pos 0
amount_of p (x ∷ l) = (if p x then x.amount else pos 0) +ℤ amount_of p l

abbrev pub is_target : List String → Payment → Bool
is_target ids p = any (λ id. p.id == id) ids

abbrev pub is_settled_target : List String → Payment → Bool
is_settled_target ids p = is_target ids p && not (is_null p.settlement_id)

amount_of-split :
    (b n : Payment → Bool) (l : List Payment)
    → amount_of b l ≡ amount_of (λ p. b p && n p) l +ℤ amount_of (λ p. b p && not (n p)) l
unfolding amount_of
amount_of-split b n [] = omega int_laws
amount_of-split b n (p ∷ l) = elim (Bool-cases (b p)) [
  | inl t ↦ elim (Bool-cases (n p)) [
    | inl u ↦ rw (t, u, amount_of-split b n l) (omega int_laws)
    | inr u ↦ rw (t, u, amount_of-split b n l) (omega int_laws)
  ]
  | inr f ↦ rw (f, amount_of-split b n l) (omega int_laws)
]

-- The merchant is credited more than the payments are worth that the settlement takes.
pub record Overpaid (w0 : World) (event : SettleEvent) (w : World) : Type 0 where
  pub settlement_id : String
  pub taken :
      w.db.payments
      ≡ update
          (is_open_target (target_payment_ids event))
          (settle settlement_id w0.now)
          w0.db.payments
  pub debited : LedgerEntry
  pub credited : LedgerEntry
  pub entries : w.db.ledger_entries ≡ w0.db.ledger_entries ++ debited ∷ credited ∷ []
  pub overpays :
      amount_of (is_open_target (target_payment_ids event)) w0.db.payments <ℤ credited.amount

-- An event that overlaps an earlier settlement pays too much: if its amount is that of all its
-- targets, of which some are open and those that have a settlement already are worth something,
-- then a delivery that returns no error credits the merchant more than the payments are worth that
-- it takes.
pub overlap_overpays :
    (env : Env) (w0 : World) (value : Option Json) (event : SettleEvent)
    → w0.tx ≡ idle
    → decode_event value ≡ ok event
    → event.status ≡ "initiated"
    → count (is_open_target (target_payment_ids event)) w0.db.payments ≢ 0
    → event.amount ≡ amount_of (is_target (target_payment_ids event)) w0.db.payments
    → pos 0 <ℤ amount_of (is_settled_target (target_payment_ids event)) w0.db.payments
    → (handle_settle_event env value w0).0 ≡ ok tt
    → Overpaid w0 event (handle_settle_event env value w0).1
overlap_overpays env w0 value event at_rest decoded status some_open whole overlap fine =
    let paid = Paid-of_ok env w0 value event at_rest decoded todo fine in
    record {
      settlement_id = paid.settled.settlement_id;
      taken = paid.settled.attached.1;
      debited = paid.settled.debited;
      credited = paid.settled.credited;
      entries = paid.settled.entries;
      overpays =
          rw
            (
              paid.settled.amount,
              whole,
              amount_of-split (is_target (target_payment_ids event)) (λ p. is_null p.settlement_id)
                  w0.db.payments,
            )
            (omega int_laws);
    }
  where
    todo : IsDone w0 event → ⊥
    todo (inl none) = some_open none
    todo (inr other) = other status

-- ===== src/Settlement/Dispatch.antt =====
-- What the poll dispatches is what the consumer settles.
use pay_fast_processor.Prelude.{
  ℕ, String, Bool, true, false, some, List, [], ◌∷◌, ◌≡◌, ◌≢◌, refl, any, select, map, All,
  Bool-cases, eq_iff, eq_refl, inl, inr, ap, sym, arith, ◌==◌, ◌∙◌,
}
use pay_fast_processor.Store.Schema.{Db, Payment, is_null}
use pay_fast_processor.Store.Sql.{ok}
use pay_fast_processor.Settlement.{SettleEvent, decode_event, target_payment_ids, is_open_target}
use pay_fast_processor.Settlement.Poll.{is_due_in, sum_of, row_of, SettlementRow, settle_event}

-- The primary key: no two rows have the same id.
abbrev pub HasKey : List Payment → Type 0
HasKey [] = Unit
HasKey (p ∷ l) = All (λ q. q.id ≢ p.id) l × HasKey l

abbrev ids_of : List Payment → List String
ids_of = map (λ p. p.id)

abbrev listed : String → List String → Bool
listed id = any (λ i. id == i)

-- An id that no row has is not among the ids of a selection.
not_listed :
    (q : Payment → Bool) (id : String) (l : List Payment)
    → All (λ x. x.id ≢ id) l
    → listed id (ids_of (select q l)) ≡ false
not_listed q id [] h = refl
not_listed q id (x ∷ l) h = elim (Bool-cases (q x)) [
  | inr out ↦ rw out (not_listed q id l h.1)
  | inl inside ↦ rw inside (elim (Bool-cases (id == x.id)) [
    | inl same ↦ absurd (h.0 (sym ((eq_iff id x.id).0 same)))
    | inr other ↦ rw other (not_listed q id l h.1)
  ])
]

-- An id that no row has selects nothing more.
skip_id :
    (id : String) (ids : List String) (l : List Payment)
    → All (λ x. x.id ≢ id) l
    → select (is_open_target (id ∷ ids)) l ≡ select (is_open_target ids) l
skip_id id ids [] h = refl
skip_id id ids (x ∷ l) h = elim (Bool-cases (x.id == id)) [
  | inl same ↦ absurd (h.0 ((eq_iff x.id id).0 same))
  | inr other ↦ rw (other, skip_id id ids l h.1) refl
]

select_hit :
    (q : Payment → Bool) (x : Payment) (l : List Payment)
    → q x ≡ true
    → select q (x ∷ l) ≡ x ∷ select q l
select_hit q x l h = rw h refl

select_miss :
    (q : Payment → Bool) (x : Payment) (l : List Payment)
    → q x ≡ false
    → select q (x ∷ l) ≡ select q l
select_miss q x l h = rw h refl

first_open :
    (x : Payment) (ids : List String) (l : List Payment)
    → All (λ y. y.id ≢ x.id) l
    → is_null x.settlement_id ≡ true
    → select (is_open_target (x.id ∷ ids)) (x ∷ l) ≡ x ∷ select (is_open_target ids) l
first_open x ids l h open_row = rw (eq_refl x.id, open_row) (ap (λ r. x ∷ r) (skip_id x.id ids l h))

-- The open rows with the ids of a selection are the selection.
open_targets :
    (q : Payment → Bool) (l : List Payment)
    → ((p : Payment) → q p ≡ true → is_null p.settlement_id ≡ true)
    → HasKey l
    → select (is_open_target (ids_of (select q l))) l ≡ select q l
open_targets q [] open_row h = refl
open_targets q (x ∷ l) open_row h = elim (Bool-cases (q x)) [
  | inl inside ↦
      ap (λ ps. select (is_open_target (ids_of ps)) (x ∷ l)) (select_hit q x l inside)
      ∙ first_open x (ids_of (select q l)) l h.0 (open_row x inside)
      ∙ ap (λ r. x ∷ r) (open_targets q l open_row h.1)
      ∙ sym (select_hit q x l inside)
  | inr outside ↦
      ap (λ ps. select (is_open_target (ids_of ps)) (x ∷ l)) (select_miss q x l outside)
      ∙ rw (not_listed q x.id l h.0) (open_targets q l open_row h.1)
      ∙ sym (select_miss q x l outside)
]

is_due_in-is_null :
    (d : Db) (now : ℕ) (m c : String) (p : Payment)
    → is_due_in d now m c p ≡ true
    → is_null p.settlement_id ≡ true
is_due_in-is_null d now m c p h = ground arith

module _ (d : Db) (now : ℕ) (m c : String) where
  abbrev row : SettlementRow
  row = row_of d now m c

  abbrev pub dispatched : SettleEvent
  dispatched = record {
    payment_id = "";
    payment_ids = row.payment_ids;
    merchant_id = m;
    amount = row.total_amount;
    currency = c;
    status = "initiated";
  }

  -- The event of a row, as the consumer reads it.
  decode_event_lem : decode_event (some (settle_event row)) ≡ ok dispatched
  unfolding decode_event
  decode_event_lem = refl

  nonempty_targets :
      (p : Payment) (ps : List Payment)
      → select (is_due_in d now m c) d.payments ≡ p ∷ ps
      → target_payment_ids dispatched ≡ row.payment_ids
  nonempty_targets p ps e = rw e refl

  no_targets :
      select (is_due_in d now m c) d.payments ≡ [] → target_payment_ids dispatched ≡ row.payment_ids
  no_targets e = rw e refl

  -- No two payments have the same id. A row that is dispatched and consumed before the payments
  -- change: the consumer reads the event back, and the payments that its update takes are the due
  -- payments of the row's merchant and currency, whose sum is the amount that is paid.
  pub dispatched_amount :
      HasKey d.payments
      → (decode_event (some (settle_event row)) ≡ ok dispatched)
        × (select (is_open_target (target_payment_ids dispatched)) d.payments
            ≡ select (is_due_in d now m c) d.payments)
        × (sum_of (select (is_open_target (target_payment_ids dispatched)) d.payments)
            ≡ dispatched.amount)
  dispatched_amount key =
      let taken : select (is_open_target (target_payment_ids dispatched)) d.payments
          ≡ select (is_due_in d now m c) d.payments =
        by_row (select (is_due_in d now m c) d.payments) refl in
      (decode_event_lem, taken, ap sum_of taken)
    where
      opened :
          select (is_open_target row.payment_ids) d.payments
          ≡ select (is_due_in d now m c) d.payments
      opened = open_targets (is_due_in d now m c) d.payments (is_due_in-is_null d now m c) key

      by_row :
          (ps : List Payment)
          → select (is_due_in d now m c) d.payments ≡ ps
          → select (is_open_target (target_payment_ids dispatched)) d.payments
            ≡ select (is_due_in d now m c) d.payments
      by_row [] e = rw (no_targets e) opened
      by_row (p ∷ ps) e = rw (nonempty_targets p ps e) opened

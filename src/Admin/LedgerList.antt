-- ===== src/Admin/LedgerList.antt =====
-- The list of ledger entries, which a NULL in `payment_id` breaks.
use pay_fast_processor.Prelude.{
  ℕ, zero, suc, ◌+◌, ◌≤◌, String, Bool, true, false, none, some, List, [], ◌∷◌, ◌++◌, ◌≡◌, refl, ap,
  ◌∙◌, ◌⊎◌, inl, inr, Bool-cases, Option-cases, map, take, any, length, ◌||◌, arith, leb,
  length-append,
}
use pay_fast_processor.Prelude.Int.{ℤ}
use pay_fast_processor.Store.Schema.{LedgerEntry, is_null}
use pay_fast_processor.Store.Sql.{null_into_value, Result, ok, err}
use pay_fast_processor.Store.Rows.{latest, order_desc, insert_desc, length-order_desc}
use pay_fast_processor.Runtime.Json.{Error, sql}
use pay_fast_processor.Runtime.World.{Env, World, idle}
use pay_fast_processor.Runtime.Act.{◌>>=◌, wrapping}
use pay_fast_processor.Books.Inserts.{any-append}
use pay_fast_processor.Admin.Refunds.{issue_refund}
use pay_fast_processor.Admin.Refunding.{issue_refund-Refunded}
use pay_fast_processor.Admin.Lists.{LedgerRecord, scan_all, scan_ledger, get_recent_ledger_entries}
use pay_fast_processor.Runtime.Rows.{pool_rows_cases}

abbrev pub no_payment : LedgerEntry → Bool
no_payment e = is_null e.payment_id

-- The list ends in an error exactly where a row has no payment; else it has a record for each row.
abbrev pub Scanned : List LedgerEntry → Result Error (List LedgerRecord) → Type 0
Scanned rows r =
    ((any no_payment rows ≡ true) × (r ≡ err (sql null_into_value)))
    ⊎ ((any no_payment rows ≡ false)
        × (records : List LedgerRecord) × (r ≡ ok records)
        × (map (λ e. e.payment_id) rows ≡ map (λ x. some x.payment_id) records)
        × (map (λ e. e.id) rows ≡ map (λ x. x.id) records))

pub scan_ledger-Scanned : (rows : List LedgerEntry) → Scanned rows (scan_all scan_ledger rows)
unfolding scan_all
scan_ledger-Scanned [] = inr (refl, [], refl, refl, refl)
scan_ledger-Scanned (e ∷ rows) = elim (Option-cases e.payment_id) [
  | inl missing ↦ rw missing (inl (refl, refl))
  | inr (p, present) ↦ elim (scan_ledger-Scanned rows) [
    | inl (broken, r) ↦ rw (present, broken, r) (inl (refl, refl))
    | inr (clean, records, r, payments, ids) ↦
        rw (present, clean, r)
          (inr (refl, _, refl, ap (λ l. some p ∷ l) payments, ap (λ l. e.id ∷ l) ids))
  ]
]

or_swap : (a b c : Bool) → (a || (b || c)) ≡ (b || (a || c))
or_swap true true c = refl
or_swap true false c = refl
or_swap false b c = refl

module _ {A : Type 0} (key : A → ℕ) (p : A → Bool) where
  any-insert_desc : (x : A) (l : List A) → any p (insert_desc key x l) ≡ (p x || any p l)
  any-insert_desc x [] = refl
  any-insert_desc x (y ∷ ys) = elim (Bool-cases (leb (key y) (key x))) [
    | inl hit ↦ rw hit refl
    | inr miss ↦ rw (miss, any-insert_desc x ys) (or_swap (p y) (p x) (any p ys))
  ]

  any-order_desc : (l : List A) → any p (order_desc key l) ≡ any p l
  any-order_desc [] = refl
  any-order_desc (x ∷ xs) = any-insert_desc x (order_desc key xs) ∙ rw (any-order_desc xs) refl

take_all : {A : Type 0} (n : ℕ) (l : List A) → length l ≤ n → take n l ≡ l
take_all zero [] h = refl
take_all zero (x ∷ xs) h = ground (arith, h)
take_all (suc n) [] h = refl
take_all (suc n) (x ∷ xs) h = rw (take_all n xs (omega (arith, h))) refl

module _ (env : Env) (w : World) (closed : w.tx ≡ idle) where
  -- The list, where its query succeeds and the connection lasts.
  pub get_recent_ledger_entries-Scanned :
      env.fails w.tick ≡ false
      → env.fails (w.tick + 1) ≡ false
      → Scanned
          (latest (λ e. e.created_at) 50 w.db.ledger_entries)
          (get_recent_ledger_entries env w).0
  unfolding get_recent_ledger_entries ◌>>=◌ wrapping
  get_recent_ledger_entries-Scanned works lasts =
      elim (pool_rows_cases env (λ d. latest (λ e. e.created_at) 50 d.ledger_entries) w closed) [
        | inl broken ↦ cc (broken.0, works)
        | inr e ↦
            rw (e, lasts) (scan_ledger-Scanned (latest (λ e. e.created_at) 50 w.db.ledger_entries))
      ]

listed_null :
    (key : LedgerEntry → ℕ) (l : List LedgerEntry)
    → length l ≤ 50
    → any no_payment l ≡ true
    → any no_payment (latest key 50 l) ≡ true
listed_null key l few found =
    ap (any no_payment)
      (take_all 50 (order_desc key l) (omega (arith, few, length-order_desc key l)))
    ∙ any-order_desc key no_payment l
    ∙ found

or_true : (a b : Bool) → (a || (b || true)) ≡ true
or_true true b = refl
or_true false true = refl
or_true false false = refl

-- Two more entries, the second without a payment.
booked_null :
    (l all : List LedgerEntry) (debited credited : LedgerEntry)
    → all ≡ l ++ debited ∷ credited ∷ []
    → credited.payment_id ≡ none
    → any no_payment all ≡ true
booked_null l all debited credited e n =
    ap (any no_payment) e
    ∙ any-append no_payment l (debited ∷ credited ∷ [])
    ∙ rw n (or_true (any no_payment l) (no_payment debited))

module _ (refunding listing : Env) (merchant_id payment_id : String) (amount : ℤ) (w : World)
    (closed : w.tx ≡ idle) where
  abbrev refunded : World
  refunded = (issue_refund refunding merchant_id payment_id amount w).1

  -- After a refund that succeeded with no transaction open and at most 48 ledger entries, the list of
  -- ledger entries fails where no call does: the refund's own credit has no payment.
  pub refund_breaks_list :
      (issue_refund refunding merchant_id payment_id amount w).0 ≡ ok tt
      → length w.db.ledger_entries ≤ 48
      → listing.fails refunded.tick ≡ false
      → listing.fails (refunded.tick + 1) ≡ false
      → (get_recent_ledger_entries listing refunded).0 ≡ err (sql null_into_value)
  refund_breaks_list done few works lasts =
      let d = issue_refund-Refunded refunding merchant_id payment_id amount w closed done in
      let l = refunded.db.ledger_entries in
      let null_there =
        booked_null w.db.ledger_entries l d.holds.debited d.holds.credited d.holds.entries
          d.holds.unlabelled in
      let short : length l ≤ 50 = omega (
        arith,
        few,
        ap length d.holds.entries,
        length-append w.db.ledger_entries (d.holds.debited ∷ d.holds.credited ∷ []),
      ) in
      elim (get_recent_ledger_entries-Scanned listing refunded d.tx works lasts) [
        | inl (broken, r) ↦ r
        | inr rest ↦ cc (rest.0, listed_null (λ e. e.created_at) l short null_there)
      ]

-- ===== src/Books/Balance.antt =====
-- Balanced books: in every transaction group and currency the debits equal the credits.
use pay_fast_processor.Prelude.{
  String, Bool, true, false, List, [], ◌∷◌, ◌++◌, ◌≡◌, refl, ◌&&◌, ◌==◌, if◌then◌else◌, Bool-cases,
  inl, inr,
}
use pay_fast_processor.Prelude.Int.{ℤ, pos, ◌+ℤ◌, int_laws}
use pay_fast_processor.Store.Schema.{Db, EntryType, debit, credit, LedgerEntry}

abbrev same_type : EntryType → EntryType → Bool
same_type debit debit = true
same_type credit credit = true
same_type _ _ = false

module _ (kind : EntryType) (group currency : String) where
  abbrev share : LedgerEntry → ℤ
  share e =
      if same_type kind e.entry_type && (e.transaction_group_id == group && e.currency == currency)
      then e.amount
      else pos 0

  -- The sum of one side of one group.
  unfoldable pub total : List LedgerEntry → ℤ
  total [] = pos 0
  total (e ∷ l) = share e +ℤ total l

  total-append : (l r : List LedgerEntry) → total (l ++ r) ≡ total l +ℤ total r
  unfolding total
  total-append [] r = omega int_laws
  total-append (e ∷ l) r = rw (total-append l r) (omega int_laws)

abbrev pub IsBalanced : List LedgerEntry → Type 0
IsBalanced l =
    (group currency : String) → total debit group currency l ≡ total credit group currency l

pub nil-IsBalanced : IsBalanced []
unfolding total
nil-IsBalanced group currency = refl

-- A debit and the credit that answers it.
pub record IsPair (d c : LedgerEntry) : Type 0 where
  pub debits : d.entry_type ≡ debit
  pub credits : c.entry_type ≡ credit
  pub group : d.transaction_group_id ≡ c.transaction_group_id
  pub amount : d.amount ≡ c.amount
  pub currency : d.currency ≡ c.currency

total-pair :
    (d c : LedgerEntry) (group currency : String)
    → IsPair d c
    → total debit group currency (d ∷ c ∷ []) ≡ total credit group currency (d ∷ c ∷ [])
unfolding total
total-pair d c group currency p =
    rw (p.debits, p.credits, p.group, p.currency, p.amount)
      (elim (Bool-cases (c.transaction_group_id == group && c.currency == currency)) [
        | inl inside ↦ rw inside (omega int_laws)
        | inr outside ↦ rw outside (omega int_laws)
      ])

pub IsPair-IsBalanced :
    (l : List LedgerEntry) (d c : LedgerEntry)
    → IsPair d c
    → IsBalanced l
    → IsBalanced (l ++ d ∷ c ∷ [])
IsPair-IsBalanced l d c p h group currency = rw (
  total-append debit group currency l (d ∷ c ∷ []),
  total-append credit group currency l (d ∷ c ∷ []),
  h group currency,
  total-pair d c group currency p,
)

-- The books of a database are balanced.
abbrev pub Balanced : Db → Type 0
Balanced d = IsBalanced d.ledger_entries

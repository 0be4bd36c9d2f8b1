-- ===== src/Books/Inserts.antt =====
-- What an insert into the books leads to where it succeeds.
use pay_fast_processor.Prelude.{
  Bool, true, false, List, [], ◌∷◌, ◌++◌, ◌≡◌, refl, any, arith, ◌||◌, String, ◌==◌, ◌&&◌, eq_refl,
  find, some, none, Option, Bool-cases, inl, inr, ap,
}
use pay_fast_processor.Prelude.Int.{ℤ, pos, ltb_ℤ, ◌<ℤ◌}
use pay_fast_processor.Store.Schema.{Db, Account, LedgerEntry}
use pay_fast_processor.Store.Sql.{SqlError, constrained, Met}
use pay_fast_processor.Runtime.Transaction.{Leads}
use pay_fast_processor.Books.{
  account_constraints, entry_constraints, insert_account, insert_ledger_entry,
}

pub Leads-constrained :
    {A : Type 0} (R : A → Db → Type 0) (cs : List (Bool × SqlError)) (a : A) (d : Db)
    → (Met cs → R a d)
    → Leads R (constrained cs (a, d))
Leads-constrained R [] a d h = h tt
Leads-constrained R ((true, e) ∷ cs) a d h = Leads-constrained R cs a d (λ m. h (refl, m))
Leads-constrained R ((false, e) ∷ cs) a d h = tt

pub Leads-insert_account :
    (R : Unit → Db → Type 0) (a : Account) (d : Db)
    → R tt (record d { accounts = d.accounts ++ a ∷ [] })
    → Leads R (insert_account a d)
unfolding insert_account
Leads-insert_account R a d h = Leads-constrained R (account_constraints a d) tt _ (λ _. h)

positive_of_test : (z : ℤ) → ltb_ℤ (pos 0) z ≡ true → pos 0 <ℤ z
positive_of_test z h = ground arith

pub Leads-insert_ledger_entry :
    (R : Unit → Db → Type 0) (e : LedgerEntry) (d : Db)
    → (pos 0 <ℤ e.amount → R tt (record d { ledger_entries = d.ledger_entries ++ e ∷ [] }))
    → Leads R (insert_ledger_entry e d)
unfolding insert_ledger_entry
Leads-insert_ledger_entry R e d h =
    Leads-constrained R (entry_constraints e d) tt _ (λ m. h (positive_of_test e.amount m.0))

pub any-append {ℓ} :
    {A : Type ℓ} (p : A → Bool) (l r : List A) → any p (l ++ r) ≡ any p l || any p r
any-append p [] r = refl
any-append p (x ∷ l) r = ground (arith, any-append p l r)

found_id_of : Option Account → String
found_id_of none = ""
found_id_of (some a) = a.id

found_id : {a b : Account} → ◌≡◌ {A = Option Account} (some b) (some a) → b.id ≡ a.id
unfolding found_id_of
found_id e = ap found_id_of e

-- The row that a query found is there, under its id.
pub any-find :
    (p : Account → Bool) (l : List Account) (a : Account)
    → find p l ≡ some a
    → any (λ b. b.id == a.id && p b) l ≡ true
any-find p [] a e = cc
any-find p (b ∷ l) a e = elim (Bool-cases (p b)) [
  | inl hit ↦ rw hit (rw (found_id {a = a} {b = b} (rw hit at e), eq_refl))
  | inr miss ↦ rw (miss, any-find p l a (rw miss at e)) (ground arith)
]

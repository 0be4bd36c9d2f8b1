-- ===== src/Gateway/Interleaving/Stages.antt =====
-- How far the requests of a key have come together.
use pay_fast_processor.Prelude.{
  ℕ, Bool, true, false, ◌≡◌, refl, ◌⊎◌, inl, inr, Bool-cases, eqb, if◌then◌else◌, arith, ap,
}
use pay_fast_processor.Gateway.Threads.{
  Pc, checking, locking, creating, handling, completing, unlocking, answered,
}

abbrev pub set : (ℕ → Pc) → ℕ → Pc → ℕ → Pc
set f i p j = if eqb j i then p else f j

abbrev pub is_handling : Pc → Bool
is_handling checking = false
is_handling locking = false
is_handling creating = false
is_handling handling = true
is_handling (completing _) = false
is_handling (unlocking _) = false
is_handling (answered _) = false

abbrev pub NoneIn : (ℕ → Pc) → Type 0
NoneIn f = (j : ℕ) → is_handling (f j) ≡ false

abbrev pub OnlyIn : (ℕ → Pc) → ℕ → Type 0
OnlyIn f i = (is_handling (f i) ≡ true) × ((j : ℕ) → eqb j i ≡ false → is_handling (f j) ≡ false)

-- Nobody has entered, or the record is there and one request is about to enter or has entered.
abbrev pub Stage : Bool → (ℕ → Pc) → ℕ → Type 0
Stage kept f n =
    (NoneIn f × (n ≡ 0))
    ⊎ ((kept ≡ true) × (((i : ℕ) × OnlyIn f i × (n ≡ 0)) ⊎ (NoneIn f × (n ≡ 1))))

-- A call that keeps the record, where nobody enters or leaves the handler.
NoneIn-set : (f : ℕ → Pc) (i : ℕ) (p : Pc) → is_handling p ≡ false → NoneIn f → NoneIn (set f i p)
NoneIn-set f i p out empty j = elim (Bool-cases (eqb j i)) [
  | inl same ↦ rw same out
  | inr apart ↦ rw apart (empty j)
]

eqb_lem : (i j : ℕ) → eqb i j ≡ true → i ≡ j
eqb_lem i j h = ground arith

eqb_same : (i : ℕ) → eqb i i ≡ true
eqb_same i = ground arith

eqb_swap : (i j : ℕ) → eqb i j ≡ false → eqb j i ≡ false
eqb_swap i j h = ground arith

differ : (f : ℕ → Pc) (i k : ℕ) → is_handling (f i) ≡ false → OnlyIn f k → eqb k i ≡ false
differ f i k out only = elim (Bool-cases (eqb k i)) [
  | inr apart ↦ apart
  | inl same ↦ cc (ap (λ n. is_handling (f n)) (eqb_lem k i same), out, only.0)
]

OnlyIn-set :
    (f : ℕ → Pc) (i k : ℕ) (p : Pc)
    → is_handling p ≡ false
    → is_handling (f i) ≡ false
    → OnlyIn f k
    → OnlyIn (set f i p) k
OnlyIn-set f i k p out was_out only = (rw (differ f i k was_out only) only.0, others)
  where
    others : (j : ℕ) → eqb j k ≡ false → is_handling (set f i p j) ≡ false
    others j apart = elim (Bool-cases (eqb j i)) [
      | inl same ↦ rw same out
      | inr other ↦ rw other (only.1 j apart)
    ]

pub Stage-quiet :
    (f : ℕ → Pc) (i n : ℕ) (p : Pc) (kept kept' : Bool)
    → is_handling p ≡ false
    → is_handling (f i) ≡ false
    → (kept ≡ true → kept' ≡ true)
    → Stage kept f n
    → Stage kept' (set f i p) n
Stage-quiet f i n p kept kept' out was_out keeps (inl (empty, zero_in)) =
    inl (NoneIn-set f i p out empty, zero_in)
Stage-quiet f i n p kept kept' out was_out keeps (inr (k, inl (j, only, zero_in))) =
    inr (keeps k, inl (j, OnlyIn-set f i j p out was_out only, zero_in))
Stage-quiet f i n p kept kept' out was_out keeps (inr (k, inr (empty, one_in))) =
    inr (keeps k, inr (NoneIn-set f i p out empty, one_in))

-- A request creates the record and enters.
pub OnlyIn-entered : (f : ℕ → Pc) (i : ℕ) → NoneIn f → OnlyIn (set f i handling) i
OnlyIn-entered f i empty = (rw (eqb_same i) refl, λ j apart. rw apart (empty j))

-- The request in the handler leaves it.
pub NoneIn-left :
    (f : ℕ → Pc) (i k : ℕ) (p : Pc)
    → is_handling p ≡ false
    → is_handling (f i) ≡ true
    → OnlyIn f k
    → NoneIn (set f i p)
NoneIn-left f i k p out inside only j = elim (Bool-cases (eqb j i)) [
  | inl same ↦ rw same out
  | inr apart ↦ rw apart (elim (Bool-cases (eqb j k)) [
    | inr other ↦ only.1 j other
    | inl same ↦ elim (Bool-cases (eqb i k)) [
      | inr outside ↦ cc (inside, only.1 i outside)
      | inl also ↦ cc (eqb_lem j k same, eqb_lem i k also, eqb_same k, apart)
    ]
  ])
]

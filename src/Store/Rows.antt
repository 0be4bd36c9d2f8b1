-- ===== src/Store/Rows.antt =====
-- `ORDER BY … DESC LIMIT n` on a table, and what it promises.
use pay_fast_processor.Prelude.{
  ℕ, zero, suc, ◌≤◌, List, [], ◌∷◌, ◌++◌, ◌≡◌, refl, ◌⊎◌, inl, inr, Bool-cases, leb, take, drop,
  length, append-nil, All, arith, if◌then◌else◌,
}
use mathlib.Core.List.{Perm}
use mathlib.Core.List.Perm

module _ {A : Type 0} (key : A → ℕ) where
  abbrev pub insert_desc : A → List A → List A
  insert_desc x [] = x ∷ []
  insert_desc x (y ∷ ys) = if leb (key y) (key x) then x ∷ y ∷ ys else y ∷ insert_desc x ys

  -- Equal keys may stand in any order in PostgreSQL; here the earlier row comes first.
  abbrev pub order_desc : List A → List A
  order_desc [] = []
  order_desc (x ∷ xs) = insert_desc x (order_desc xs)

  abbrev pub latest : ℕ → List A → List A
  latest n rows = take n (order_desc rows)

  abbrev pub Descending : List A → Type 0
  Descending [] = Unit
  Descending (x ∷ xs) = All (λ y. key y ≤ key x) xs × Descending xs

  -- The rows that are read, newest first, and the rest of the table, none of which is newer.
  pub record Latest (n : ℕ) (table read : List A) : Type 0 where
    pub rest : List A
    pub all : Perm (read ++ rest) table
    pub ordered : Descending (read ++ rest)
    pub bound : length read ≤ n
    pub full : (rest ≡ []) ⊎ (length read ≡ n)

  insert_desc-Perm : (x : A) (l : List A) → Perm (insert_desc x l) (x ∷ l)
  insert_desc-Perm x [] = Perm.rfl
  insert_desc-Perm x (y ∷ ys) = elim (Bool-cases (leb (key y) (key x))) [
    | inl hit ↦ rw hit Perm.rfl
    | inr miss ↦ rw miss (Perm.trans (Perm.cons y (insert_desc-Perm x ys)) (Perm.swap x y ys))
  ]

  order_desc-Perm : (l : List A) → Perm (order_desc l) l
  order_desc-Perm [] = Perm.rfl
  order_desc-Perm (x ∷ xs) =
      Perm.trans (insert_desc-Perm x (order_desc xs)) (Perm.cons x (order_desc-Perm xs))

  module _ (x : A) where
    All-below :
        (y : A) (l : List A)
        → key y ≤ key x
        → All (λ z. key z ≤ key y) l
        → All (λ z. key z ≤ key x) l
    All-below y [] h a = tt
    All-below y (z ∷ zs) h (a, below) = (omega (arith, h, a), All-below y zs h below)

    All-insert_desc :
        (y : A) (l : List A)
        → key x ≤ key y
        → All (λ z. key z ≤ key y) l
        → All (λ z. key z ≤ key y) (insert_desc x l)
    All-insert_desc y [] h a = (h, tt)
    All-insert_desc y (z ∷ zs) h (a, below) = elim (Bool-cases (leb (key z) (key x))) [
      | inl hit ↦ rw hit (h, (a, below))
      | inr miss ↦ rw miss (a, All-insert_desc y zs h below)
    ]

    insert_desc-Descending : (l : List A) → Descending l → Descending (insert_desc x l)
    insert_desc-Descending [] d = (tt, tt)
    insert_desc-Descending (y ∷ ys) (a, d) = elim (Bool-cases (leb (key y) (key x))) [
      | inl hit ↦ rw hit ((ground (arith, hit), All-below y ys (ground (arith, hit)) a), (a, d))
      | inr miss ↦
          rw miss (All-insert_desc y ys (ground (arith, miss)) a, insert_desc-Descending ys d)
    ]

  order_desc-Descending : (l : List A) → Descending (order_desc l)
  order_desc-Descending [] = tt
  order_desc-Descending (x ∷ xs) =
      insert_desc-Descending x (order_desc xs) (order_desc-Descending xs)

length-insert_desc :
    {A : Type 0} (key : A → ℕ) (x : A) (l : List A) → length (insert_desc key x l) ≡ suc (length l)
length-insert_desc key x [] = refl
length-insert_desc key x (y ∷ ys) = elim (Bool-cases (leb (key y) (key x))) [
  | inl hit ↦ rw hit refl
  | inr miss ↦ rw miss (omega (arith, length-insert_desc key x ys))
]

pub length-order_desc :
    {A : Type 0} (key : A → ℕ) (l : List A) → length (order_desc key l) ≡ length l
length-order_desc key [] = refl
length-order_desc key (x ∷ xs) =
    omega (arith, length-insert_desc key x (order_desc key xs), length-order_desc key xs)

take-append-drop : {A : Type 0} (n : ℕ) (l : List A) → take n l ++ drop n l ≡ l
take-append-drop zero l = refl
take-append-drop (suc n) [] = refl
take-append-drop (suc n) (x ∷ xs) = rw (take-append-drop n xs) refl

length-take_le : {A : Type 0} (n : ℕ) (l : List A) → length (take n l) ≤ n
length-take_le zero l = omega arith
length-take_le (suc n) [] = omega arith
length-take_le (suc n) (x ∷ xs) = omega (arith, length-take_le n xs)

take_full : {A : Type 0} (n : ℕ) (l : List A) → (drop n l ≡ []) ⊎ (length (take n l) ≡ n)
take_full zero l = inr refl
take_full (suc n) [] = inl refl
take_full (suc n) (x ∷ xs) = elim (take_full n xs) [
  | inl none_left ↦ inl none_left
  | inr all_taken ↦ inr (omega (arith, all_taken))
]

pub latest-Latest :
    {A : Type 0} (key : A → ℕ) (n : ℕ) (table : List A) → Latest key n table (latest key n table)
latest-Latest key n table = record {
  rest = drop n (order_desc key table);
  all = rw (take-append-drop n (order_desc key table)) (order_desc-Perm key table);
  ordered = rw (take-append-drop n (order_desc key table)) (order_desc-Descending key table);
  bound = length-take_le n (order_desc key table);
  full = take_full n (order_desc key table);
}

pub order_desc-Latest :
    {A : Type 0} (key : A → ℕ) (table : List A)
    → Latest key (length table) table (order_desc key table)
order_desc-Latest key table = record {
  rest = [];
  all = rw (append-nil (order_desc key table)) (order_desc-Perm key table);
  ordered = rw (append-nil (order_desc key table)) (order_desc-Descending key table);
  bound = omega (arith, length-order_desc key table);
  full = inl refl;
}

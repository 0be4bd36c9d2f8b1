-- ===== src/Money.antt =====
-- pkg/money/money.go. An `Amount` is an int64.
mod Tests
use pay_fast_processor.Prelude.{
  ℕ, ◌+◌, ◌-◌, ◌%◌, ◌<◌, ◌≤◌, ltb, true, false, ◌≡◌, refl, ◌⊎◌, inl, inr, Bool-cases, arith,
  if◌then◌else◌,
}
use pay_fast_processor.Prelude.Int.{ℤ, pos, negsuc, ◌+ℤ◌, ◌-ℤ◌, ltb_ℤ, ◌<ℤ◌}
use pay_fast_processor.Store.Sql.{Result, ok, err}

pub data AmountError : Type 0 where
  negative_amount : AmountError

-- 2 ^ 63.
abbrev pub half : ℕ
half = 9223372036854775808

-- The int64 of an integer that wraps around: its last 64 bits, in two's complement.
unfoldable pub to_int64 : ℤ → ℤ
to_int64 (pos n) =
    let m = n % 18446744073709551616 in
    if ltb m half then pos m else negsuc (18446744073709551615 - m)
to_int64 (negsuc n) =
    let m = n % 18446744073709551616 in
    if ltb m half then negsuc m else pos (18446744073709551615 - m)

-- `New(val)`.
unfoldable pub new : ℤ → Result AmountError ℤ
new val = if ltb_ℤ val (pos 0) then err negative_amount else ok val

-- `a.Add(b)`.
unfoldable pub add : ℤ → ℤ → ℤ
add a b = to_int64 (a +ℤ b)

-- `a.Subtract(b)`.
unfoldable pub subtract : ℤ → ℤ → Result AmountError ℤ
subtract a b = if ltb_ℤ a b then err negative_amount else ok (to_int64 (a -ℤ b))

sum_lem : (m n : ℕ) → pos m +ℤ pos n ≡ pos (m + n)
unfolding ◌+ℤ◌
sum_lem m n = ground arith

difference_lem : (m n : ℕ) → pos (m + n) -ℤ pos n ≡ pos m
unfolding ◌-ℤ◌
difference_lem m n = ground arith

-- A number below 2 ^ 63 stays, and one from there to 2 ^ 64 becomes negative.
to_int64_low : (n : ℕ) → n < half → to_int64 (pos n) ≡ pos n
unfolding to_int64
to_int64_low n low = ground arith

to_int64_high :
    (n : ℕ) → half ≤ n → n < half + half → to_int64 (pos n) ≡ negsuc (18446744073709551615 - n)
unfolding to_int64
to_int64_high n high low = ground arith

add_fits : (m n : ℕ) → m + n < half → add (pos m) (pos n) ≡ pos (m + n)
unfolding add
add_fits m n fits = rw (sum_lem m n) (to_int64_low (m + n) fits)

add_overflows :
    (m n : ℕ)
    → m < half
    → n < half
    → half ≤ m + n
    → add (pos m) (pos n) ≡ negsuc (18446744073709551615 - (m + n))
unfolding add
add_overflows m n low low2 large =
    rw (sum_lem m n) (to_int64_high (m + n) large (omega (arith, low, low2)))

not_below : (m n : ℕ) → ltb_ℤ (pos (m + n)) (pos n) ≡ false
not_below m n = ground arith

negative_below : (k n : ℕ) → ltb_ℤ (negsuc k) (pos n) ≡ true
negative_below k n = ground arith

subtract_back : (m n : ℕ) → m < half → subtract (pos (m + n)) (pos n) ≡ ok (pos m)
unfolding subtract
subtract_back m n low = rw (not_below m n, difference_lem m n, to_int64_low m low) refl

subtract_negative : (k n : ℕ) → subtract (negsuc k) (pos n) ≡ err negative_amount
unfolding subtract
subtract_negative k n = rw (negative_below k n) refl

-- What becomes of the sum of two amounts.
abbrev pub IsSum : ℕ → ℕ → Type 0
IsSum m n =
    ((m + n < half)
      × (add (pos m) (pos n) ≡ pos (m + n))
      × (subtract (add (pos m) (pos n)) (pos n) ≡ ok (pos m)))
    ⊎ ((half ≤ m + n)
        × (ltb_ℤ (add (pos m) (pos n)) (pos 0) ≡ true)
        × (subtract (add (pos m) (pos n)) (pos n) ≡ err negative_amount))

-- Of two amounts from 0 up to the largest int64, `Add` gives the sum where that is an int64, and
-- `Subtract` then gives the first amount back. Where the sum is larger, `Add` gives a negative
-- amount without an error, and `Subtract` refuses it.
pub add-IsSum : (m n : ℕ) → m < half → n < half → IsSum m n
add-IsSum m n low low2 = elim (Bool-cases (ltb (m + n) half)) [
  | inl fits ↦
      let h : m + n < half = ground (arith, fits) in
      inl (h, add_fits m n h, rw (add_fits m n h) (subtract_back m n low))
  | inr large ↦
      let h : half ≤ m + n = ground (arith, large) in
      let e = add_overflows m n low low2 h in
      inr (h, rw e (negative_below _ 0), rw e (subtract_negative _ n))
]

-- ===== src/Money/Tests.antt =====
-- Amounts.
use pay_fast_processor.Prelude.{◌≡◌, refl, arith}
use pay_fast_processor.Prelude.Int.{pos, negsuc, ◌+ℤ◌}
use pay_fast_processor.Store.Sql.{err}
use pay_fast_processor.Money.{IsSum, add, add-IsSum, new, negative_amount, to_int64}

-- The largest amount and one.
overflows : add (pos 9223372036854775807) (pos 1) ≡ negsuc 9223372036854775807
unfolding add to_int64 ◌+ℤ◌
overflows = refl

refused : new (negsuc 0) ≡ err negative_amount
unfolding new
refused = refl

add-IsSum_example : IsSum 9223372036854775807 1
add-IsSum_example = add-IsSum 9223372036854775807 1 (omega arith) (omega arith)

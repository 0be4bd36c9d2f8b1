-- ===== src/Store/Sql.antt =====
-- A statement on the database: it returns rows and the database after it, or an error.
use pay_fast_processor.Prelude.{Bool, true, false, List, [], ◌∷◌, ◌≡◌}
use pay_fast_processor.Store.Schema.{Db}

-- What a statement reports: an empty `QueryRow`, a violated constraint of migrations/, or the rest
-- (a lost connection, a deadline, a value too long for its column), which is `unavailable`.
pub data SqlError : Type 0 where
  no_rows unavailable : SqlError
  unique_violation foreign_key_violation check_violation not_null_violation : SqlError
  tx_aborted tx_closed : SqlError
  null_into_value : SqlError

pub data Result {ℓ} (E A : Type ℓ) : Type ℓ where
  ok : A → Result E A
  err : E → Result E A

abbrev pub Stmt : Type 0 → Type 0
Stmt A = Db → Result SqlError (A × Db)

abbrev pub Query : Type 0 → Type 0
Query A = Db → Result SqlError A

infixl 5 ◌>>=◌ ◌>>◌
abbrev pub ◌>>=◌ {ℓ} : {E A B : Type ℓ} → Result E A → (A → Result E B) → Result E B
ok a >>= f = f a
err e >>= f = err e

abbrev pub ◌>>◌ {ℓ} : {E A B : Type ℓ} → Result E A → Result E B → Result E B
m >> k = m >>= λ _. k

-- A statement that the schema's constraints allow or refuse; the first that fails is reported.
abbrev pub constrained : {A : Type 0} → List (Bool × SqlError) → A → Result SqlError A
constrained [] a = ok a
constrained ((true, e) ∷ cs) a = constrained cs a
constrained ((false, e) ∷ cs) a = err e

abbrev pub Met : List (Bool × SqlError) → Type 0
Met [] = Unit
Met ((b, e) ∷ cs) = (b ≡ true) × Met cs

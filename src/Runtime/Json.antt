-- ===== src/Runtime/Json.antt =====
-- JSON objects as `encoding/json` reads them into a struct: an absent field is the zero value, null
-- too, and a field of another type is an error. Keys are matched exactly, and an object lists each once.
use pay_fast_processor.Prelude.{String, Option, none, some, List, [], ◌∷◌, ◌==◌, if◌then◌else◌}
use pay_fast_processor.Prelude.Int.{ℤ, pos}
pub use pay_fast_processor.Store.Value.{Value, text, number, texts, null, Json}
use pay_fast_processor.Store.Sql.{SqlError, Result, ok, err}

-- An error of Go: its text, or another error under a text (`fmt.Errorf` with `%w`).
pub data Error : Type 0 where
  message : String → Error
  sql : SqlError → Error
  unmarshal broker cache_down : Error
  wrap : String → Error → Error

abbrev pub field : String → Json → Option Value
field k [] = none
field k ((j, v) ∷ o) = if j == k then some v else field k o

abbrev as_text : Option Value → Result Error String
as_text none = ok ""
as_text (some (text s)) = ok s
as_text (some null) = ok ""
as_text (some (number _)) = err unmarshal
as_text (some (texts _)) = err unmarshal

abbrev as_number : Option Value → Result Error ℤ
as_number none = ok (pos 0)
as_number (some null) = ok (pos 0)
as_number (some (text _)) = err unmarshal
as_number (some (number n)) = ok n
as_number (some (texts _)) = err unmarshal

abbrev as_texts : Option Value → Result Error (List String)
as_texts none = ok []
as_texts (some null) = ok []
as_texts (some (text _)) = err unmarshal
as_texts (some (number _)) = err unmarshal
as_texts (some (texts l)) = ok l

abbrev pub text_field : String → Json → Result Error String
text_field k o = as_text (field k o)

abbrev pub number_field : String → Json → Result Error ℤ
number_field k o = as_number (field k o)

abbrev pub texts_field : String → Json → Result Error (List String)
texts_field k o = as_texts (field k o)

-- ===== src/Store/Value.antt =====
-- JSON objects: the messages, the bodies of requests and answers, and the JSONB columns.
use pay_fast_processor.Prelude.{String, List}
use pay_fast_processor.Prelude.Int.{ℤ}

pub data Value : Type 0 where
  text : String → Value
  number : ℤ → Value
  texts : List String → Value
  null : Value

abbrev pub Json : Type 0
Json = List (String × Value)

-- ===== src/Runtime/World.antt =====
-- The state that the services share, and the choices of their environment.
use pay_fast_processor.Prelude.{ℕ, String, Bool, Option, none, some, List}
use pay_fast_processor.Prelude.Int.{ℤ}
use pay_fast_processor.Store.Schema.{Db}
use pay_fast_processor.Store.Sql.{SqlError}
use pay_fast_processor.Runtime.Json.{Json}

-- What the code calls and this repository does not hold, at the n-th call: whether a call fails,
-- the text of a new ULID, `time.Now().UnixNano()` in decimal, and a random
-- number, the status that an HTTP server answers, `none` where it does not, the seconds until it
-- does, and which texts are URLs; a time as RFC 3339 and
-- an amount of cents as a decimal fraction; and the texts of errors that other code makes.
pub record Env : Type 0 where
  pub fails : ℕ → Bool
  pub ulid : ℕ → String
  pub unix_nano : ℕ → String
  pub random : ℕ → ℕ
  pub answer : ℕ → Option ℕ
  pub latency : ℕ → ℕ
  pub valid_url : String → Bool
  pub time_text : ℕ → String
  pub cents_text : ℤ → String
  pub sql_text : SqlError → String
  pub unmarshal_text : String
  pub broker_text : String
  pub cache_text : String
  pub file_text : String

-- A Kafka message: its key, and its value, `none` where that is no JSON object.
pub record Message : Type 0 where
  pub key : String
  pub value : Option Json

-- A webhook, which is kept with the second at which it is sent: the URL, the header
-- "X-Payment-Signature", and the payload.
pub record Post : Type 0 where
  pub url : String
  pub signature : String
  pub payload : Json

-- A line of an archive: the object `{"event_time": …, "payment": …}`.
pub record ArchiveRecord : Type 0 where
  pub event_time : String
  pub payment : Json

-- The handler's transaction: `open_at d` and `aborted_at d` go back to `d` on rollback. A
-- PostgreSQL transaction in which a statement has failed refuses all later ones.
pub data Tx : Type 0 where
  idle : Tx
  open_at : Db → Tx
  aborted_at : Db → Tx

abbrev pub snapshot : Tx → Option Db
snapshot idle = none
snapshot (open_at d) = some d
snapshot (aborted_at d) = some d

pub data CacheValue : Type 0 where
  locked : CacheValue
  counter : ℕ → CacheValue

-- A Redis entry, and the second at which it expires.
pub record CacheEntry : Type 0 where
  pub value : CacheValue
  pub expires : Option ℕ

pub record World : Type 0 where
  pub db : Db
  pub tx : Tx
  pub cache : List (String × CacheEntry)
  pub payment_events : List Message
  pub webhook_events : List Message
  pub posts : List (ℕ × Post)
  pub archives : List (String × List ArchiveRecord)
  pub now : ℕ
  pub tick : ℕ

-- ===== src/Exec/Env.antt =====
-- What an execution reads and does not change: the options and the target of an `Executor`
-- (path/exec/exec.go), and what lies outside the package.
use sqljson.Prelude.{ℕ, Bool, Str, List, Option}
use sqljson.Prelude.Int.{ℤ}
use sqljson.Golang.{Floats}
use sqljson.Json.{Value, Time, DateTime}

-- The operations of path/types that the executor calls, in the time zone of the context. Those named
-- tz_ are of TimestampTZ, where another type has one of the same name.
pub record Times : Type 0 where
  pub compare : Time → Time → ℤ
  pub compare_tz : Time → Time → ℤ
  pub utc : Time → Time
  pub to_date : Time → Time
  pub tz_to_date : Time → Time
  pub to_time : Time → Time
  pub tz_to_time : Time → Time
  pub to_time_tz : Time → Time
  pub date_to_timestamp : Time → Time
  pub to_timestamp : Time → Time
  pub date_to_timestamp_tz : Time → Time
  pub to_timestamp_tz : Time → Time
  pub time_to_time_tz : Time → Time
  pub format : DateTime → Str
  -- ParseTime: the precision is -1 where there is none
  pub parse : Str → ℤ → Option DateTime

pub record Env : Type 0 where
  pub vars : List (Str × Value)
  -- the address of the map of variables
  pub vars_address : ℕ
  pub root : Value
  pub lax : Bool
  pub use_tz : Bool
  -- whether the context is done when it is polled for the n-th time
  pub done : ℕ → Bool
  -- the address of the n-th object that `.keyvalue()` makes
  pub address : ℕ → ℕ
  -- whether the regular expression, with its flags, matches the text
  pub matches : Str → ℕ → Str → Bool
  pub floats : Floats
  pub times : Times

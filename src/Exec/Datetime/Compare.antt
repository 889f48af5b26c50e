-- ===== src/Exec/Datetime/Compare.antt =====
-- path/exec/datetime.go: comparison of dates and times of two types.
use sqljson.Prelude.{Bool, if◌then◌else◌}
use sqljson.Prelude.Int.{ℤ, negsuc, negate}
use sqljson.Json.{Value, datetime, DateTime, Time, date, time, time_tz, timestamp, timestamp_tz}
use sqljson.Exec.Error.{execution, invalid, Result, value, error, tz_required, unknown_datetime}
use sqljson.Exec.Env.{Times}

-- -2: the types cannot be compared
abbrev incomparable : Result ℤ
incomparable = value (negsuc 1)

module _ (T : Times) (use_tz : Bool) where
  -- a comparison that needs the time zone
  abbrev if_tz : ℤ → Result ℤ
  if_tz cmp = if use_tz then value cmp else error (execution tz_required)

  unfoldable pub compare_date : Time → DateTime → Result ℤ
  compare_date t (date u) = value (T.compare t u)
  compare_date t (timestamp u) = value (T.compare t u)
  compare_date t (timestamp_tz u) = if_tz (T.compare t u)
  compare_date t _ = incomparable

  unfoldable pub compare_time : Time → DateTime → Result ℤ
  unfolding negate
  compare_time t (time u) = value (T.compare t u)
  compare_time t (time_tz u) = if_tz (negate (T.compare_tz u (T.time_to_time_tz t)))
  compare_time t _ = incomparable

  unfoldable pub compare_time_tz : Time → DateTime → Result ℤ
  compare_time_tz t (time u) = if_tz (T.compare_tz t (T.time_to_time_tz u))
  compare_time_tz t (time_tz u) = value (T.compare_tz t u)
  compare_time_tz t _ = incomparable

  unfoldable pub compare_timestamp : Time → DateTime → Result ℤ
  compare_timestamp t (date u) = value (T.compare t u)
  compare_timestamp t (timestamp u) = value (T.compare t u)
  compare_timestamp t (timestamp_tz u) = if_tz (T.compare (T.utc t) u)
  compare_timestamp t _ = incomparable

  unfoldable pub compare_timestamp_tz : Time → DateTime → Result ℤ
  compare_timestamp_tz t (date u) = if_tz (T.compare t (T.utc u))
  compare_timestamp_tz t (timestamp u) = if_tz (T.compare t (T.utc u))
  compare_timestamp_tz t (timestamp_tz u) = value (T.compare t u)
  compare_timestamp_tz t _ = incomparable

  compare_known : DateTime → DateTime → Result ℤ
  unfolding compare_date compare_time compare_time_tz compare_timestamp compare_timestamp_tz
  compare_known (date t) u = compare_date t u
  compare_known (time t) u = compare_time t u
  compare_known (time_tz t) u = compare_time_tz t u
  compare_known (timestamp t) u = compare_timestamp t u
  compare_known (timestamp_tz t) u = compare_timestamp_tz t u

  unfoldable pub compare_datetime : DateTime → Value → Result ℤ
  unfolding compare_known
  compare_datetime t (datetime u) = compare_known t u
  compare_datetime t _ = error (invalid unknown_datetime)

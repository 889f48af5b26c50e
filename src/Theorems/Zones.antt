-- ===== src/Theorems/Zones.antt =====
-- The rule of path/exec/datetime.go that no conversion guesses a time zone without the option for it.
use sqljson.Prelude.{Bool, true, false, ◌≡◌, ◌≢◌, refl, ◌⊎◌, inl, inr, if◌then◌else◌}
use sqljson.Prelude.Int.{ℤ, negsuc}
use sqljson.Json.{datetime, DateTime, date, time, time_tz, timestamp, timestamp_tz}
use sqljson.Ast.{UnaryOperator}
use sqljson.Exec.Error.{Result, value, error, execution, tz_required}
use sqljson.Exec.Env.{Times}
use sqljson.Exec.Datetime.{
  cast, cast_date, cast_time, cast_time_tz, cast_timestamp, cast_timestamp_tz,
}
use sqljson.Exec.Datetime.Compare.{compare_datetime}
use sqljson.Theorems.Subscripts.{IsValueIn}

abbrev pub has_zone : DateTime → Bool
has_zone (time_tz _) = true
has_zone (timestamp_tz _) = true
has_zone _ = false

-- the type that a method converts to
abbrev pub IsOfType : UnaryOperator → DateTime → Type 0
IsOfType UnaryOperator.date (date _) = Unit
IsOfType UnaryOperator.time (time _) = Unit
IsOfType UnaryOperator.time_tz (time_tz _) = Unit
IsOfType UnaryOperator.timestamp (timestamp _) = Unit
IsOfType UnaryOperator.timestamp_tz (timestamp_tz _) = Unit
IsOfType UnaryOperator.date_time _ = Unit
IsOfType _ _ = ⊥

abbrev pub IsCast : Bool → UnaryOperator → DateTime → DateTime → Type 0
IsCast use_tz op t u = IsOfType op u × ((use_tz ≡ true) ⊎ (has_zone u ≡ has_zone t))

-- through the test of the option
zoned :
    (use_tz : Bool) (op : UnaryOperator) (t u : DateTime)
    → IsOfType op u
    → IsValueIn (IsCast use_tz op t) (if use_tz then value u else error (execution tz_required))
zoned true op t u h = (h, inl refl)
zoned false op t u h = tt

cast_date-IsCast :
    (T : Times) (use_tz : Bool) (t : DateTime)
    → IsValueIn (IsCast use_tz UnaryOperator.date t) (cast_date T use_tz t)
unfolding cast_date
cast_date-IsCast T z (date t) = (tt, inr refl)
cast_date-IsCast T z (timestamp t) = (tt, inr refl)
cast_date-IsCast T z (timestamp_tz t) =
    zoned z UnaryOperator.date (timestamp_tz t) (date (T.tz_to_date t)) tt
cast_date-IsCast T z _ = tt

cast_time-IsCast :
    (T : Times) (use_tz : Bool) (t : DateTime)
    → IsValueIn (IsCast use_tz UnaryOperator.time t) (cast_time T use_tz t)
unfolding cast_time
cast_time-IsCast T z (date t) = tt
cast_time-IsCast T z (time t) = (tt, inr refl)
cast_time-IsCast T z (time_tz t) = zoned z UnaryOperator.time (time_tz t) (time (T.to_time t)) tt
cast_time-IsCast T z (timestamp t) = (tt, inr refl)
cast_time-IsCast T z (timestamp_tz t) =
    zoned z UnaryOperator.time (timestamp_tz t) (time (T.tz_to_time t)) tt

cast_time_tz-IsCast :
    (T : Times) (use_tz : Bool) (t : DateTime)
    → IsValueIn (IsCast use_tz UnaryOperator.time_tz t) (cast_time_tz T use_tz t)
unfolding cast_time_tz
cast_time_tz-IsCast T z (time t) =
    zoned z UnaryOperator.time_tz (time t) (time_tz (T.time_to_time_tz t)) tt
cast_time_tz-IsCast T z (time_tz t) = (tt, inr refl)
cast_time_tz-IsCast T z (timestamp_tz t) = (tt, inr refl)
cast_time_tz-IsCast T z _ = tt

cast_timestamp-IsCast :
    (T : Times) (use_tz : Bool) (t : DateTime)
    → IsValueIn (IsCast use_tz UnaryOperator.timestamp t) (cast_timestamp T use_tz t)
unfolding cast_timestamp
cast_timestamp-IsCast T z (date t) = (tt, inr refl)
cast_timestamp-IsCast T z (timestamp t) = (tt, inr refl)
cast_timestamp-IsCast T z (timestamp_tz t) =
    zoned z UnaryOperator.timestamp (timestamp_tz t) (timestamp (T.to_timestamp t)) tt
cast_timestamp-IsCast T z _ = tt

cast_timestamp_tz-IsCast :
    (T : Times) (use_tz : Bool) (t : DateTime)
    → IsValueIn (IsCast use_tz UnaryOperator.timestamp_tz t) (cast_timestamp_tz T use_tz t)
unfolding cast_timestamp_tz
cast_timestamp_tz-IsCast T z (date t) =
    zoned z UnaryOperator.timestamp_tz (date t) (timestamp_tz (T.date_to_timestamp_tz t)) tt
cast_timestamp_tz-IsCast T z (timestamp t) =
    zoned z UnaryOperator.timestamp_tz (timestamp t) (timestamp_tz (T.to_timestamp_tz t)) tt
cast_timestamp_tz-IsCast T z (timestamp_tz t) = (tt, inr refl)
cast_timestamp_tz-IsCast T z _ = tt

-- A date or time that a method returns is of the method's type, and without the option for time
-- zones it has a zone if and only if the parsed value has one.
pub cast-IsCast :
    (T : Times) (use_tz : Bool) (op : UnaryOperator) (t : DateTime)
    → IsValueIn (IsCast use_tz op t) (cast T use_tz op t)
unfolding cast
cast-IsCast T z UnaryOperator.date_time t = (tt, inr refl)
cast-IsCast T z UnaryOperator.date t = cast_date-IsCast T z t
cast-IsCast T z UnaryOperator.time t = cast_time-IsCast T z t
cast-IsCast T z UnaryOperator.time_tz t = cast_time_tz-IsCast T z t
cast-IsCast T z UnaryOperator.timestamp t = cast_timestamp-IsCast T z t
cast-IsCast T z UnaryOperator.timestamp_tz t = cast_timestamp_tz-IsCast T z t
cast-IsCast T z _ t = tt

-- the two ways in which a comparison gives no order
abbrev pub IsRefused : Result ℤ → Type 0
IsRefused r = (r ≡ error (execution tz_required)) ⊎ (r ≡ value (negsuc 1))

-- Without the option for time zones, a value with a zone and one without are never put in an order:
-- the comparison fails and asks for the option, or says that the types cannot be compared.
pub compare_datetime-IsRefused :
    (T : Times) (t u : DateTime)
    → has_zone t ≢ has_zone u
    → IsRefused (compare_datetime T false t (datetime u))
unfolding compare_datetime
compare_datetime-IsRefused T (date t) (date u) h = absurd (h refl)
compare_datetime-IsRefused T (date t) (time u) h = absurd (h refl)
compare_datetime-IsRefused T (date t) (time_tz u) h = inr refl
compare_datetime-IsRefused T (date t) (timestamp u) h = absurd (h refl)
compare_datetime-IsRefused T (date t) (timestamp_tz u) h = inl refl
compare_datetime-IsRefused T (time t) (date u) h = absurd (h refl)
compare_datetime-IsRefused T (time t) (time u) h = absurd (h refl)
compare_datetime-IsRefused T (time t) (time_tz u) h = inl refl
compare_datetime-IsRefused T (time t) (timestamp u) h = absurd (h refl)
compare_datetime-IsRefused T (time t) (timestamp_tz u) h = inr refl
compare_datetime-IsRefused T (time_tz t) (date u) h = inr refl
compare_datetime-IsRefused T (time_tz t) (time u) h = inl refl
compare_datetime-IsRefused T (time_tz t) (time_tz u) h = absurd (h refl)
compare_datetime-IsRefused T (time_tz t) (timestamp u) h = inr refl
compare_datetime-IsRefused T (time_tz t) (timestamp_tz u) h = absurd (h refl)
compare_datetime-IsRefused T (timestamp t) (date u) h = absurd (h refl)
compare_datetime-IsRefused T (timestamp t) (time u) h = absurd (h refl)
compare_datetime-IsRefused T (timestamp t) (time_tz u) h = inr refl
compare_datetime-IsRefused T (timestamp t) (timestamp u) h = absurd (h refl)
compare_datetime-IsRefused T (timestamp t) (timestamp_tz u) h = inl refl
compare_datetime-IsRefused T (timestamp_tz t) (date u) h = inl refl
compare_datetime-IsRefused T (timestamp_tz t) (time u) h = inr refl
compare_datetime-IsRefused T (timestamp_tz t) (time_tz u) h = absurd (h refl)
compare_datetime-IsRefused T (timestamp_tz t) (timestamp u) h = inl refl
compare_datetime-IsRefused T (timestamp_tz t) (timestamp_tz u) h = absurd (h refl)

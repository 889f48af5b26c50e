-- ===== src/Types.antt =====
-- Dates and times (path/types). A time.Time is an instant in nanoseconds and an offset from UTC in
-- seconds, and a civil time the instant at which a clock in UTC shows it. Zero is the start of 1970.
pub mod Encoding
use sqljson.Prelude.{
  ℕ, zero, suc, ◌-◌, ◌/◌, ◌%◌, ◌^◌, ◌+◌, ◌*◌, Str, String, bytes, Option, none, some, List, [], ◌∷◌,
  if◌then◌else◌,
}
use sqljson.Prelude.Int.{ℤ, pos, negsuc, ◌+ℤ◌, ◌-ℤ◌, ◌*ℤ◌, ltb_ℤ}
use sqljson.Json.{Time, DateTime, date, time, time_tz, timestamp, timestamp_tz}
use sqljson.Exec.Env.{Times}

abbrev pub day : ℕ
day = 86400000000000

-- The first of January of the year 0, on which NewTime and NewTimeTZ put a time, in days.
abbrev pub year_zero : ℤ
year_zero = negsuc 719527

-- The remainder of a division by d, which is not zero; it is never negative.
unfoldable pub modulo : ℤ → ℕ → ℕ
modulo (pos n) d = n % d
modulo (negsuc n) d = d - suc (n % d)

-- The greatest multiple of d that is not above the number.
unfoldable pub floor_to : ℤ → ℕ → ℤ
unfolding modulo
floor_to i d = i -ℤ pos (modulo i d)

abbrev pub seconds : ℤ → ℤ
seconds z = z *ℤ pos 1000000000

-- What the clock shows: Year() to Nanosecond().
unfoldable pub civil : Time → ℤ
civil t = t.instant +ℤ seconds t.zone

-- The date that a civil time shows, Year(), Month() and Day(), as the number of days since 1970.
unfoldable pub day_of : ℤ → ℤ
day_of (pos n) = pos (n / day)
day_of (negsuc n) = negsuc (n / day)

-- Hour(), Minute(), Second() and Nanosecond() of a civil time
unfoldable pub hour : ℤ → ℕ
unfolding modulo
hour c = modulo c day / 3600000000000

unfoldable pub minute : ℤ → ℕ
unfolding modulo
minute c = modulo c day / 60000000000 % 60

unfoldable pub second : ℤ → ℕ
unfolding modulo
second c = modulo c day / 1000000000 % 60

unfoldable pub nanosecond : ℤ → ℕ
unfolding modulo
nanosecond c = modulo c day % 1000000000

-- The civil time of a date, an hour, a minute, a second and a nanosecond.
unfoldable pub civil_time : ℤ → ℕ → ℕ → ℕ → ℕ → ℤ
civil_time d h m s n =
    d *ℤ pos day +ℤ pos (h * 3600000000000 + m * 60000000000 + s * 1000000000 + n)

-- That of the date of a civil time, at midnight; of another date and its time of day; and of both.
unfoldable pub midnight : ℤ → ℤ
unfolding civil_time day_of
midnight c = civil_time (day_of c) 0 0 0 0

unfoldable pub at_date : ℤ → ℤ → ℤ
unfolding civil_time hour minute second nanosecond
at_date d c = civil_time d (hour c) (minute c) (second c) (nanosecond c)

-- time.Date of a civil time, in a zone with a fixed offset.
unfoldable pub fixed : ℤ → ℤ → Time
fixed c z = record { instant = c -ℤ seconds z; zone = z }

-- The time zone of the context: its offset at an instant, and the one that time.Date chooses for a
-- civil time. With it the day of time.Now on the clock of the system, in days since 1970, and time.Parse and Format.
pub record Zone : Type 0 where
  pub offset : ℤ → ℤ
  pub civil_offset : ℤ → ℤ
  pub today : ℤ
  pub parse_layout : Str → Str → Option Time
  pub format_layout : Str → Time → Str

-- NewDate
unfoldable pub new_date : Time → Time
unfolding civil fixed midnight
new_date t = fixed (midnight (civil t)) (pos 0)

-- NewTime
unfoldable pub new_time : Time → Time
unfolding civil fixed at_date
new_time t = fixed (at_date year_zero (civil t)) (pos 0)

-- NewTimeTZ, which keeps the offset
unfoldable pub new_time_tz : Time → Time
unfolding civil fixed at_date
new_time_tz t = fixed (at_date year_zero (civil t)) t.zone

-- NewTimestamp
unfoldable pub new_timestamp : Time → Time
unfolding civil fixed at_date day_of
new_timestamp t = fixed (at_date (day_of (civil t)) (civil t)) (pos 0)

-- NewTimestampTZ, which keeps the offset
unfoldable pub new_timestamp_tz : Time → Time
unfolding civil fixed at_date day_of
new_timestamp_tz t = fixed (at_date (day_of (civil t)) (civil t)) t.zone

-- t.UTC()
abbrev pub in_utc : Time → Time
in_utc t = record { instant = t.instant; zone = pos 0 }

-- time.Time.Compare
unfoldable pub compare_instants : Time → Time → ℤ
compare_instants t u =
    if ltb_ℤ t.instant u.instant
    then negsuc 0
    else if ltb_ℤ u.instant t.instant
    then pos 1
    else pos 0

-- off1 > off2, off1 < off2
unfoldable pub compare_offsets : Time → Time → ℤ
compare_offsets t u =
    if ltb_ℤ u.zone t.zone then negsuc 0 else if ltb_ℤ t.zone u.zone then pos 1 else pos 0

-- cmp, unless it is 0
abbrev pub or_else : ℤ → ℤ → ℤ
or_else (pos zero) b = b
or_else a b = a

-- (*TimeTZ).Compare
unfoldable pub compare_zoned : Time → Time → ℤ
unfolding compare_instants compare_offsets
compare_zoned t u = or_else (compare_instants (in_utc t) (in_utc u)) (compare_offsets t u)

-- offsetOnlyTimeFor keeps the instant and the offset. adjustPrecision: Round to a power of ten of nanoseconds, half up.
unfoldable pub adjust_precision : ℤ → Time → Time
unfolding floor_to
adjust_precision (negsuc p) t = t
adjust_precision (pos p) t =
    let d : ℕ = 10 ^ (9 - p) in
    record { instant = floor_to (t.instant +ℤ pos (d / 2)) d; zone = t.zone }

-- A loop over layouts, with what is done behind it.
unfoldable pub first_layout :
    (Str → Option Time) → (Time → DateTime) → List String → Option DateTime → Option DateTime
first_layout parse make [] rest = rest
first_layout parse make (l ∷ ls) rest = elim (parse (bytes l)) [
  | some t ↦ some (make t)
  | none ↦ first_layout parse make ls rest
]

module _ (Z : Zone) where
  -- t.In(TZFromContext(ctx))
  unfoldable pub in_zone : Time → Time
  in_zone t = record { instant = t.instant; zone = Z.offset t.instant }

  -- time.Date of a civil time in the time zone of the context
  unfoldable pub at_civil : ℤ → Time
  unfolding fixed
  at_civil c = fixed c (Z.civil_offset c)

  -- (*Date).ToTimestampTZ
  unfoldable pub date_to_zone : Time → Time
  unfolding new_timestamp_tz at_civil midnight civil
  date_to_zone t = new_timestamp_tz (at_civil (midnight (civil t)))

  -- (*Time).ToTimeTZ
  unfoldable pub time_to_zone : Time → Time
  unfolding new_time_tz at_civil at_date civil
  time_to_zone t = new_time_tz (at_civil (at_date Z.today (civil t)))

  -- (*Timestamp).ToTimestampTZ
  unfoldable pub timestamp_to_zone : Time → Time
  unfolding new_timestamp_tz at_civil at_date day_of civil
  timestamp_to_zone t = new_timestamp_tz (at_civil (at_date (day_of (civil t)) (civil t)))

  -- The methods of TimestampTZ
  unfoldable pub zone_to_date : Time → Time
  unfolding new_date in_zone
  zone_to_date t = new_date (in_zone t)

  unfoldable pub zone_to_time : Time → Time
  unfolding new_time in_zone
  zone_to_time t = new_time (in_zone t)

  unfoldable pub zone_to_timestamp : Time → Time
  unfolding new_timestamp in_zone
  zone_to_timestamp t = new_timestamp (in_zone t)

  unfoldable pub zone_to_time_tz : Time → Time
  unfolding new_time_tz in_zone
  zone_to_time_tz t = new_time_tz (in_zone t)

  -- ParseTime
  unfoldable pub parse_time : Str → ℤ → Option DateTime
  unfolding new_date new_time new_time_tz new_timestamp new_timestamp_tz adjust_precision
      first_layout
  parse_time src precision =
      let parse : Str → Option Time = λ layout. Z.parse_layout layout src in
      let round : Time → Time = adjust_precision precision in
      first_layout parse (λ t. date (new_date t)) ("2006-01-02" ∷ [])
        (first_layout parse (λ t. time_tz (new_time_tz (round t)))
          ("15:04:05Z07" ∷ "15:04:05Z07:00" ∷ [])
          (first_layout parse (λ t. time (new_time (round t))) ("15:04:05" ∷ [])
            (first_layout parse (λ t. timestamp_tz (new_timestamp_tz (round t)))
              ("2006-01-02T15:04:05Z07" ∷ "2006-01-02 15:04:05Z07" ∷ "2006-01-02T15:04:05Z07:00"
                ∷ "2006-01-02 15:04:05Z07:00" ∷ [])
              (first_layout parse (λ t. timestamp (new_timestamp (round t)))
                ("2006-01-02T15:04:05" ∷ "2006-01-02 15:04:05" ∷ []) none))))

  -- The String methods
  unfoldable pub type_string : DateTime → Str
  type_string (date t) = Z.format_layout (bytes "2006-01-02") t
  type_string (time t) = Z.format_layout (bytes "15:04:05.999999999") t
  type_string (time_tz t) = Z.format_layout (bytes "15:04:05.999999999-07:00") t
  type_string (timestamp t) = Z.format_layout (bytes "2006-01-02T15:04:05.999999999") t
  type_string (timestamp_tz t) = Z.format_layout (bytes "2006-01-02T15:04:05.999999999-07:00") t

  -- The methods of the types, as the executor calls them.
  unfoldable pub times_in : Times
  unfolding new_date new_time new_timestamp compare_instants compare_zoned parse_time type_string
      date_to_zone time_to_zone timestamp_to_zone zone_to_date zone_to_time zone_to_timestamp
      zone_to_time_tz
  times_in = record {
    compare = compare_instants;
    compare_tz = compare_zoned;
    utc = in_utc;
    to_date = new_date;
    tz_to_date = zone_to_date;
    to_time = new_time;
    tz_to_time = zone_to_time;
    to_time_tz = zone_to_time_tz;
    date_to_timestamp = new_timestamp;
    to_timestamp = zone_to_timestamp;
    date_to_timestamp_tz = date_to_zone;
    to_timestamp_tz = timestamp_to_zone;
    time_to_time_tz = time_to_zone;
    format = type_string;
    parse = parse_time;
  }

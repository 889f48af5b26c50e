-- ===== src/Types/Encoding.antt =====
-- MarshalJSON and UnmarshalJSON of path/types.
use sqljson.Prelude.{
  ℕ, zero, suc, ◌-◌, Bool, ◌||◌, Str, String, bytes, Option, none, some, [], ◌∷◌, ◌++◌, nat_eq, ltb,
  length, if◌then◌else◌,
}
use sqljson.Json.{Time, DateTime}
use sqljson.Types.{Zone, new_date, new_time, new_timestamp, type_string}

-- What UnmarshalJSON does: it assigns a value, it returns an error, or it panics.
pub data Decoded : Type 0 where
  decoded : Time → Decoded
  refused panicked : Decoded

-- data[1:len(data)-1]
abbrev all_but_last : ℕ → Str → Str
all_but_last c [] = []
all_but_last c (d ∷ s) = c ∷ all_but_last d s

abbrev pub unquoted : Str → Option Str
unquoted [] = none
unquoted (c ∷ []) = none
unquoted (c ∷ d ∷ s) = some (all_but_last d s)

-- str[n]
abbrev pub byte_at : ℕ → Str → Option ℕ
byte_at n [] = none
byte_at zero (c ∷ s) = some c
byte_at (suc n) (c ∷ s) = byte_at n s

-- str[size-place]; an index below zero panics too
abbrev pub byte_before : ℕ → Str → Option ℕ
byte_before place s = if ltb (length s) place then none else byte_at (length s - place) s

abbrev is_sign : ℕ → Bool
is_sign c = nat_eq c b'-' || nat_eq c b'+'

-- a case of the switch: str[size-place] == '-' || str[size-place] == '+'
abbrev pub if_sign : Option ℕ → Option String → Option String → Option String
if_sign none there otherwise = none
if_sign (some c) there otherwise = if is_sign c then there else otherwise

-- The switch of (*TimeTZ).UnmarshalJSON; `none` is a panic.
unfoldable pub time_tz_layout : Str → Option String
time_tz_layout s =
    if_sign (byte_before 9 s) (some "15:04:05.999999999Z07:00:00")
      (if_sign (byte_before 6 s) (some "15:04:05.999999999Z07:00") (some "15:04:05.999999999Z07"))

-- The switch of (*TimestampTZ).UnmarshalJSON, with its guards on the size.
unfoldable pub timestamp_tz_layout : Str → Option String
timestamp_tz_layout s =
    let hours : Option String = some "2006-01-02T15:04:05.999999999Z07" in
    let minutes : Option String =
      if ltb (length s) 6
      then hours
      else if_sign (byte_before 6 s) (some "2006-01-02T15:04:05.999999999Z07:00") hours in
    if ltb (length s) 9
    then minutes
    else if_sign (byte_before 9 s) (some "2006-01-02T15:04:05.999999999Z07:00:00") minutes

module _ (Z : Zone) where
  -- MarshalJSON, which writes the text of String in quotes.
  unfoldable pub marshal_json : DateTime → Str
  unfolding type_string
  marshal_json t = b'"' ∷ (type_string Z t ++ (b'"' ∷ []))

  -- time.Parse, and the assignment
  abbrev pub read : (Time → Time) → Option String → Str → Decoded
  read make none s = panicked
  read make (some l) s = elim (Z.parse_layout (bytes l) s) [
    | none ↦ refused
    | some t ↦ decoded (make t)
  ]

  abbrev pub decode : (Time → Time) → (Str → Option String) → Str → Decoded
  decode make layout bs = elim (unquoted bs) [ none ↦ panicked | some s ↦ read make (layout s) s ]

  unfoldable pub unmarshal_date : Str → Decoded
  unfolding new_date
  unmarshal_date bs = decode new_date (λ s. some "2006-01-02") bs

  unfoldable pub unmarshal_time : Str → Decoded
  unfolding new_time
  unmarshal_time bs = decode new_time (λ s. some "15:04:05.999999999") bs

  unfoldable pub unmarshal_timestamp : Str → Decoded
  unfolding new_timestamp
  unmarshal_timestamp bs = decode new_timestamp (λ s. some "2006-01-02T15:04:05.999999999") bs

  unfoldable pub unmarshal_time_tz : Str → Decoded
  unfolding time_tz_layout
  unmarshal_time_tz bs = decode (λ t. t) time_tz_layout bs

  unfoldable pub unmarshal_timestamp_tz : Str → Decoded
  unfolding timestamp_tz_layout
  unmarshal_timestamp_tz bs = decode (λ t. t) timestamp_tz_layout bs

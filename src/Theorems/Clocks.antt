-- ===== src/Theorems/Clocks.antt =====
-- Conversions and comparison of dates and times (path/types).
use sqljson.Prelude.{
  ℕ, zero, suc, ◌≡◌, ◌+◌, ◌*◌, ◌/◌, ◌%◌, refl, sym, ap, ◌∙◌, arith, false, leb, if◌then◌else◌, ◌↔◌,
}
use sqljson.Prelude.Int.{ℤ, pos, negsuc, ◌+ℤ◌, ◌-ℤ◌, ◌*ℤ◌, ltb_ℤ, negate}
use sqljson.Json.{Time}
use sqljson.Types.{
  compare_instants, compare_offsets, compare_zoned, or_else, Zone, zone_to_timestamp,
  timestamp_to_zone, civil, fixed, seconds, new_timestamp, new_timestamp_tz, in_zone, at_civil,
  modulo, day, new_date, new_time, at_date, midnight, civil_time, day_of, hour, minute, second,
  nanosecond, year_zero,
}

abbrev order : ℤ → ℤ → ℤ
order a b = if ltb_ℤ a b then negsuc 0 else if ltb_ℤ b a then pos 1 else pos 0

order-negate : (a b : ℤ) → order b a ≡ negate (order a b)
unfolding negate
order-negate a b = ground arith

order-zero : (a b : ℤ) → order a b ≡ pos 0 → a ≡ b
order-zero (pos a) (pos b) e = ap pos (ground arith)
order-zero (pos a) (negsuc b) e = ground arith
order-zero (negsuc a) (pos b) e = ground arith
order-zero (negsuc a) (negsuc b) e = ap negsuc (ground arith)

order_refl : (a : ℤ) → order a a ≡ pos 0
order_refl a = ground arith

negate-negsuc : (n : ℕ) → negate (negsuc n) ≡ pos (suc n)
unfolding negate
negate-negsuc n = ground arith

or_else-negate : (a b : ℤ) → or_else (negate a) (negate b) ≡ negate (or_else a b)
unfolding negate
or_else-negate (pos zero) b = refl
or_else-negate (pos (suc n)) b = let e : leb (suc n) 0 ≡ false = ground arith in rw e refl
or_else-negate (negsuc n) b =
    ap (λ a. or_else a (negate b)) (negate-negsuc n) ∙ sym (negate-negsuc n)

or_else-zero : (a b : ℤ) → or_else a b ≡ pos 0 → (a ≡ pos 0) × (b ≡ pos 0)
or_else-zero (pos zero) b e = (refl, e)
or_else-zero (pos (suc n)) b e = absurd (ground arith)
or_else-zero (negsuc n) b e = absurd (cc)

abbrev pub moment : ℤ → ℤ → Time
moment i z = record { instant = i; zone = z }

equal_times : (t u : Time) → t.instant ≡ u.instant → t.zone ≡ u.zone → t ≡ u
equal_times t u p q = ap (λ i. moment i t.zone) p ∙ ap (λ z. moment u.instant z) q

-- The comparison of times with time zones is antisymmetric, and two of them are equal only if both the
-- instant and the offset are.
pub compare_zoned-IsOrder :
    (t u : Time)
    → (compare_zoned u t ≡ negate (compare_zoned t u)) × ((compare_zoned t u ≡ pos 0) ↔ (t ≡ u))
unfolding compare_zoned compare_instants compare_offsets
compare_zoned-IsOrder t u = (
  ap (λ a. or_else a (order t.zone u.zone)) (order-negate t.instant u.instant)
      ∙ ap (λ b. or_else (negate (order t.instant u.instant)) b) (order-negate u.zone t.zone)
      ∙ or_else-negate (order t.instant u.instant) (order u.zone t.zone),
  (
    (λ e.
        (let z = or_else-zero (order t.instant u.instant) (order u.zone t.zone) e in
          equal_times t u (order-zero t.instant u.instant z.0)
            (sym (order-zero u.zone t.zone z.1)))),
    (λ e.
        ap (λ v. compare_zoned t v) (sym e)
        ∙ ap (λ a. or_else a (order t.zone t.zone)) (order_refl t.instant)
        ∙ order_refl t.zone),
  ),
)

-- Sums and differences.
minus_plus : (a b : ℤ) → (a -ℤ b) +ℤ b ≡ a
unfolding ◌-ℤ◌ ◌+ℤ◌
minus_plus (pos a) b = ground arith
minus_plus (negsuc a) b = ground arith

plus_none : (a : ℤ) → a +ℤ seconds (pos 0) ≡ a
unfolding ◌+ℤ◌ ◌*ℤ◌
plus_none (pos n) = ground arith
plus_none (negsuc n) = ground arith

minus_none : (a : ℤ) → a -ℤ seconds (pos 0) ≡ a
unfolding ◌-ℤ◌ ◌*ℤ◌
minus_none (pos n) = ground arith
minus_none (negsuc n) = ground arith

civil-fixed : (c z : ℤ) → civil (fixed c z) ≡ c
unfolding civil fixed
civil-fixed c z = minus_plus c (seconds z)

civil-moment : (c : ℤ) → civil (moment c (pos 0)) ≡ c
unfolding civil
civil-moment c = plus_none c

fixed-moment : (c : ℤ) → fixed c (pos 0) ≡ moment c (pos 0)
unfolding fixed
fixed-moment c = ap (λ i. moment i (pos 0)) (minus_none c)

nanoseconds :
    (r : ℕ)
    → r / 3600000000000 * 3600000000000
        + r / 60000000000 % 60 * 60000000000
        + r / 1000000000 % 60 * 1000000000
        + r % 1000000000
      ≡ r
nanoseconds r = omega arith

at_date-modulo : (d c : ℤ) → at_date d c ≡ d *ℤ pos day +ℤ pos (modulo c day)
unfolding at_date civil_time hour minute second nanosecond
at_date-modulo d c = ap (λ r. d *ℤ pos day +ℤ pos r) (nanoseconds (modulo c day))

day_of-modulo : (c : ℤ) → day_of c *ℤ pos day +ℤ pos (modulo c day) ≡ c
unfolding day_of modulo ◌+ℤ◌ ◌*ℤ◌
day_of-modulo (pos n) = ground arith
day_of-modulo (negsuc n) = ground arith

-- The date and the time of day make up a civil time.
at_date-day_of : (c : ℤ) → at_date (day_of c) c ≡ c
at_date-day_of c = at_date-modulo (day_of c) c ∙ day_of-modulo c

new_timestamp-fixed : (t : Time) → new_timestamp t ≡ fixed (civil t) (pos 0)
unfolding new_timestamp
new_timestamp-fixed t = ap (λ c. fixed c (pos 0)) (at_date-day_of (civil t))

new_timestamp_tz_lem : (t : Time) → new_timestamp_tz t ≡ fixed (civil t) t.zone
unfolding new_timestamp_tz
new_timestamp_tz_lem t = ap (λ c. fixed c t.zone) (at_date-day_of (civil t))

module _ (Z : Zone) where
  in_zone-fixed :
      (c : ℤ)
      → Z.offset (c -ℤ seconds (Z.civil_offset c)) ≡ Z.civil_offset c
      → in_zone Z (fixed c (Z.civil_offset c)) ≡ fixed c (Z.civil_offset c)
  unfolding in_zone fixed
  in_zone-fixed c h = ap (λ z. moment (c -ℤ seconds (Z.civil_offset c)) z) h

  -- A timestamp, cast to one with a time zone and back, is the same again, if time.Date gives an instant at
  -- which the zone has the offset that it used, which it does unless the clocks skip the civil time.
  pub zone_to_timestamp-timestamp_to_zone :
      (c : ℤ)
      → Z.offset (c -ℤ seconds (Z.civil_offset c)) ≡ Z.civil_offset c
      → zone_to_timestamp Z (timestamp_to_zone Z (moment c (pos 0))) ≡ moment c (pos 0)
  unfolding zone_to_timestamp timestamp_to_zone new_timestamp new_timestamp_tz in_zone at_civil
  zone_to_timestamp-timestamp_to_zone c h =
      let z = Z.civil_offset c in
      let zoned : timestamp_to_zone Z (moment c (pos 0)) ≡ fixed c z =
        ap (λ x. new_timestamp_tz (at_civil Z x))
          (at_date-day_of (civil (moment c (pos 0))) ∙ civil-moment c)
        ∙ new_timestamp_tz_lem (fixed c z)
        ∙ ap (λ x. fixed x z) (civil-fixed c z) in
      ap (λ t. new_timestamp (in_zone Z t)) zoned
      ∙ ap new_timestamp (in_zone-fixed c h)
      ∙ new_timestamp-fixed (fixed c z)
      ∙ ap (λ x. fixed x (pos 0)) (civil-fixed c z)
      ∙ fixed-moment c

move_start : (d z : ℤ) (r : ℕ) → (d +ℤ pos 0) +ℤ ((z +ℤ pos r) -ℤ z) ≡ d +ℤ pos r
unfolding ◌+ℤ◌ ◌-ℤ◌
move_start (pos d) (pos z) r = ground arith
move_start (pos d) (negsuc z) r = ground arith
move_start (negsuc d) (pos z) r = ground arith
move_start (negsuc d) (negsuc z) r = ground arith

-- a date, and the time from the first of January of the year 0 on, make up a civil time
midnight-at_date : (c : ℤ) → midnight c +ℤ (at_date year_zero c -ℤ year_zero *ℤ pos day) ≡ c
unfolding midnight civil_time
midnight-at_date c =
    ap (λ t. midnight c +ℤ (t -ℤ year_zero *ℤ pos day)) (at_date-modulo year_zero c)
    ∙ move_start (day_of c *ℤ pos day) (year_zero *ℤ pos day) (modulo c day)
    ∙ day_of-modulo c

-- NewTimestamp makes of a time a timestamp with the date that NewDate makes of it and with the time of day
-- that NewTime makes of it, and the timestamp is as far behind that date as the outcome of NewTime is
-- behind the start of the year 0.
pub new_timestamp_lem :
    (t : Time)
    → (new_date (new_timestamp t) ≡ new_date t)
      × (new_time (new_timestamp t) ≡ new_time t)
      × ((new_timestamp t).instant
          ≡ (new_date t).instant +ℤ ((new_time t).instant -ℤ year_zero *ℤ pos day))
unfolding new_date new_time
new_timestamp_lem t =
    let same : civil (new_timestamp t) ≡ civil t =
      ap civil (new_timestamp-fixed t) ∙ civil-fixed (civil t) (pos 0) in
    (
      ap (λ c. fixed (midnight c) (pos 0)) same,
      ap (λ c. fixed (at_date year_zero c) (pos 0)) same,
      ap (λ u. u.instant) (new_timestamp-fixed t)
          ∙ minus_none (civil t)
          ∙ sym (midnight-at_date (civil t))
          ∙ ap (λ m. m +ℤ (at_date year_zero (civil t) -ℤ year_zero *ℤ pos day))
              (sym (minus_none (midnight (civil t))))
          ∙ ap (λ m. (midnight (civil t) -ℤ seconds (pos 0)) +ℤ (m -ℤ year_zero *ℤ pos day))
              (sym (minus_none (at_date year_zero (civil t)))),
    )

-- ===== src/Theorems/Tests/Clocks.antt =====
-- The theorems on dates and times, at concrete inputs.
use sqljson.Prelude.{◌≢◌, bytes, length, ◌<◌, ◌≡◌, ◌↔◌, refl, none, []}
use sqljson.Prelude.Int.{pos, negate, ◌+ℤ◌, ◌-ℤ◌, ◌*ℤ◌}
use sqljson.Json.{Time}
use sqljson.Types.{
  Zone, compare_zoned, zone_to_timestamp, timestamp_to_zone, new_date, new_time, new_timestamp,
  year_zero, day,
}
use sqljson.Types.Encoding.{unmarshal_time_tz, unmarshal_timestamp_tz, panicked}
use sqljson.Theorems.Encoding.{quoted, unmarshal_tz_lem}
use sqljson.Theorems.Clocks.{
  moment, compare_zoned-IsOrder, zone_to_timestamp-timestamp_to_zone, new_timestamp_lem,
}

-- One hour east of Greenwich.
abbrev east : Zone
east = record {
  offset = λ i. pos 3600;
  civil_offset = λ c. pos 3600;
  today = pos 0;
  parse_layout = λ l s. none;
  format_layout = λ l t. [];
}

-- The same instant on two clocks.
abbrev noon : Time
noon = moment (pos 43200000000000) (pos 0)

abbrev noon_east : Time
noon_east = moment (pos 43200000000000) (pos 3600)

compare_zoned-IsOrder_example :
    (compare_zoned noon_east noon ≡ negate (compare_zoned noon noon_east))
    × ((compare_zoned noon noon_east ≡ pos 0) ↔ (noon ≡ noon_east))
compare_zoned-IsOrder_example = compare_zoned-IsOrder noon noon_east

zone_to_timestamp-timestamp_to_zone_example :
    zone_to_timestamp east (timestamp_to_zone east (moment (pos 43200000000000) (pos 0)))
    ≡ moment (pos 43200000000000) (pos 0)
zone_to_timestamp-timestamp_to_zone_example =
    zone_to_timestamp-timestamp_to_zone east (pos 43200000000000) refl

new_timestamp_lem_example :
    (new_date (new_timestamp noon_east) ≡ new_date noon_east)
    × (new_time (new_timestamp noon_east) ≡ new_time noon_east)
    × ((new_timestamp noon_east).instant
        ≡ (new_date noon_east).instant +ℤ ((new_time noon_east).instant -ℤ year_zero *ℤ pos day))
new_timestamp_lem_example = new_timestamp_lem noon_east

unmarshal_tz_lem_example :
    (unmarshal_timestamp_tz east (quoted (bytes "12:34")) ≢ panicked)
    × ((unmarshal_time_tz east (quoted (bytes "12:34")) ≡ panicked) ↔ (length (bytes "12:34") < 9))
unmarshal_tz_lem_example = unmarshal_tz_lem east (bytes "12:34")

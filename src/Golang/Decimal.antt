-- ===== src/Golang/Decimal.antt =====
-- `strconv.ParseInt(s, 10, bits)` and `strconv.FormatInt(n, 10)` on bytes.
use sqljson.Prelude.{
  ℕ, zero, suc, ◌+◌, ◌-◌, ◌*◌, ◌/◌, ◌%◌, ◌&&◌, Option, none, some, [], ◌∷◌, Str, nat_eq, ltb, leb,
  if◌then◌else◌,
}
use sqljson.Prelude.Int.{ℤ, pos, negsuc, sub_ℕ}

-- The value of a run of digits, read after those that make up `acc`.
unfoldable pub read_digits : ℕ → Str → Option ℕ
read_digits acc [] = some acc
read_digits acc (c ∷ s) =
    if leb b'0' c && leb c b'9' then read_digits (acc * 10 + (c - b'0')) s else none

unfoldable pub read_unsigned : Str → Option ℕ
unfolding read_digits
read_unsigned [] = none
read_unsigned (c ∷ s) = read_digits 0 (c ∷ s)

-- The number of the digits, if it is at most `most`.
abbrev pub at_most : ℕ → (ℕ → ℤ) → Option ℕ → Option ℤ
at_most most signed none = none
at_most most signed (some n) = if leb n most then some (signed n) else none

abbrev pub minus : ℕ → ℤ
minus n = sub_ℕ 0 n

-- strconv.ParseInt(s, 10, bits), with 2 ^ (bits - 1) as the limit: any error is `none`.
unfoldable pub parse_int : ℕ → Str → Option ℤ
unfolding read_unsigned
parse_int limit [] = none
parse_int limit (c ∷ s) =
    if nat_eq c b'-'
    then at_most limit minus (read_unsigned s)
    else if nat_eq c b'+'
    then at_most (limit - 1) pos (read_unsigned s)
    else at_most (limit - 1) pos (read_unsigned (c ∷ s))

-- The digits of a number in front of `tail`; a number below 10 ^ fuel has at most `fuel` of them.
unfoldable pub write_digits : ℕ → ℕ → Str → Str
write_digits zero n tail = tail
write_digits (suc fuel) n tail =
    let more = write_digits fuel (n / 10) ((b'0' + n % 10) ∷ tail) in
    if ltb n 10 then (b'0' + n) ∷ tail else more

-- 20 digits are enough for every 64-bit number.
unfoldable pub digits : ℕ → Str
unfolding write_digits
digits n = write_digits 20 n []

-- strconv.FormatInt(n, 10)
unfoldable pub format_int : ℤ → Str
format_int (pos n) = digits n
format_int (negsuc n) = b'-' ∷ digits (suc n)

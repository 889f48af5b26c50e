-- ===== src/Golang/ParseInt.antt =====
-- `strconv.ParseInt(s, 0, 64)` and `strconv.Atoi(s)` on bytes.
use sqljson.Prelude.{
  ℕ, ◌+◌, ◌-◌, ◌*◌, Bool, true, false, ◌&&◌, ◌||◌, not, Option, none, some, [], ◌∷◌, Str, nat_eq,
  ltb, leb, if◌then◌else◌,
}
use sqljson.Prelude.Int.{ℤ, pos, two63}
use sqljson.Golang.Decimal.{at_most, minus, read_unsigned}

abbrev small_letter : ℕ → ℕ
small_letter c = if leb b'A' c && leb c b'Z' then c + 32 else c

-- The value of a digit or letter; 36 for any other byte.
abbrev digit_value : ℕ → ℕ
digit_value c =
    if leb b'0' c && leb c b'9'
    then c - b'0'
    else if leb b'a' (small_letter c) && leb (small_letter c) b'z'
    then small_letter c - b'a' + 10
    else 36

-- The loop of ParseUint: underscores are skipped.
unfoldable pub read_base : ℕ → ℕ → Str → Option ℕ
read_base base n [] = some n
read_base base n (c ∷ s) = elim (nat_eq c b'_') [
  | true ↦ read_base base n s
  | false ↦ elim (ltb (digit_value c) base) [
    | true ↦ read_base base (n * base + digit_value c) s
    | false ↦ none
  ]
]

-- The loop of underscoreOK, on whether an underscore may come next, and whether one came last.
unfoldable pub underscores : Bool → Bool → Str → Bool
underscores after last [] = not last
underscores after last (c ∷ s) = elim (nat_eq c b'_') [
  | true ↦ elim after [ true ↦ underscores false true s | false ↦ false ]
  | false ↦ elim (ltb (digit_value c) 16) [
    | true ↦ underscores true false s
    | false ↦ elim last [ true ↦ false | false ↦ underscores false false s ]
  ]
]

unfoldable pub has_underscore : Str → Bool
has_underscore [] = false
has_underscore (c ∷ s) = nat_eq c b'_' || has_underscore s

abbrev pub if_well : Bool → Str → Option ℕ → Option ℕ
if_well prefix s n =
    if has_underscore s then (if underscores prefix false s then n else none) else n

-- ParseUint(s, 0, 64) without its limit, behind the sign.
unfoldable pub read_any_base : Str → Option ℕ
unfolding read_base underscores has_underscore
read_any_base [] = none
read_any_base (c ∷ []) = if nat_eq c b'0' then some 0 else read_base 10 0 (c ∷ [])
read_any_base (c ∷ d ∷ []) =
    if nat_eq c b'0'
    then if_well true (d ∷ []) (read_base 8 0 (d ∷ []))
    else if_well false (c ∷ d ∷ []) (read_base 10 0 (c ∷ d ∷ []))
read_any_base (c ∷ d ∷ e ∷ s) =
    if not (nat_eq c b'0')
    then if_well false (c ∷ d ∷ e ∷ s) (read_base 10 0 (c ∷ d ∷ e ∷ s))
    else if nat_eq (small_letter d) b'x'
    then if_well true (e ∷ s) (read_base 16 0 (e ∷ s))
    else if nat_eq (small_letter d) b'o'
    then if_well true (e ∷ s) (read_base 8 0 (e ∷ s))
    else if nat_eq (small_letter d) b'b'
    then if_well true (e ∷ s) (read_base 2 0 (e ∷ s))
    else if_well true (d ∷ e ∷ s) (read_base 8 0 (d ∷ e ∷ s))

-- ParseInt(s, 0, 64): any error is `none`.
unfoldable pub parse_any_int : Str → Option ℤ
unfolding read_any_base
parse_any_int [] = none
parse_any_int (c ∷ s) =
    if nat_eq c b'-'
    then at_most two63 minus (read_any_base s)
    else if nat_eq c b'+'
    then at_most (two63 - 1) pos (read_any_base s)
    else at_most (two63 - 1) pos (read_any_base (c ∷ s))

-- The value that Atoi returns besides its error, for a text without a sign: 0 for a text that is no
-- decimal number, the greatest int64 for one that is out of range.
unfoldable pub atoi : Str → ℤ
unfolding read_unsigned
atoi s = elim (read_unsigned s) [
  | none ↦ pos 0
  | some n ↦ pos (if ltb n two63 then n else two63 - 1)
]

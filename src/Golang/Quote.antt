-- ===== src/Golang/Quote.antt =====
-- `strconv.Quote` on bytes.
use sqljson.Prelude.{
  ℕ, zero, suc, ◌+◌, ◌-◌, ◌/◌, ◌%◌, ◌&&◌, ◌||◌, Bool, none, some, [], ◌∷◌, ◌++◌, Str, nat_eq, ltb,
  leb, length, if◌then◌else◌,
}
use sqljson.Golang.Utf8.{decode_rune, encode_rune}

-- The digit of a number below 16.
abbrev pub hex_digit : ℕ → ℕ
hex_digit n = if ltb n 10 then b'0' + n else b'a' + (n - 10)

-- \xNN
abbrev pub hex_escape : ℕ → Str
hex_escape c = 92 ∷ b'x' ∷ hex_digit (c / 16) ∷ hex_digit (c % 16) ∷ []

abbrev four_hex : ℕ → Str
four_hex r =
    hex_digit (r / 4096 % 16)
    ∷ hex_digit (r / 256 % 16)
    ∷ hex_digit (r / 16 % 16)
    ∷ hex_digit (r % 16)
    ∷ []

-- The letter of an escape, or 0.
abbrev pub escape_letter : ℕ → ℕ
escape_letter r =
    if nat_eq r 7
    then b'a'
    else if nat_eq r 8
    then b'b'
    else if nat_eq r 12
    then b'f'
    else if nat_eq r 10
    then b'n'
    else if nat_eq r 13
    then b'r'
    else if nat_eq r 9
    then b't'
    else if nat_eq r 11
    then b'v'
    else 0

-- appendEscapedRune below 0x80, where a rune is printable from the space to the tilde
unfoldable pub escape_ascii : ℕ → Str
escape_ascii c =
    if nat_eq c b'"' || nat_eq c 92
    then 92 ∷ c ∷ []
    else if leb 32 c && ltb c 127
    then c ∷ []
    else if nat_eq (escape_letter c) 0
    then hex_escape c
    else 92 ∷ escape_letter c ∷ []

module _ (is_print : ℕ → Bool) where
  -- appendEscapedRune, with the table of unicode.IsPrint from 0x80 on
  unfoldable pub escape_rune : ℕ → Str
  unfolding escape_ascii
  escape_rune r =
      if ltb r 0x80
      then escape_ascii r
      else if is_print r
      then encode_rune r
      else if ltb r 0x10000
      then 92 ∷ b'u' ∷ four_hex r
      else 92 ∷ b'U' ∷ (four_hex (r / 65536) ++ four_hex r)

  abbrev pub skip : ℕ → Str → Str
  skip zero s = s
  skip (suc n) [] = []
  skip (suc n) (c ∷ s) = skip n s

  -- The loop of appendQuotedWith, on fuel: each round takes a byte or more.
  unfoldable pub quote_runes : ℕ → Str → Str
  unfolding escape_rune
  quote_runes zero s = []
  quote_runes (suc n) [] = []
  quote_runes (suc n) (c ∷ s) = elim (decode_rune (c ∷ s)) [
    | none ↦ hex_escape c ++ quote_runes n s
    | some (r, w) ↦ escape_rune r ++ quote_runes n (skip (w - 1) s)
  ]

  -- strconv.Quote(s)
  unfoldable pub quote_string : Str → Str
  unfolding quote_runes
  quote_string s = b'"' ∷ (quote_runes (length s) s ++ (b'"' ∷ []))

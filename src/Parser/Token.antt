-- ===== src/Parser/Token.antt =====
-- The tokens of the grammar (the constants of path/parser/grammar.go), and the words among the
-- identifiers (identToken of path/parser/lex.go).
use sqljson.Prelude.{
  ℕ, ◌+◌, ◌&&◌, true, false, List, [], ◌∷◌, Str, bytes, str_eq, nat_eq, leb, if◌then◌else◌, String,
}
use sqljson.Prelude.Int.{ℤ, pos, negsuc}

-- A token is a rune of Go: a character, a constant of the grammar, or -1.
abbrev pub Rune : Type 0
Rune = ℤ

-- stopTok and noChar are the same number
abbrev pub stop : Rune
stop = negsuc 0

-- The constants are numbered from 57346 on, in the order of the grammar.
abbrev pub token : ℕ → Rune
token n = pos (57346 + n)

abbrev pub to_p : Rune
to_p = token 0

abbrev pub ident_p : Rune
ident_p = token 7

abbrev pub string_p : Rune
string_p = token 8

abbrev pub numeric_p : Rune
numeric_p = token 9

abbrev pub int_p : Rune
int_p = token 10

abbrev pub variable_p : Rune
variable_p = token 11

abbrev pub or_p : Rune
or_p = token 12

abbrev pub and_p : Rune
and_p = token 13

abbrev pub not_p : Rune
not_p = token 14

abbrev pub less_p : Rune
less_p = token 15

abbrev pub less_equal_p : Rune
less_equal_p = token 16

abbrev pub equal_p : Rune
equal_p = token 17

abbrev pub not_equal_p : Rune
not_equal_p = token 18

abbrev pub greater_equal_p : Rune
greater_equal_p = token 19

abbrev pub greater_p : Rune
greater_p = token 20

abbrev pub any_p : Rune
any_p = token 21

-- The words that are written in small letters only.
abbrev pub exact_words : List (String × Rune)
exact_words = ("null", token 1) ∷ ("true", token 2) ∷ ("false", token 3) ∷ []

-- The words in any case.
abbrev pub words : List (String × Rune)
words =
    ("is", token 4)
    ∷ ("to", to_p)
    ∷ ("abs", token 29)
    ∷ ("lax", token 23)
    ∷ ("date", token 39)
    ∷ ("flag", token 28)
    ∷ ("last", token 24)
    ∷ ("size", token 30)
    ∷ ("time", token 44)
    ∷ ("type", token 31)
    ∷ ("with", token 26)
    ∷ ("floor", token 32)
    ∷ ("bigint", token 37)
    ∷ ("double", token 33)
    ∷ ("exists", token 6)
    ∷ ("number", token 42)
    ∷ ("starts", token 25)
    ∷ ("strict", token 22)
    ∷ ("string", token 43)
    ∷ ("boolean", token 38)
    ∷ ("ceiling", token 34)
    ∷ ("decimal", token 40)
    ∷ ("integer", token 41)
    ∷ ("time_tz", token 45)
    ∷ ("unknown", token 5)
    ∷ ("datetime", token 36)
    ∷ ("keyvalue", token 35)
    ∷ ("timestamp", token 46)
    ∷ ("like_regex", token 27)
    ∷ ("timestamp_tz", token 47)
    ∷ []

-- a switch over texts
unfoldable pub lookup_word : Str → List (String × Rune) → Rune → Rune
lookup_word s [] default = default
lookup_word s ((w, t) ∷ ws) default = if str_eq s (bytes w) then t else lookup_word s ws default

abbrev pub lower_letter : ℕ → ℕ
lower_letter a = if leb b'A' a && leb a b'Z' then a + 32 else a

-- strings.ToLower(s), as far as the words can tell: the capitals, and the two other letters whose
-- small letter is in ASCII, U+0130 and U+212A. Any other text keeps a byte that no word has.
unfoldable pub to_lower : Str → Str
to_lower [] = []
to_lower (a ∷ []) = lower_letter a ∷ []
to_lower (a ∷ b ∷ []) = elim (nat_eq a 0xc4 && nat_eq b 0xb0) [
  | true ↦ b'i' ∷ []
  | false ↦ lower_letter a ∷ lower_letter b ∷ []
]
to_lower (a ∷ b ∷ c ∷ s) = elim (nat_eq a 0xc4 && nat_eq b 0xb0) [
  | true ↦ b'i' ∷ to_lower (c ∷ s)
  | false ↦ elim (nat_eq a 0xe2 && (nat_eq b 0x84 && nat_eq c 0xaa)) [
    | true ↦ b'k' ∷ to_lower s
    | false ↦ lower_letter a ∷ to_lower (b ∷ c ∷ s)
  ]
]

-- identToken
unfoldable pub ident_token : Str → Rune
unfolding lookup_word to_lower
ident_token ident = lookup_word ident exact_words (lookup_word (to_lower ident) words ident_p)

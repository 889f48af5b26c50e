-- ===== src/Golang/Utf8.antt =====
-- What path/parser uses of unicode/utf8 and unicode/utf16: the encoding of runes by bytes, and the
-- pairs of surrogates.
use sqljson.Prelude.{
  ℕ, ◌+◌, ◌-◌, ◌*◌, ◌/◌, ◌%◌, Bool, ◌&&◌, ◌||◌, Option, none, some, [], ◌∷◌, Str, nat_eq, leb, ltb,
  if◌then◌else◌,
}

abbrev between : ℕ → ℕ → ℕ → Bool
between lo hi b = leb lo b && leb b hi

-- a continuation byte
unfoldable pub is_tail : ℕ → Bool
is_tail b = between 0x80 0xbf b

-- The second byte of three, and of four: neither overlong, nor a surrogate, nor above U+10FFFF.
unfoldable pub is_second_of_three : ℕ → ℕ → Bool
is_second_of_three a b =
    if nat_eq a 0xe0
    then between 0xa0 0xbf b
    else if nat_eq a 0xed
    then between 0x80 0x9f b
    else between 0x80 0xbf b

unfoldable pub is_second_of_four : ℕ → ℕ → Bool
is_second_of_four a b =
    if nat_eq a 0xf0
    then between 0x90 0xbf b
    else if nat_eq a 0xf4
    then between 0x80 0x8f b
    else between 0x80 0xbf b

unfoldable pub decode_two : ℕ → Str → Option (ℕ × ℕ)
unfolding is_tail
decode_two a [] = none
decode_two a (b ∷ _) = if is_tail b then some (a % 32 * 64 + b % 64, 2) else none

unfoldable pub decode_three : ℕ → Str → Option (ℕ × ℕ)
unfolding is_tail is_second_of_three
decode_three a (b ∷ c ∷ _) =
    if is_second_of_three a b && is_tail c
    then some (a % 16 * 4096 + b % 64 * 64 + c % 64, 3)
    else none
decode_three a _ = none

unfoldable pub decode_four : ℕ → Str → Option (ℕ × ℕ)
unfolding is_tail is_second_of_four
decode_four a (b ∷ c ∷ d ∷ _) =
    if is_second_of_four a b && (is_tail c && is_tail d)
    then some (a % 8 * 262144 + b % 64 * 4096 + c % 64 * 64 + d % 64, 4)
    else none
decode_four a _ = none

-- utf8.DecodeRune: the rune and its width; `none` where Go returns (utf8.RuneError, 1), or
-- (utf8.RuneError, 0) for no byte at all.
unfoldable pub decode_rune : Str → Option (ℕ × ℕ)
unfolding decode_two decode_three decode_four
decode_rune [] = none
decode_rune (a ∷ s) =
    if ltb a 0x80
    then some (a, 1)
    else if ltb a 0xc2
    then none
    else if ltb a 0xe0
    then decode_two a s
    else if ltb a 0xf0
    then decode_three a s
    else if ltb a 0xf5
    then decode_four a s
    else none

-- utf16.IsSurrogate(r)
unfoldable pub is_surrogate : ℕ → Bool
is_surrogate r = between 0xd800 0xdfff r

-- utf8.EncodeRune and strings.Builder.WriteRune: U+FFFD stands for what is no code point.
unfoldable pub encode_rune : ℕ → Str
unfolding is_surrogate
encode_rune r =
    if ltb r 0x80
    then r ∷ []
    else if ltb r 0x800
    then (0xc0 + r / 64) ∷ (0x80 + r % 64) ∷ []
    else if is_surrogate r || ltb 0x10ffff r
    then 0xef ∷ 0xbf ∷ 0xbd ∷ []
    else if ltb r 0x10000
    then (0xe0 + r / 4096) ∷ (0x80 + r / 64 % 64) ∷ (0x80 + r % 64) ∷ []
    else (0xf0 + r / 262144) ∷ (0x80 + r / 4096 % 64) ∷ (0x80 + r / 64 % 64) ∷ (0x80 + r % 64) ∷ []

-- utf16.DecodeRune(r1, r2); `none` where Go returns unicode.ReplacementChar
unfoldable pub decode_pair : ℕ → ℕ → Option ℕ
decode_pair a b =
    if between 0xd800 0xdbff a && between 0xdc00 0xdfff b
    then some ((a - 0xd800) * 1024 + (b - 0xdc00) + 0x10000)
    else none

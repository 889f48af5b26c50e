-- ===== src/Parser/Escape.antt =====
-- Escapes in strings and identifiers (scanEscape and what it calls in path/parser/lex.go). A
-- function that returns a rune returns -1 behind an error.
use sqljson.Prelude.{
  ℕ, zero, suc, ◌+◌, ◌-◌, ◌*◌, true, false, Option, none, some, nat_eq, ltb, if◌then◌else◌,
}
use sqljson.Prelude.Int.{pos, negsuc}
use sqljson.Golang.Utf8.{is_surrogate, decode_pair}
use sqljson.Parser.Token.{Rune}
use sqljson.Parser.Chars.{is_char, hex_char, merge}
use sqljson.Parser.Lexer.{
  Lexer, M, ◌>>=◌, ◌>>◌, pure, modify, fail, write_rune, reset_str_buf, next, invalid_hex,
  invalid_unicode, null_text, low_surrogate, backslash_end,
}

-- l.strBuf.WriteRune(r); return l.next()
abbrev pub write_then_next : Rune → M Rune
write_then_next r = do modify (write_rune r); next

-- hexChar(l.next())
abbrev pub next_hex : M (Option ℕ)
next_hex = do ch ← next; pure (hex_char ch)

unfoldable pub write_hex : ℕ → Option ℕ → M Rune
unfolding merge
write_hex a none = fail invalid_hex
write_hex a (some b) =
    if ltb 0 (merge a b) then write_then_next (pos (merge a b)) else fail invalid_hex

unfoldable pub second_hex : Option ℕ → M Rune
unfolding write_hex
second_hex none = fail invalid_hex
second_hex (some a) = do b ← next_hex; write_hex a b

unfoldable pub scan_hex : M Rune
unfolding second_hex
scan_hex = do a ← next_hex; second_hex a

-- The last lines of decodeUnicode: the value that was read, or a failure.
unfoldable pub decoded : Option ℕ → M Rune
decoded none = fail invalid_unicode
decoded (some r) = if nat_eq r 0 then fail null_text else pure (pos r)

-- The rounds of \u{NN...} that are left, the value so far, and the character in hand.
unfoldable pub braced : ℕ → ℕ → Rune → M Rune
unfolding merge decoded
braced zero r c = if is_char c b'}' then decoded (some r) else fail invalid_unicode
braced (suc n) r c = elim (is_char c b'}') [
  | true ↦ decoded (some r)
  | false ↦ elim (hex_char c) [
    | none ↦ fail invalid_unicode
    | some d ↦ do c' ← next; braced n (merge r d) c'
  ]
]

-- The rounds of \uNNNN that are left, and the value so far.
unfoldable pub four_digits : ℕ → Option ℕ → M Rune
unfolding decoded
four_digits n none = fail invalid_unicode
four_digits zero (some r) = decoded (some r)
four_digits (suc n) (some r) = do
  d ← next_hex
  four_digits n (elim d [ none ↦ none | some c ↦ some (r * 16 + c) ])

unfoldable pub decode_unicode : M Rune
unfolding braced four_digits
decode_unicode = do
  ch ← next
  if is_char ch b'{' then (do c ← next; braced 6 0 c) else four_digits 3 (hex_char ch)

-- Back to the character before, which was not the wanted one.
abbrev pub back : Lexer → Lexer
back l = record l { src_pos = l.src_pos - l.last_char_len; last_char_len = 1 }

-- The second half of a pair, behind \u; a failure is passed on.
unfoldable pub paired : ℕ → Rune → M Rune
paired high (negsuc n) = pure (negsuc n)
paired high (pos low) = elim (decode_pair high low) [
  | none ↦ fail low_surrogate
  | some r ↦ write_then_next (pos r)
]

-- The character behind the backslash of the second half.
unfoldable pub low_escape : ℕ → Rune → M Rune
unfolding decode_unicode paired
low_escape high ch =
    if is_char ch b'u'
    then (do low ← decode_unicode; paired high low)
    else (do modify back; fail low_surrogate)

unfoldable pub low_half : ℕ → Rune → M Rune
unfolding low_escape
low_half high ch = if is_char ch 92 then (do b ← next; low_escape high b) else fail low_surrogate

unfoldable pub unicode_value : Rune → M Rune
unfolding low_half
unicode_value (negsuc n) = pure (negsuc n)
unicode_value (pos r) =
    if is_surrogate r then (do a ← next; low_half r a) else write_then_next (pos r)

unfoldable pub scan_unicode : M Rune
unfolding unicode_value
scan_unicode = do r ← decode_unicode; unicode_value r

-- The character that a letter behind the backslash stands for; any other is literal.
abbrev pub control : ℕ → ℕ
control c =
    if nat_eq c b'b'
    then 8
    else if nat_eq c b'f'
    then 12
    else if nat_eq c b'n'
    then 10
    else if nat_eq c b'r'
    then 13
    else if nat_eq c b't'
    then 9
    else if nat_eq c b'v'
    then 11
    else c

-- The switch of scanEscape on the character behind the backslash.
unfoldable pub escaped : Rune → M Rune
unfolding scan_hex scan_unicode
escaped (negsuc n) = fail backslash_end
escaped (pos c) =
    if nat_eq c b'x'
    then scan_hex
    else if nat_eq c b'u'
    then scan_unicode
    else write_then_next (pos (control c))

-- A string is dropped where its escape fails.
unfoldable pub after_escape : Rune → M Rune
after_escape (negsuc n) = do modify reset_str_buf; pure (negsuc n)
after_escape (pos c) = pure (pos c)

unfoldable pub scan_escape : M Rune
unfolding escaped after_escape
scan_escape = do c ← next; r ← escaped c; after_escape r

-- ===== src/Parser/Chars.antt =====
-- Tests on single characters, digits and separators (path/parser/lex.go). A rune below zero, as -1
-- at the end of the source, passes none of the tests.
use sqljson.Prelude.{
  ℕ, ◌+◌, ◌-◌, ◌*◌, ◌/◌, ◌%◌, Bool, true, false, ◌&&◌, ◌||◌, Option, none, some, [], ◌∷◌, Str,
  nat_eq, leb, if◌then◌else◌,
}
use sqljson.Prelude.Int.{pos, negsuc}
use sqljson.Parser.Token.{Rune}

-- The tables of the package xid: a character may start an identifier, or stand inside one.
pub record Xid : Type 0 where
  pub start : ℕ → Bool
  pub continue : ℕ → Bool

-- ch == c
abbrev pub is_char : Rune → ℕ → Bool
is_char (pos n) c = nat_eq n c
is_char (negsuc n) c = false

-- ch < 0
abbrev pub is_negative : Rune → Bool
is_negative (pos n) = false
is_negative (negsuc n) = true

-- whitespace&(1<<uint(ch)) != 0; the shift gives zero from 64 on
unfoldable pub is_whitespace : Rune → Bool
is_whitespace ch = is_char ch 9 || (is_char ch 10 || (is_char ch 13 || is_char ch 32))

-- ch | 0x20
abbrev lower_code : ℕ → ℕ
lower_code n = if nat_eq (n / 32 % 2) 0 then n + 32 else n

unfoldable pub lower : Rune → Rune
lower (pos n) = pos (lower_code n)
lower (negsuc n) = negsuc (if nat_eq (n / 32 % 2) 0 then n else n - 32)

unfoldable pub is_decimal : Rune → Bool
is_decimal (pos n) = leb b'0' n && leb n b'9'
is_decimal (negsuc n) = false

unfoldable pub is_hex : Rune → Bool
is_hex (pos n) = (leb b'0' n && leb n b'9') || (leb b'a' (lower_code n) && leb (lower_code n) b'f')
is_hex (negsuc n) = false

-- hexChar; `none` for -1
unfoldable pub hex_char : Rune → Option ℕ
hex_char (pos n) =
    if leb b'0' n && leb n b'9'
    then some (n - b'0')
    else if leb b'a' n && leb n b'f'
    then some (n - b'a' + 10)
    else if leb b'A' n && leb n b'F'
    then some (n - b'A' + 10)
    else none
hex_char (negsuc n) = none

-- (r1 << 4) | r2, for the value r2 of a hexadecimal digit
unfoldable pub merge : ℕ → ℕ → ℕ
merge a b = a * 16 + b

module _ (xid : Xid) where
  -- isIdentRune(ch, 0)
  unfoldable pub is_ident_start : Rune → Bool
  is_ident_start (pos n) = nat_eq n b'_' || (nat_eq n 92 || xid.start n)
  is_ident_start (negsuc n) = false

  -- isIdentRune(ch, 1)
  unfoldable pub is_ident_rune : Rune → Bool
  is_ident_rune (pos n) = nat_eq n b'_' || (nat_eq n 92 || xid.continue n)
  is_ident_rune (negsuc n) = false

  unfoldable pub is_variable_rune : Rune → Bool
  is_variable_rune (pos n) = xid.continue n
  is_variable_rune (negsuc n) = false

-- What stands before a character in invalidSep: '0' for a digit, '_', and '.' for anything else.
pub data Before : Type 0 where
  digit separator anything : Before

-- The loop of invalidSep: whether it ends with -1. `hex` says that x1 is 'x'.
unfoldable pub separates : Bool → Before → Str → Bool
unfolding is_decimal is_hex
separates hex separator [] = false
separates hex digit [] = true
separates hex anything [] = true
separates hex before (c ∷ s) = elim (nat_eq c b'_') [
  | true ↦ elim before [ digit ↦ separates hex separator s | separator ↦ false | anything ↦ false ]
  | false ↦ elim (is_decimal (pos c) || (hex && is_hex (pos c))) [
    | true ↦ separates hex digit s
    | false ↦ elim before [
      | separator ↦ false
      | digit ↦ separates hex anything s
      | anything ↦ separates hex anything s
    ]
  ]
]

-- invalidSep(x) < 0
unfoldable pub has_valid_separators : Str → Bool
unfolding separates
has_valid_separators (a ∷ b ∷ s) =
    let x = lower_code b in
    if nat_eq a b'0' && (nat_eq x b'x' || (nat_eq x b'o' || nat_eq x b'b'))
    then separates (nat_eq x b'x') digit s
    else separates false anything (a ∷ b ∷ s)
has_valid_separators s = separates false anything s

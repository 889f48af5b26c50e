-- ===== src/Parser/Number.antt =====
-- Numbers (digits and scanNumber of path/parser/lex.go).
use sqljson.Prelude.{ℕ, suc, ◌+◌, ◌-◌, Bool, true, false, ◌&&◌, ◌||◌, not, leb, ltb, if◌then◌else◌}
use sqljson.Prelude.Int.{pos, negsuc}
use sqljson.Prelude.Loops.{while}
use sqljson.Parser.Token.{Rune, stop, int_p, numeric_p}
use sqljson.Parser.Chars.{
  Xid, is_char, lower, is_decimal, is_hex, is_ident_start, has_valid_separators,
}
use sqljson.Parser.Lexer.{
  Lexer, M, ◌>>=◌, ◌>>◌, pure, modify, add_error, Message, next, left, fed, token_text,
  underscore_at_start, trailing_junk, exponent_mantissa, exponent_digits, invalid_digit,
  separate_digits,
}

-- The base of a literal, with the prefix that names it: none, '0' alone, or 'x', 'o', 'b'.
pub data Prefix : Type 0 where
  no_prefix zero_prefix hex octal binary : Prefix

abbrev pub is_integer_only : Prefix → Bool
is_integer_only no_prefix = false
is_integer_only zero_prefix = false
is_integer_only _ = true

abbrev pub base_of : Prefix → ℕ
base_of no_prefix = 10
base_of zero_prefix = 8
base_of hex = 16
base_of octal = 8
base_of binary = 2

-- What digits found: bit 0 and bit 1 of digSep, and the first digit that is too large (0 if none).
pub record Found : Type 0 where
  pub digit : Bool
  pub separator : Bool
  pub invalid : Rune

abbrev pub nothing : Found
nothing = record { digit = false; separator = false; invalid = pos 0 }

abbrev pub leading_zero : Found
leading_zero = record { digit = true; separator = false; invalid = pos 0 }

-- tok == INT_P
abbrev is_int : Rune → Bool
is_int tok = is_char tok 57356

-- ch >= maxCh && *invalid == 0
abbrev pub first_invalid : ℕ → Rune → Rune → Rune
first_invalid base invalid (negsuc n) = invalid
first_invalid base invalid (pos c) =
    if ltb base 11 && (leb (b'0' + base) c && is_char invalid 0) then pos c else invalid

unfoldable pub is_digit : ℕ → Rune → Bool
is_digit base ch = (if ltb base 11 then is_decimal ch else is_hex ch) || is_char ch b'_'

-- One round of the loop in digits.
unfoldable pub note_digit : ℕ → Rune → Found → Found
note_digit base ch f =
    if is_char ch b'_'
    then record f { separator = true }
    else record f { digit = true; invalid = first_invalid base f.invalid ch }

abbrev pub Digits : Type 0
Digits = Found × Rune × Lexer

unfoldable pub digits_round : ℕ → Digits → Digits
unfolding note_digit
digits_round base (f, ch, l) = let r : Rune × Lexer = next l in (note_digit base ch f, r.0, r.1)

-- digits, which adds to what was found before
unfoldable pub digits : ℕ → Found → Rune → M (Found × Rune)
unfolding is_digit digits_round fed
digits base f ch l =
    let s : Digits =
      while (suc (suc (left l))) (λ (d : Digits). is_digit base d.1) (digits_round base)
        (f, ch, l) in
    ((s.0, s.1), fed (is_digit base s.1) s.2)

-- l.Error(m); return stopTok, stopTok
abbrev pub reject : Message → M (Rune × Rune)
reject m l = ((stop, stop), add_error m l)

abbrev pub terminated : Lexer → Lexer
terminated l = record l { tok_end = l.src_pos - l.last_char_len }

-- digSep |= ds, for the digits of an exponent
abbrev pub with_exponent : Found → Found → Found
with_exponent f e = record f { digit = f.digit || e.digit; separator = f.separator || e.separator }

module _ (xid : Xid) where
  -- From the test for an identifier behind the number on.
  unfoldable pub number_end : Rune → Rune → M (Rune × Rune)
  unfolding add_error
  number_end tok ch = if is_ident_start xid ch then reject trailing_junk else pure (tok, ch)

  unfoldable pub separated : Rune → Rune → Bool → M (Rune × Rune)
  unfolding number_end
  separated tok ch well = if well then number_end tok ch else reject separate_digits

  unfoldable pub check_separators : Rune → Rune → M (Rune × Rune)
  unfolding separated
  check_separators tok ch = do
    modify terminated
    text ← token_text
    separated tok ch (has_valid_separators text)

  -- From the test for an invalid digit on.
  unfoldable pub check_digits : Rune → Found → Rune → M (Rune × Rune)
  unfolding check_separators
  check_digits tok f ch =
      if is_int tok && not (is_char f.invalid 0)
      then reject (invalid_digit f.invalid)
      else if f.separator
      then check_separators tok ch
      else number_end tok ch

  unfoldable pub exponent_end : Found → Found × Rune → M (Rune × Rune)
  unfolding check_digits
  exponent_end f (e, ch) =
      if e.digit then check_digits numeric_p (with_exponent f e) ch else reject exponent_digits

  -- Behind the sign, if there is one.
  unfoldable pub exponent_from : Found → Rune → M (Rune × Rune)
  unfolding exponent_end
  exponent_from f ch = do r ← digits 10 nothing ch; exponent_end f r

  unfoldable pub exponent_sign : Found → Rune → M (Rune × Rune)
  unfolding exponent_from
  exponent_sign f ch =
      if is_char ch b'+' || is_char ch b'-'
      then (do c ← next; exponent_from f c)
      else exponent_from f ch

  unfoldable pub scan_exponent : Rune → Prefix → Found → Rune → M (Rune × Rune)
  unfolding exponent_sign check_digits
  scan_exponent tok prefix f ch =
      if is_char (lower ch) b'e'
      then (if is_integer_only prefix
          then reject (exponent_mantissa ch)
          else (do c ← next; exponent_sign f c))
      else if is_ident_start xid (lower ch)
      then reject trailing_junk
      else check_digits tok f ch

  unfoldable pub scan_fraction : Prefix → Found → Rune → M (Rune × Rune)
  unfolding scan_exponent
  scan_fraction prefix f ch = do
    r ← digits (base_of prefix) f ch
    scan_exponent numeric_p prefix r.0 r.1

  -- Behind a point, where a prefix that is for integers only ends the number.
  unfoldable pub integer_dot : Prefix → Found → M (Rune × Rune)
  unfolding scan_fraction
  integer_dot prefix f =
      if is_integer_only prefix
      then pure (int_p, pos b'.')
      else (do c ← next; scan_fraction prefix f c)

  unfoldable pub integer_rest : Prefix → Found → Rune → M (Rune × Rune)
  unfolding integer_dot scan_exponent
  integer_rest prefix f ch =
      if is_char ch b'.' then integer_dot prefix f else scan_exponent int_p prefix f ch

  -- Behind the digits of the integer part.
  unfoldable pub integer_end : Prefix → Found × Rune → M (Rune × Rune)
  unfolding integer_rest
  integer_end prefix (f, ch) = if f.digit then integer_rest prefix f ch else reject trailing_junk

  unfoldable pub scan_integer : Prefix → Found → Rune → M (Rune × Rune)
  unfolding integer_end
  scan_integer prefix f ch =
      if is_char ch b'_'
      then reject underscore_at_start
      else (do r ← digits (base_of prefix) f ch; integer_end prefix r)

  -- Behind a leading zero.
  unfoldable pub after_zero : Rune → M (Rune × Rune)
  unfolding scan_integer
  after_zero ch =
      if is_char (lower ch) b'x'
      then (do c ← next; scan_integer hex nothing c)
      else if is_char (lower ch) b'o'
      then (do c ← next; scan_integer octal nothing c)
      else if is_char (lower ch) b'b'
      then (do c ← next; scan_integer binary nothing c)
      else if is_char (lower ch) b'.'
      then scan_integer zero_prefix leading_zero ch
      else if is_char ch b'_'
      then reject underscore_at_start
      else if is_decimal ch
      then reject trailing_junk
      else scan_integer zero_prefix leading_zero ch

  -- scanNumber(ch, seenDot)
  unfoldable pub scan_number : Rune → Bool → M (Rune × Rune)
  unfolding after_zero
  scan_number ch true = scan_fraction no_prefix nothing ch
  scan_number ch false =
      if is_char ch b'0' then (do c ← next; after_zero c) else scan_integer no_prefix nothing ch

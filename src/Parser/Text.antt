-- ===== src/Parser/Text.antt =====
-- Strings, identifiers and variables (path/parser/lex.go). The fuel of a loop is above the bytes that
-- are left, each of which takes one round at most.
use sqljson.Prelude.{suc, ◌&&◌, not, Bool, if◌then◌else◌}
use sqljson.Prelude.Int.{pos}
use sqljson.Prelude.Loops.{while}
use sqljson.Parser.Token.{Rune, stop, variable_p, ident_token}
use sqljson.Parser.Chars.{Xid, is_char, is_negative, is_ident_rune, is_variable_rune}
use sqljson.Parser.Lexer.{
  Lexer, M, ◌>>=◌, ◌>>◌, pure, modify, add_error, reset_str_buf, has_error, next, left,
  not_terminated, fed,
}
use sqljson.Parser.Escape.{scan_escape, write_then_next}

abbrev pub got : Lexer → Lexer
got l = record l { got_string = Bool.true }

-- for test(ch) { ch = body(ch) }, in a body that reads at least one character
abbrev pub scan_while : (Rune → Bool) → (Rune → M Rune) → Rune → M Rune
scan_while test body ch l =
    let r : Rune × Lexer =
      while (suc (suc (left l))) (λ (s : Rune × Lexer). test s.0)
        (λ (s : Rune × Lexer). body s.0 s.1) (ch, l) in
    (r.0, fed (test r.0) r.1)

-- The body of the loops in scanString and scanIdent.
unfoldable pub text_char : Rune → M Rune
text_char ch = if is_char ch 92 then scan_escape else write_then_next ch

-- The loop of scanString goes on.
unfoldable pub in_string : Rune → Bool
in_string ch = not (is_char ch b'"') && (not (is_char ch 10) && not (is_negative ch))

-- Behind the loop: the closing quote, or the end of the line or of the source.
unfoldable pub string_end : Rune → Rune → M (Rune × Rune)
string_end ret ch =
    if is_char ch b'"'
    then (do modify got; ch' ← next; pure (ret, ch'))
    else (λ l. ((stop, ch), reset_str_buf (if has_error l then l else add_error not_terminated l)))

unfoldable pub scan_string : Rune → M (Rune × Rune)
unfolding text_char in_string string_end fed
scan_string ret = do first ← next; ch ← scan_while in_string text_char first; string_end ret ch

module _ (xid : Xid) where
  unfoldable pub ident_end : Rune → M (Rune × Rune)
  ident_end ch l = if has_error l then ((stop, ch), l) else ((ident_token l.str_buf, ch), got l)

  unfoldable pub scan_ident : Rune → M (Rune × Rune)
  unfolding text_char ident_end fed
  scan_ident ch = do
    first ← text_char ch
    ch' ← scan_while (is_ident_rune xid) text_char first
    ident_end ch'

  -- The rest of a variable without quotes.
  unfoldable pub variable_rest : Rune → M (Rune × Rune)
  unfolding fed
  variable_rest ch = do
    first ← write_then_next ch
    ch' ← scan_while (is_variable_rune xid) write_then_next first
    modify got
    pure (variable_p, ch')

  unfoldable pub variable_from : Rune → M (Rune × Rune)
  unfolding variable_rest scan_string
  variable_from ch =
      if is_char ch b'"'
      then scan_string variable_p
      else if is_variable_rune xid ch
      then variable_rest ch
      else pure (pos b'$', ch)

  unfoldable pub scan_variable : M (Rune × Rune)
  unfolding variable_from
  scan_variable = do ch ← next; variable_from ch

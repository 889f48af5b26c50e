-- ===== src/Parser/Lex.antt =====
-- Comments, operators, and the next token (Lex of path/parser/lex.go).
use sqljson.Prelude.{ℕ, zero, suc, ◌-◌, true, false, ◌&&◌, [], none, some, Str, ltb, if◌then◌else◌}
use sqljson.Prelude.Int.{pos, negsuc}
use sqljson.Parser.Token.{
  Rune, stop, string_p, equal_p, greater_equal_p, greater_p, less_equal_p, not_equal_p, less_p,
  not_p, and_p, or_p, any_p,
}
use sqljson.Parser.Chars.{Xid, is_char, is_negative, is_whitespace, is_decimal, is_ident_start}
use sqljson.Parser.Lexer.{
  Lexer, M, ◌>>=◌, ◌>>◌, pure, modify, after, add_error, next, peek, left, token_text, comment_end,
  starve, fed,
}
use sqljson.Parser.Text.{scan_while, scan_string, scan_ident, scan_variable}
use sqljson.Parser.Number.{scan_number}

-- The loop of scanComment, on fuel.
unfoldable pub comment_loop : ℕ → Rune → M Rune
comment_loop zero ch l = (ch, starve l)
comment_loop (suc n) (negsuc c) l = (negsuc c, add_error comment_end l)
comment_loop (suc n) (pos c) l =
    let r : Rune × Lexer = next l in
    elim (is_char (pos c) b'*' && is_char r.0 b'/') [
      | true ↦ next r.1
      | false ↦ comment_loop n r.0 r.1
    ]

-- scanComment, which is called behind "/*" only
unfoldable pub scan_comment : Rune → M Rune
unfolding comment_loop
scan_comment ch l =
    if is_char ch b'*'
    then (do c ← next; (λ l'. comment_loop (suc (suc (left l'))) c l')) l
    else (pos b'/', l)

abbrev two : Rune → M (Rune × Rune)
two tok = do c ← next; pure (tok, c)

-- The switch of scanOperator, on the character and the next one.
unfoldable pub operator : Rune → Rune → M (Rune × Rune)
operator ch c =
    if is_char ch b'='
    then (if is_char c b'=' then two equal_p else pure (ch, c))
    else if is_char ch b'>'
    then (if is_char c b'=' then two greater_equal_p else pure (greater_p, c))
    else if is_char ch b'<'
    then (if is_char c b'='
        then two less_equal_p
        else if is_char c b'>'
        then two not_equal_p
        else pure (less_p, c))
    else if is_char ch b'!'
    then (if is_char c b'=' then two not_equal_p else pure (not_p, c))
    else if is_char ch b'&'
    then (if is_char c b'&' then two and_p else pure (ch, c))
    else if is_char ch b'|'
    then (if is_char c b'|' then two or_p else pure (ch, c))
    else if is_char ch b'*'
    then (if is_char c b'*' then two any_p else pure (ch, c))
    else pure (ch, c)

unfoldable pub scan_operator : Rune → M (Rune × Rune)
unfolding operator
scan_operator ch = do c ← next; operator ch c

-- The token text, and the position of the token, start here.
unfoldable pub start_token : Lexer → Lexer
start_token l =
    let from = l.src_pos - l.last_char_len in
    record l {
      str_buf = [];
      got_string = false;
      tok_pos = some from;
      position =
          (if ltb 0 l.column
            then record { offset = from; line = l.line; column = l.column }
            else record { offset = from; line = l.line - 1; column = l.last_line_len });
    }

abbrev pub no_token_text : Lexer → Lexer
no_token_text l = record l { tok_pos = none }

-- Behind peek, and l.Line = 0.
abbrev pub reset_position : Lexer → Lexer
reset_position l = record l { tok_pos = none; position = record l.position { line = 0 } }

-- What one pass of the loop `redo` gives: a token and the next character, or the character behind a
-- comment.
pub data Pass : Type 0 where
  token : Rune → Rune → Pass
  comment : Rune → Pass

abbrev as_token : Rune × Rune → Pass
as_token (tok, ch) = token tok ch

abbrev pub tokens : M (Rune × Rune) → M Pass
tokens m = do r ← m; pure (as_token r)

-- goto redo, behind a comment
abbrev pub again : (Rune → M (Rune × Rune)) → Pass × Lexer → (Rune × Rune) × Lexer
again rest (token tok ch, l) = ((tok, ch), l)
again rest (comment ch, l) = rest ch l

-- The last lines of Lex.
unfoldable pub with_text : Rune × Rune → M (Rune × Str)
unfolding token_text
with_text (tok, ch) l =
    after (token_text (record l { tok_end = l.src_pos - l.last_char_len; ch = ch }))
      (λ text l'. ((tok, text), l'))

module _ (xid : Xid) where
  unfoldable pub slash : Rune → M Pass
  unfolding scan_comment
  slash ch =
      if is_char ch b'*'
      then (do modify no_token_text; c ← scan_comment ch; pure (comment c))
      else pure (token (pos b'/') ch)

  unfoldable pub dot : Rune → M Pass
  unfolding scan_number
  dot ch = if is_decimal ch then tokens (scan_number xid ch true) else pure (token (pos b'.') ch)

  -- The switch on a character that starts neither an identifier nor a number.
  unfoldable pub symbol_at : Rune → M Pass
  unfolding scan_string scan_variable scan_operator slash dot
  symbol_at ch =
      if is_negative ch
      then pure (token stop ch)
      else if is_char ch b'"'
      then tokens (scan_string string_p)
      else if is_char ch b'$'
      then tokens (scan_variable xid)
      else if is_char ch b'/'
      then (do c ← next; slash c)
      else if is_char ch b'.'
      then (do c ← next; dot c)
      else tokens (scan_operator ch)

  -- The switch that determines the token.
  unfoldable pub token_at : Rune → M Pass
  unfolding scan_ident scan_number symbol_at
  token_at ch =
      if is_ident_start xid ch
      then tokens (scan_ident xid ch)
      else if is_decimal ch
      then tokens (scan_number xid ch false)
      else symbol_at ch

  unfoldable pub pass : Rune → M Pass
  unfolding token_at fed
  pass ch = do c ← scan_while is_whitespace (λ _. next) ch; modify start_token; token_at c

  -- The passes, on fuel: each comment takes two bytes.
  unfoldable pub redo : ℕ → Rune → M (Rune × Rune)
  unfolding pass
  redo zero ch l = ((stop, ch), starve l)
  redo (suc n) ch l = again (redo n) (pass ch l)

  -- Lex: the token, and its text for lval.str
  unfoldable pub lex : M (Rune × Str)
  unfolding redo with_text
  lex = do ch ← peek; modify reset_position; r ← (λ l. redo (suc (suc (left l))) ch l); with_text r

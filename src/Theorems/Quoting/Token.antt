-- ===== src/Theorems/Quoting/Token.antt =====
-- A quoted string as a token of Lex (path/parser/lex.go).
use sqljson.Prelude.{
  ℕ, suc, ◌-◌, ◌≤◌, ◌≡◌, refl, ap, ◌∙◌, Bool, true, false, [], ◌∷◌, ◌++◌, Str, nat_eq, arith,
  Bool-cases, inl, inr, length, Option, none, some, is_some,
}
use sqljson.Prelude.Int.{pos}
use sqljson.Golang.Utf8.{decode_rune}
use sqljson.Golang.Quote.{quote_string}
use mathlib.Core.List.{append_assoc}
use sqljson.Prelude.Loops.{while_false}
use sqljson.Parser.Token.{Rune, string_p}
use sqljson.Parser.Chars.{Xid, is_char, is_whitespace, is_ident_start, is_decimal}
use sqljson.Parser.Lexer.{
  fed, Lexer, new_lexer, next, next_end, next_rune, add_error, fail, drop, peek, hold, left, after,
  advance, token_text, text_from,
}
use sqljson.Parser.Text.{in_string, scan_string, string_end, got}
use sqljson.Parser.Lex.{
  lex, redo, pass, token_at, symbol_at, start_token, reset_position, with_text,
}
use sqljson.Theorems.Quoting.{Reading, next-Reading}
use sqljson.Theorems.Quoting.Loop.{
  IsQuotable, flat, flat-Starts, Quoted, loop-Quoted, quote_stops, text_loop, quote_runes-flat,
  length-flat,
}

-- The text of the token is kept.
record Keeps (l k : Lexer) : Type 0 where
  text : k.str_buf ≡ l.str_buf
  is_text : k.got_string ≡ l.got_string
  from : k.tok_pos ≡ l.tok_pos

next-Keeps : (l : Lexer) → Keeps l (next l).1
unfolding next next_end next_rune fail add_error
next-Keeps l = elim (Bool-cases (nat_eq l.src_pos l.src_end)) [
  | inl e ↦ rw e (record { text = refl; is_text = refl; from = refl })
  | inr e ↦ rw e (rune (decode_rune (drop l.src_pos l.src_buf)))
]
  where
    rune : (r : Option (ℕ × ℕ)) → Keeps l (next_rune r l).1
    rune none = record { text = refl; is_text = refl; from = refl }
    rune (some (ch, width)) = elim (Bool-cases (nat_eq ch 0)) [
      | inl e ↦ rw e (record { text = refl; is_text = refl; from = refl })
      | inr e ↦ rw e (elim (Bool-cases (nat_eq ch 10)) [
        | inl f ↦ rw f (record { text = refl; is_text = refl; from = refl })
        | inr f ↦ rw f (record { text = refl; is_text = refl; from = refl })
      ])
    ]

-- A token with its text.
record Token (tok : Rune) (s : Str) (r : (Rune × Rune) × Lexer) : Type 0 where
  kind : r.0.0 ≡ tok
  text : r.1.str_buf ≡ s
  is_text : r.1.got_string ≡ true
  from : is_some r.1.tok_pos ≡ true

string_end-Token :
    (ret : Rune) (s rest : Str) (r : Rune × Lexer)
    → Quoted rest s r
    → Token ret s (after r (string_end ret))
unfolding string_end
string_end-Token ret s rest r q =
    let k = next-Keeps (got r.1) in
    let e : is_char r.0 b'"' ≡ true = rw q.0 refl in
    rw e (record {
      kind = refl;
      text = k.text ∙ q.1.so_far;
      is_text = k.is_text;
      from = ap (λ t. is_some t) k.from ∙ q.1.token;
    })

-- The loop ends by its test, and not by its fuel.
fed-Quoted :
    (rest s : Str) (r : Rune × Lexer)
    → Quoted rest s r
    → Quoted rest s (r.0, fed (in_string r.0) r.1)
unfolding fed
fed-Quoted rest s r q = let e : in_string r.0 ≡ false = rw q.0 quote_stops in rw e q

scan_string-Token :
    (ret : Rune) (s rest : Str) (l : Lexer)
    → IsQuotable s
    → Reading l (flat s ++ (b'"' ∷ rest)) []
    → Token ret s (scan_string ret l)
unfolding scan_string fed
scan_string-Token ret s rest l k r =
    let g = flat-Starts s rest k in
    let n = next-Reading g.lead g.others [] l (rw (← g.form) r) g.low g.high in
    let len : length s ≤ left (next l).1 =
      omega (arith, n.1.rest, length-flat s rest k, ap length g.form) in
    let q : Quoted rest s (text_loop (suc (suc (left (next l).1))) (pos g.lead, (next l).1)) =
      loop-Quoted s rest [] g.others g.lead (suc (suc (left (next l).1))) (next l).1 k (omega arith)
        g.form n.1 in
    rw n.0 (string_end-Token ret s rest _ (fed-Quoted rest s _ q))

module _ (xid : Xid) (q : xid.start b'"' ≡ false) where
  -- A quote starts a string.
  quote-Token :
      (s rest : Str) (l : Lexer)
      → IsQuotable s
      → Reading (start_token l) (flat s ++ (b'"' ∷ rest)) []
      → (n : ℕ) → Token string_p s (redo xid (suc n) (pos b'"') l)
  unfolding redo pass is_whitespace token_at is_ident_start is_decimal symbol_at
  quote-Token s rest l k r n =
      let t = scan_string-Token string_p s rest (start_token l) k r in
      rw
        (
          while_false (suc (left l)) (λ (u : Rune × Lexer). is_whitespace u.0)
              (λ (u : Rune × Lexer). next u.1) (pos b'"', l) refl,
          q,
        )
        (record { kind = t.kind; text = t.text; is_text = t.is_text; from = t.from })

  -- Behind peek on a source that starts with a quote.
  opened :
      (bs : Str)
      → peek (new_lexer (b'"' ∷ bs)) ≡ hold (pos b'"') (advance 1 (new_lexer (b'"' ∷ bs)))
  unfolding peek next new_lexer next_rune drop decode_rune
  opened bs = let e : nat_eq 0 (suc (length bs)) ≡ false = ground arith in rw e refl

  opened-Reading :
      (bs : Str)
      → Reading
          (start_token
            (reset_position (record (advance 1 (new_lexer (b'"' ∷ bs))) { ch = pos b'"' })))
          bs
          []
  unfolding start_token new_lexer drop
  opened-Reading bs = record {
    at = refl;
    rest = omega arith;
    so_far = refl;
    errors = refl;
    token = refl;
  }

  got-text :
      (p : Option ℕ) (l : Lexer)
      → is_some p ≡ true
      → l.got_string ≡ true
      → (text_from p l).0 ≡ l.str_buf
  unfolding text_from
  got-text none l e g = cc
  got-text (some n) l e g = rw g refl

  text-Token :
      (tok : Rune) (s : Str) (r : (Rune × Rune) × Lexer)
      → Token tok s r
      → (after r with_text).0 ≡ (tok, s)
  unfolding with_text token_text
  text-Token tok s ((t, ch), l) k =
      let ended = record l { tok_end = l.src_pos - l.last_char_len; ch = ch } in
      ap (λ a. (a, (text_from l.tok_pos ended).0)) k.kind
      ∙ ap (λ a. (tok, a)) (got-text l.tok_pos ended k.from k.is_text ∙ k.text)

  -- Where no identifier may start with a quote, the printed form of a text of ASCII characters other than
  -- NUL and BEL, in front of any rest, is read by Lex as one string with that text.
  pub lex-quote_string :
      (is_print : ℕ → Bool) (s rest : Str)
      → IsQuotable s
      → (lex xid (new_lexer (quote_string is_print s ++ rest))).0 ≡ (string_p, s)
  unfolding lex quote_string
  lex-quote_string is_print s rest k =
      let body = flat s ++ (b'"' ∷ rest) in
      let l = reset_position (record (advance 1 (new_lexer (b'"' ∷ body))) { ch = pos b'"' }) in
      let form : quote_string is_print s ++ rest ≡ b'"' ∷ body =
        ap (λ u. b'"' ∷ ((u ++ (b'"' ∷ [])) ++ rest))
          (quote_runes-flat is_print (length s) s (omega arith) k)
        ∙ ap (λ u. b'"' ∷ u) (append_assoc (flat s) (b'"' ∷ []) rest) in
      rw (form, opened body)
        (text-Token string_p s (redo xid (suc (suc (left l))) (pos b'"') l)
          (quote-Token s rest l k (opened-Reading body) (suc (left l))))

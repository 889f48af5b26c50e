-- ===== src/Theorems/Quoting.antt =====
-- Quoted strings, printed (quotedString.String in path/ast/ast.go) and read again (scanString in
-- path/parser/lex.go).
use sqljson.Prelude.{
  ℕ, zero, suc, ◌+◌, ◌<◌, ◌≡◌, refl, ap, ◌∙◌, Bool, true, false, [], ◌∷◌, ◌++◌, Str, nat_eq, ltb,
  arith, if◌then◌else◌, length, some, is_some,
}
use sqljson.Prelude.Int.{pos, negsuc}
use sqljson.Golang.Utf8.{decode_rune, encode_rune}
use sqljson.Parser.Token.{Rune}
use sqljson.Parser.Chars.{hex_char, merge}
use sqljson.Parser.Lexer.{Lexer, next, next_rune, drop, write_rune, advance, newline, after}
use sqljson.Parser.Escape.{
  write_then_next, scan_escape, escaped, after_escape, control, scan_hex, second_hex, write_hex,
}
pub mod Printed
pub mod Loop
pub mod Token

-- The lexer is in front of `bs`, inside a token, with the text read so far.
pub record Reading (l : Lexer) (bs : Str) (text : Str) : Type 0 where
  pub at : drop l.src_pos l.src_buf ≡ bs
  pub rest : l.src_end ≡ l.src_pos + length bs
  pub so_far : l.str_buf ≡ text
  pub errors : l.errors ≡ []
  pub token : is_some l.tok_pos ≡ true

drop-suc : (n : ℕ) (s : Str) (c : ℕ) (bs : Str) → drop n s ≡ c ∷ bs → drop (suc n) s ≡ bs
unfolding drop
drop-suc zero [] c bs h = cc
drop-suc zero (x ∷ s) c bs h = cc
drop-suc (suc n) [] c bs h = cc
drop-suc (suc n) (x ∷ s) c bs h = drop-suc n s c bs h

pub decode_ascii : (c : ℕ) (bs : Str) → c < 128 → decode_rune (c ∷ bs) ≡ some (c, 1)
unfolding decode_rune
decode_ascii c bs h = ground arith

-- An ASCII character but NUL is read as it is.
pub next-Reading :
    (c : ℕ) (bs t : Str) (l : Lexer)
    → Reading l (c ∷ bs) t
    → 0 < c
    → c < 128
    → ((next l).0 ≡ pos c) × Reading (next l).1 bs t
unfolding next next_rune
next-Reading c bs t l r p q =
    let e : nat_eq l.src_pos l.src_end ≡ false = ground (arith, r.rest) in
    let z : nat_eq c 0 ≡ false = ground arith in
    rw (e, r.at, decode_ascii c bs q, z) (refl, advanced (nat_eq c 10))
  where
    at_next : drop (l.src_pos + 1) l.src_buf ≡ bs
    at_next =
        let n : l.src_pos + 1 ≡ suc l.src_pos = omega arith in
        ap (λ k. drop k l.src_buf) n ∙ drop-suc l.src_pos l.src_buf c bs r.at

    step : Reading (advance 1 l) bs t
    step = record {
      at = at_next;
      rest = omega (arith, r.rest);
      so_far = r.so_far;
      errors = r.errors;
      token = r.token;
    }

    advanced : (b : Bool) → Reading (if b then newline (advance 1 l) else advance 1 l) bs t
    advanced true = record {
      at = step.at;
      rest = step.rest;
      so_far = step.so_far;
      errors = step.errors;
      token = step.token;
    }
    advanced false = step

encode_ascii : (c : ℕ) → c < 128 → encode_rune c ≡ c ∷ []
unfolding encode_rune
encode_ascii c h = ground arith

-- A character is written, and the next one is read.
pub write-Reading :
    (x c : ℕ) (bs t : Str) (l : Lexer)
    → Reading l (c ∷ bs) t
    → x < 128
    → 0 < c
    → c < 128
    → ((write_then_next (pos x) l).0 ≡ pos c)
      × Reading (write_then_next (pos x) l).1 bs (t ++ (x ∷ []))
unfolding write_rune
write-Reading x c bs t l r w p q =
    next-Reading c bs (t ++ (x ∷ [])) (write_rune (pos x) l)
      (record {
        at = r.at;
        rest = r.rest;
        so_far = ap (λ u. u ++ encode_rune x) r.so_far ∙ ap (λ u. t ++ u) (encode_ascii x w);
        errors = r.errors;
        token = r.token;
      })
      p q

abbrev pub Writes : ℕ → ℕ → Str → Str → Rune × Lexer → Type 0
Writes x d ds t r = (r.0 ≡ pos d) × Reading r.1 ds (t ++ (x ∷ []))

pub after_escape-Writes :
    (x d : ℕ) (ds t : Str) (r : Rune × Lexer)
    → Writes x d ds t r
    → Writes x d ds t (after (r) after_escape)
unfolding after_escape
after_escape-Writes x d ds t (pos c, l) h = h
after_escape-Writes x d ds t (negsuc c, l) h = cc h.0

-- A backslash in hand, and a letter that stands for x.
pub letter-Writes :
    (x c d : ℕ) (ds t : Str) (l : Lexer)
    → Reading l (c ∷ d ∷ ds) t
    → 0 < c
    → c < 128
    → 0 < d
    → d < 128
    → nat_eq c b'x' ≡ false
    → nat_eq c b'u' ≡ false
    → control c ≡ x
    → x < 128
    → Writes x d ds t (scan_escape l)
unfolding scan_escape escaped
letter-Writes x c d ds t l r p q p' q' nx nu e w =
    let n = next-Reading c (d ∷ ds) t l r p q in
    let m = write-Reading (control c) d ds t (next l).1 n.1 (rw e w) p' q' in
    rw (n.0, nx, nu)
      (after_escape-Writes x d ds t (write_then_next (pos (control c)) (next l).1) (rw (← e) m))

-- A backslash in hand, and `x` with two hexadecimal digits.
pub hex-Writes :
    (x a b g h d : ℕ) (ds t : Str) (l : Lexer)
    → Reading l (b'x' ∷ g ∷ h ∷ d ∷ ds) t
    → 0 < g
    → g < 128
    → 0 < h
    → h < 128
    → 0 < d
    → d < 128
    → hex_char (pos g) ≡ some a
    → hex_char (pos h) ≡ some b
    → merge a b ≡ x
    → 0 < x
    → x < 128
    → Writes x d ds t (scan_escape l)
unfolding scan_escape escaped scan_hex second_hex write_hex
hex-Writes x a b g h d ds t l r g1 g2 h1 h2 d1 d2 ga hb e x1 x2 =
    let n = next-Reading b'x' (g ∷ h ∷ d ∷ ds) t l r (omega arith) (omega arith) in
    let n1 = next-Reading g (h ∷ d ∷ ds) t (next l).1 n.1 g1 g2 in
    let n2 = next-Reading h (d ∷ ds) t (next (next l).1).1 n1.1 h1 h2 in
    let m = write-Reading x d ds t (next (next (next l).1).1).1 n2.1 x2 d1 d2 in
    let big : ltb 0 x ≡ true = ground arith in
    rw (n.0, n1.0, ga, n2.0, hb, e, big)
      (after_escape-Writes x d ds t (write_then_next (pos x) (next (next (next l).1).1).1) m)

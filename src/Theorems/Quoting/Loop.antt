-- ===== src/Theorems/Quoting/Loop.antt =====
-- The loop of scanString (path/parser/lex.go) on the printed form of a text.
use sqljson.Prelude.{
  ℕ, zero, suc, ◌≤◌, ◌<◌, ◌≡◌, ◌≢◌, refl, sym, ap, ◌∙◌, Bool, true, false, [], ◌∷◌, ◌++◌, Str, ltb,
  arith, length, length-append,
}
use sqljson.Prelude.Int.{pos}
use sqljson.Golang.Quote.{escape_ascii, escape_rune, quote_runes}
use mathlib.Core.List.{append_assoc, append-nil}
use sqljson.Prelude.Loops.{while, while_true, while_false}
use sqljson.Parser.Token.{Rune}
use sqljson.Parser.Lexer.{Lexer}
use sqljson.Parser.Text.{text_char, in_string}
use sqljson.Theorems.Quoting.{Reading, decode_ascii, Writes}
use sqljson.Theorems.Quoting.Printed.{printed}

pub quote_stops : in_string (pos b'"') ≡ false
unfolding in_string
quote_stops = refl

-- The texts of ASCII characters but NUL, which no path holds, and BEL, whose escape Lex does not know.
abbrev pub IsQuotable : Str → Type 0
IsQuotable [] = Unit
IsQuotable (x ∷ s) = (0 < x) × (x < 128) × (x ≢ 7) × IsQuotable s

-- The printed form of a text, without its quotes.
unfoldable pub flat : Str → Str
flat [] = []
flat (x ∷ s) = escape_ascii x ++ flat s

module _ (is_print : ℕ → Bool) where
  pub quote_runes-flat :
      (n : ℕ) (s : Str) → length s ≤ n → IsQuotable s → quote_runes is_print n s ≡ flat s
  unfolding quote_runes flat escape_rune
  quote_runes-flat zero [] h k = refl
  quote_runes-flat zero (x ∷ s) h k = absurd (omega arith)
  quote_runes-flat (suc n) [] h k = refl
  quote_runes-flat (suc n) (x ∷ s) h k =
      let e : ltb x 128 ≡ true = ground arith in
      rw (decode_ascii x s k.1, quote_runes, e)
        (ap (λ u. escape_ascii x ++ u) (quote_runes-flat n s (omega arith) k.3))

-- The first character of the printed form and the closing quote.
pub record Starts (bs : Str) : Type 0 where
  pub lead : ℕ
  pub others : Str
  pub form : bs ≡ lead ∷ others
  pub low : 0 < lead
  pub high : lead < 128

pub flat-Starts : (s rest : Str) → IsQuotable s → Starts (flat s ++ (b'"' ∷ rest))
unfolding flat
flat-Starts [] rest k = record {
  lead = b'"';
  others = rest;
  form = refl;
  low = omega arith;
  high = omega arith;
}
flat-Starts (x ∷ s) rest k =
    let f = printed x k.0 k.1 k.2 in
    record {
      lead = f.lead;
      others = (f.others ++ flat s) ++ (b'"' ∷ rest);
      form = ap (λ u. (u ++ flat s) ++ (b'"' ∷ rest)) f.form;
      low = f.low;
      high = f.high;
    }

pub length-flat : (s rest : Str) → IsQuotable s → length s < length (flat s ++ (b'"' ∷ rest))
unfolding flat
length-flat [] rest k = omega arith
length-flat (x ∷ s) rest k =
    let f = printed x k.0 k.1 k.2 in
    let e : length (flat (x ∷ s) ++ (b'"' ∷ rest))
        ≡ suc (length ((f.others ++ flat s) ++ (b'"' ∷ rest))) =
      ap (λ u. length ((u ++ flat s) ++ (b'"' ∷ rest))) f.form in
    omega (
      arith,
      e,
      length-flat s rest k.3,
      length-append (f.others ++ flat s) (b'"' ∷ rest),
      length-append f.others (flat s),
      length-append (flat s) (b'"' ∷ rest),
    )

abbrev pub text_loop : ℕ → Rune × Lexer → Rune × Lexer
text_loop n r =
    while n (λ (u : Rune × Lexer). in_string u.0) (λ (u : Rune × Lexer). text_char u.0 u.1) r

abbrev pub Quoted : Str → Str → Rune × Lexer → Type 0
Quoted rest text r = (r.0 ≡ pos b'"') × Reading r.1 rest text

-- The loop of scanString on the printed form of s: it stops at the quote, with s behind the text read
-- so far.
pub loop-Quoted :
    (s rest t bs : Str) (c n : ℕ) (l : Lexer)
    → IsQuotable s
    → length s < n
    → flat s ++ (b'"' ∷ rest) ≡ c ∷ bs
    → Reading l bs t
    → Quoted rest (t ++ s) (text_loop n (pos c, l))
unfolding flat
loop-Quoted s rest t bs c zero l k lt e r = absurd (omega arith)
loop-Quoted [] rest t bs c (suc n) l k lt e r =
    let q : b'"' ≡ c = cc in
    let b : rest ≡ bs = cc in
    let stops : in_string (pos c) ≡ false = rw (← q) quote_stops in
    rw
      (while_false n (λ (u : Rune × Lexer). in_string u.0) (λ (u : Rune × Lexer). text_char u.0 u.1)
        (pos c, l) stops)
      (ap pos (sym q), rw (append-nil t) (rw b r))
loop-Quoted (x ∷ s) rest t bs c (suc n) l k lt e r =
    let f = printed x k.0 k.1 k.2 in
    let g = flat-Starts s rest k.3 in
    let whole : f.lead ∷ (f.others ++ (g.lead ∷ g.others)) ≡ c ∷ bs =
      ap (λ u. f.lead ∷ (f.others ++ u)) (sym g.form)
      ∙ sym (ap (λ u. f.lead ∷ u) (append_assoc f.others (flat s) (b'"' ∷ rest)))
      ∙ sym (ap (λ u. (u ++ flat s) ++ (b'"' ∷ rest)) f.form)
      ∙ e in
    let q : f.lead ≡ c = cc in
    let b : f.others ++ (g.lead ∷ g.others) ≡ bs = cc in
    let w : Writes x g.lead g.others t (text_char (pos c) l) =
      rw (← q) (f.reads g.lead g.others t l (rw b r) g.low g.high) in
    let ih =
      loop-Quoted s rest (t ++ (x ∷ [])) g.others g.lead n (text_char (pos c) l).1 k.3 (omega arith)
        g.form w.1 in
    let goes : in_string (pos c) ≡ true = rw (← q) f.inside in
    let round : text_loop (suc n) (pos c, l) ≡ text_loop n (pos g.lead, (text_char (pos c) l).1) =
      while_true n (λ (u : Rune × Lexer). in_string u.0) (λ (u : Rune × Lexer). text_char u.0 u.1)
        (pos c, l) goes
      ∙ ap (λ a. text_loop n (a, (text_char (pos c) l).1)) w.0 in
    rw round (rw (← append_assoc t (x ∷ []) s) ih)

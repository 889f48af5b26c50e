-- ===== src/Theorems/Reading/Tokens.antt =====
-- Strings, identifiers, variables and numbers read forwards (path/parser/lex.go).
use sqljson.Prelude.{ℕ, suc, ◌<◌, ◌≡◌, refl, Bool, true, false, nat_eq, arith, Bool-cases, inl, inr}
use sqljson.Prelude.Int.{pos, negsuc}
use sqljson.Prelude.Loops.{while-Ends}
use sqljson.Parser.Token.{Rune, stop, variable_p}
use sqljson.Parser.Chars.{Xid, is_char, is_ident_rune, is_variable_rune}
use sqljson.Parser.Lexer.{Lexer, M, ◌>>=◌, left, next, add_error, fed}
use sqljson.Parser.Escape.{write_then_next}
use sqljson.Parser.Text.{
  got, scan_while, text_char, in_string, string_end, scan_string, ident_end, scan_ident,
  variable_rest, variable_from, scan_variable,
}
use sqljson.Theorems.Reading.{IsWell, cost, Reads, next-Reads}
use sqljson.Theorems.Reading.Escapes.{Reader, write_then_next-Reads, scan_escape-Reads}

-- A test that no rune below zero passes.
abbrev pub IsTest : (Rune → Bool) → Type 0
IsTest test = (n : ℕ) → test (negsuc n) ≡ false

-- A loop over characters ends by its test, and it reads forwards.
pub scan_while-Reads :
    (test : Rune → Bool) (body : Rune → M Rune)
    → IsTest test
    → ((c : Rune) → Reader (body c))
    → (ch : Rune) (l : Lexer) → IsWell l
    → Reads (cost (ch, l)) (scan_while test body ch l)
      × (test (scan_while test body ch l).0 ≡ false)
unfolding fed
scan_while-Reads test body low reader ch l h =
    let e =
      while-Ends (Reads (cost (ch, l))) cost (λ (s : Rune × Lexer). test s.0)
        (λ (s : Rune × Lexer). body s.0 s.1) kept (suc (suc (left l))) (ch, l) (bound ch)
        (h, omega arith) in
    (rw e.1 e.0, e.1)
  where
    kept :
        (s : Rune × Lexer)
        → Reads (cost (ch, l)) s
        → test s.0 ≡ true
        → Reads (cost (ch, l)) (body s.0 s.1) × (cost (body s.0 s.1) < cost s)
    kept (pos c, k) p t = let q = reader (pos c) k p.0 in ((q.0, omega arith), omega arith)
    kept (negsuc c, k) p t = cc (low c)

    bound : (c : Rune) → cost (c, l) < suc (suc (left l))
    bound (pos c) = omega arith
    bound (negsuc c) = omega arith

text_char-Reads : (c : Rune) → Reader (text_char c)
unfolding text_char
text_char-Reads c l h = elim (Bool-cases (is_char c 92)) [
  | inl e ↦ rw e (scan_escape-Reads l h)
  | inr e ↦ rw e (write_then_next-Reads c l h)
]

-- A token and the next character, by what is left.
abbrev pub Takes : ℕ → (Rune × Rune) × Lexer → Type 0
Takes n r = Reads n (r.0.1, r.1)

abbrev pub Taker : M (Rune × Rune) → Type 0
Taker m = (l : Lexer) → IsWell l → Takes (left l) (m l)

-- The steps behind a character that is in hand.
abbrev pub Follows : (Rune → M (Rune × Rune)) → Type 0
Follows k = (c : Rune) (l : Lexer) → IsWell l → Takes (cost (c, l)) (k c l)

pub behind-Takes :
    (m : M Rune) (k : Rune → M (Rune × Rune)) → Reader m → Follows k → Taker (m >>= k)
behind-Takes m k r f l h = let p = r l h in let q = f (m l).0 (m l).1 p.0 in (q.0, omega arith)

loop-Follows :
    (test : Rune → Bool) (body : Rune → M Rune) (k : Rune → M (Rune × Rune))
    → IsTest test
    → ((c : Rune) → Reader (body c))
    → Follows k
    → Follows (λ c. scan_while test body c >>= k)
loop-Follows test body k low reader f c l h =
    let p = scan_while-Reads test body low reader c l h in
    let r : Rune × Lexer = scan_while test body c l in
    let q = f (scan_while test body c l).0 (scan_while test body c l).1 p.0.0 in (q.0, omega arith)

string_end-Follows : (ret : Rune) → Follows (string_end ret)
unfolding string_end add_error
string_end-Follows ret (negsuc c) l h = ground arith
string_end-Follows ret (pos c) l h = elim (Bool-cases (nat_eq c b'"')) [
  | inl e ↦ rw e (let p = next-Reads _ h in (p.0, omega arith))
  | inr e ↦ rw e (ground arith)
]

in_string-low : IsTest in_string
unfolding in_string
in_string-low n = refl

pub scan_string-Takes : (ret : Rune) → Taker (scan_string ret)
unfolding scan_string
scan_string-Takes ret =
    behind-Takes next (λ c. scan_while in_string text_char c >>= string_end ret) next-Reads
      (loop-Follows in_string text_char (string_end ret) in_string-low text_char-Reads
        (string_end-Follows ret))

-- The character in hand goes on, or nothing does.
pub self-Reads : (c : Rune) (l : Lexer) → IsWell l → Reads (cost (c, l)) (c, l)
self-Reads (pos c) l h = (h, omega arith)
self-Reads (negsuc c) l h = (h, omega arith)

pub stop-Reads : (c : Rune) (l : Lexer) → IsWell l → Reads (cost (c, l)) (stop, l)
stop-Reads (pos c) l h = (h, omega arith)
stop-Reads (negsuc c) l h = (h, omega arith)

-- Taking from where nothing was read yet.
pub weaker :
    (c : Rune) (l : Lexer) (r : (Rune × Rune) × Lexer) → Takes (left l) r → Takes (cost (c, l)) r
weaker (pos c) l r h = (h.0, omega arith)
weaker (negsuc c) l r h = h

module _ (xid : Xid) where
  ident_end-Follows : Follows (ident_end xid)
  unfolding ident_end
  ident_end-Follows (pos c) l h = ground arith
  ident_end-Follows (negsuc c) l h = ground arith

  ident_rune-low : IsTest (is_ident_rune xid)
  unfolding is_ident_rune
  ident_rune-low n = refl

  variable_rune-low : IsTest (is_variable_rune xid)
  unfolding is_variable_rune
  variable_rune-low n = refl

  pub scan_ident-Takes : (c : Rune) → Taker (scan_ident xid c)
  unfolding scan_ident
  scan_ident-Takes c =
      behind-Takes (text_char c) (λ c. scan_while (is_ident_rune xid) text_char c >>= ident_end xid)
        (text_char-Reads c)
        (loop-Follows (is_ident_rune xid) text_char (ident_end xid) ident_rune-low text_char-Reads
          ident_end-Follows)

  got-Follows : Follows (λ ch l. ((variable_p, ch), got l))
  got-Follows (pos c) l h = (h, omega arith)
  got-Follows (negsuc c) l h = (h, omega arith)

  variable_rest-Takes : (c : Rune) → Taker (variable_rest xid c)
  unfolding variable_rest
  variable_rest-Takes c =
      behind-Takes (write_then_next c)
        (λ c.
          scan_while (is_variable_rune xid) write_then_next c >>= λ ch l. ((variable_p, ch), got l))
        (write_then_next-Reads c)
        (loop-Follows (is_variable_rune xid) write_then_next (λ ch l. ((variable_p, ch), got l))
          variable_rune-low write_then_next-Reads got-Follows)

  variable_from-Follows : Follows (variable_from xid)
  unfolding variable_from
  variable_from-Follows c l h = elim (Bool-cases (is_char c b'"')) [
    | inl e ↦ rw e (weaker c l (scan_string variable_p l) (scan_string-Takes variable_p l h))
    | inr e ↦ elim (Bool-cases (is_variable_rune xid c)) [
      | inl f ↦ rw (e, f) (weaker c l (variable_rest xid c l) (variable_rest-Takes c l h))
      | inr f ↦ rw (e, f) (self-Reads c l h)
    ]
  ]

  pub scan_variable-Takes : Taker (scan_variable xid)
  unfolding scan_variable
  scan_variable-Takes = behind-Takes next (variable_from xid) next-Reads variable_from-Follows

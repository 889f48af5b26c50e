-- ===== src/Theorems/Reading/Escapes.antt =====
-- Escapes read forwards (path/parser/lex.go): scanEscape and what it calls.
use sqljson.Prelude.{
  ℕ, zero, suc, ◌+◌, ◌*◌, ◌≤◌, if◌then◌else◌, Option, none, some, nat_eq, ltb, arith, Bool-cases,
  inl, inr, Option-cases,
}
use sqljson.Prelude.Int.{pos, negsuc}
use sqljson.Golang.Utf8.{is_surrogate, decode_pair}
use sqljson.Parser.Token.{Rune}
use sqljson.Parser.Chars.{is_char, hex_char, merge}
use sqljson.Parser.Lexer.{Lexer, M, ◌>>=◌, left, next, fail, write_rune, add_error, Message}
use sqljson.Parser.Escape.{
  write_then_next, next_hex, write_hex, second_hex, scan_hex, decoded, braced, four_digits,
  decode_unicode, back, paired, low_escape, low_half, unicode_value, scan_unicode, control, escaped,
  after_escape, scan_escape,
}
use sqljson.Theorems.Reading.{IsWell, Reads, Moved, next-Moved, next-Reads}

-- The source is not read backwards.
abbrev pub Forward : {A : Type 0} → Lexer → A × Lexer → Type 0
Forward l r = IsWell r.1 × (left r.1 ≤ left l)

abbrev pub Forwards : {A : Type 0} → M A → Type 0
Forwards m = (l : Lexer) → IsWell l → Forward l (m l)

abbrev pub Reader : M Rune → Type 0
Reader m = (l : Lexer) → IsWell l → Reads (left l) (m l)

elim_cost : {n : ℕ} (r : Rune × Lexer) → Reads n r → IsWell r.1 × (left r.1 ≤ n)
elim_cost (pos c, l) h = (h.0, omega arith)
elim_cost (negsuc c, l) h = h

pub next-Forward : Forwards next
next-Forward l h = elim_cost (next l) (next-Reads l h)

fail-Reads : (m : Message) → Reader (fail m)
unfolding fail add_error
fail-Reads m l h = ground arith

pub write_then_next-Reads : (c : Rune) → Reader (write_then_next c)
unfolding write_rune
write_then_next-Reads (pos c) l h = next-Reads _ h
write_then_next-Reads (negsuc c) l h = next-Reads _ h

next_hex-Forward : Forwards next_hex
next_hex-Forward l h = next-Forward l h

-- What stands behind a step forwards.
module _ {A : Type 0} (m : M A) (f : Forwards m) where
  pub behind-Reads : (k : A → M Rune) → ((a : A) → Reader (k a)) → Reader (m >>= k)
  behind-Reads k r l h = let p = f l h in let q = r (m l).0 (m l).1 p.0 in (q.0, omega arith)

  behind-Forwards : {B : Type 0} (k : A → M B) → ((a : A) → Forwards (k a)) → Forwards (m >>= k)
  behind-Forwards k r l h = let p = f l h in let q = r (m l).0 (m l).1 p.0 in (q.0, omega arith)

write_hex-Reads : (a : ℕ) (o : Option ℕ) → Reader (write_hex a o)
unfolding write_hex
write_hex-Reads a none l h = fail-Reads _ l h
write_hex-Reads a (some b) l h = elim (Bool-cases (ltb 0 (merge a b))) [
  | inl e ↦ rw e (write_then_next-Reads (pos (merge a b)) l h)
  | inr e ↦ rw e (fail-Reads _ l h)
]

second_hex-Reads : (o : Option ℕ) → Reader (second_hex o)
unfolding second_hex
second_hex-Reads none = fail-Reads _
second_hex-Reads (some a) = behind-Reads next_hex next_hex-Forward (write_hex a) (write_hex-Reads a)

scan_hex-Reads : Reader scan_hex
unfolding scan_hex
scan_hex-Reads = behind-Reads next_hex next_hex-Forward second_hex second_hex-Reads

failed-Forward : (m : Message) → Forwards (fail m)
unfolding fail add_error
failed-Forward m l h = ground arith

decoded-Forward : (o : Option ℕ) → Forwards (decoded o)
unfolding decoded fail add_error
decoded-Forward none l h = ground arith
decoded-Forward (some r) l h = ground arith

braced-Forward : (n r : ℕ) (c : Rune) → Forwards (braced n r c)
unfolding braced
braced-Forward zero r c l h = elim (Bool-cases (is_char c b'}')) [
  | inl e ↦ rw e (decoded-Forward (some r) l h)
  | inr e ↦ rw e (failed-Forward _ l h)
]
braced-Forward (suc n) r c l h = elim (Bool-cases (is_char c b'}')) [
  | inl e ↦ rw (e, braced) (decoded-Forward (some r) l h)
  | inr e ↦ elim (Option-cases (hex_char c)) [
    | inl f ↦ rw (e, f, braced) (failed-Forward _ l h)
    | inr (d, f) ↦
        rw (e, f, braced)
          (behind-Forwards next next-Forward (braced n (merge r d)) (braced-Forward n (merge r d)) l
            h)
  ]
]

abbrev more_digit : ℕ → Option ℕ → Option ℕ
more_digit r d = elim d [ none ↦ none | some c ↦ some (r * 16 + c) ]

four_digits-Forward : (n : ℕ) (o : Option ℕ) → Forwards (four_digits n o)
unfolding four_digits
four_digits-Forward zero none = failed-Forward _
four_digits-Forward (suc n) none = failed-Forward _
four_digits-Forward zero (some r) = decoded-Forward (some r)
four_digits-Forward (suc n) (some r) =
    behind-Forwards next_hex next_hex-Forward (λ d. four_digits n (more_digit r d))
      (λ d. four_digits-Forward n (more_digit r d))

abbrev digits_from : Rune → M Rune
digits_from ch =
    if is_char ch b'{' then (do c ← next; braced 6 0 c) else four_digits 3 (hex_char ch)

digits_from-Forward : (ch : Rune) → Forwards (digits_from ch)
digits_from-Forward ch l h = elim (Bool-cases (is_char ch b'{')) [
  | inl e ↦ rw e (behind-Forwards next next-Forward (braced 6 0) (braced-Forward 6 0) l h)
  | inr e ↦ rw e (four_digits-Forward 3 (hex_char ch) l h)
]

decode_unicode-Forward : Forwards decode_unicode
unfolding decode_unicode
decode_unicode-Forward = behind-Forwards next next-Forward digits_from digits_from-Forward

paired-Reads : (high : ℕ) (r : Rune) → Reader (paired high r)
unfolding paired
paired-Reads high (negsuc n) l h = ground arith
paired-Reads high (pos low) l h = elim (Option-cases (decode_pair high low)) [
  | inl e ↦ rw (e, paired) (fail-Reads _ l h)
  | inr (r, e) ↦ rw (e, paired) (write_then_next-Reads (pos r) l h)
]

-- A step back makes up for the character that was read.
back-Reads :
    (l : Lexer) (r : Rune × Lexer) (m : Message)
    → IsWell l
    → Moved l r
    → Reads (left l) (fail m (back r.1))
unfolding fail add_error
back-Reads l r m h moved = ground arith

low_half-Reads : (high : ℕ) (ch : Rune) → Reader (low_half high ch)
unfolding low_half low_escape
low_half-Reads high ch l h = elim (Bool-cases (is_char ch 92)) [
  | inr e ↦ rw e (fail-Reads _ l h)
  | inl e ↦ elim (Bool-cases (is_char (next l).0 b'u')) [
    | inr f ↦ rw (e, f) (back-Reads l (next l) _ h (next-Moved l h))
    | inl f ↦
        rw (e, f)
          (behind-Reads next next-Forward (λ _. decode_unicode >>= paired high)
            (λ _.
              behind-Reads decode_unicode decode_unicode-Forward (paired high) (paired-Reads high))
            l h)
  ]
]

unicode_value-Reads : (r : Rune) → Reader (unicode_value r)
unfolding unicode_value
unicode_value-Reads (negsuc n) l h = ground arith
unicode_value-Reads (pos r) l h = elim (Bool-cases (is_surrogate r)) [
  | inl e ↦ rw e (behind-Reads next next-Forward (low_half r) (low_half-Reads r) l h)
  | inr e ↦ rw e (write_then_next-Reads (pos r) l h)
]

scan_unicode-Reads : Reader scan_unicode
unfolding scan_unicode
scan_unicode-Reads =
    behind-Reads decode_unicode decode_unicode-Forward unicode_value unicode_value-Reads

escaped-Reads : (c : Rune) → Reader (escaped c)
unfolding escaped
escaped-Reads (negsuc n) l h = fail-Reads _ l h
escaped-Reads (pos c) l h = elim (Bool-cases (nat_eq c b'x')) [
  | inl e ↦ rw e (scan_hex-Reads l h)
  | inr e ↦ elim (Bool-cases (nat_eq c b'u')) [
    | inl f ↦ rw (e, f) (scan_unicode-Reads l h)
    | inr f ↦ rw (e, f) (write_then_next-Reads (pos (control c)) l h)
  ]
]

after_escape-Reads : (n : ℕ) (r : Rune) (l : Lexer) → Reads n (r, l) → Reads n (after_escape r l)
unfolding after_escape
after_escape-Reads n (negsuc c) l h = h
after_escape-Reads n (pos c) l h = h

pub scan_escape-Reads : Reader scan_escape
unfolding scan_escape
scan_escape-Reads =
    behind-Reads next next-Forward (λ c. escaped c >>= after_escape)
      (λ c l h. after_escape-Reads (left l) (escaped c l).0 (escaped c l).1 (escaped-Reads c l h))

-- ===== src/Theorems/Quoting/Printed.antt =====
-- The printed form of one character (quotedString.String in path/ast/ast.go), read again (scanEscape in
-- path/parser/lex.go).
use sqljson.Prelude.{
  ℕ, ◌<◌, ◌≡◌, ◌≢◌, ◌/◌, ◌%◌, refl, true, false, ◌||◌, ◌&&◌, [], ◌∷◌, ◌++◌, Str, nat_eq, ltb, leb,
  arith, Bool-cases, inl, inr, some,
}
use sqljson.Prelude.Int.{pos}
use sqljson.Golang.Quote.{escape_ascii, escape_letter, hex_digit}
use sqljson.Parser.Chars.{hex_char, merge}
use sqljson.Parser.Lexer.{Lexer}
use sqljson.Parser.Text.{text_char, in_string}
use sqljson.Theorems.Quoting.{Reading, write-Reading, Writes, letter-Writes, hex-Writes}

-- What the printed form of x starts with, and that reading it from there on gives x back.
pub record Printed (x : ℕ) : Type 0 where
  pub lead : ℕ
  pub others : Str
  pub form : escape_ascii x ≡ lead ∷ others
  pub low : 0 < lead
  pub high : lead < 128
  pub inside : in_string (pos lead) ≡ true
  pub reads :
      (d : ℕ) (ds t : Str) (l : Lexer)
      → Reading l (others ++ (d ∷ ds)) t
      → 0 < d
      → d < 128
      → Writes x d ds t (text_char (pos lead) l)

hex_digit-hex_char : (a : ℕ) → a < 16 → hex_char (pos (hex_digit a)) ≡ some a
unfolding hex_char
hex_digit-hex_char a h = ground arith

hex_digit_range : (a : ℕ) → a < 16 → (0 < hex_digit a) × (hex_digit a < 128)
hex_digit_range a h = ground arith

-- An escape starts with a backslash.
module _ (x : ℕ) (p : 0 < x) (q : x < 128) where
  special : nat_eq x b'"' || nat_eq x 92 ≡ true → Printed x
  unfolding escape_ascii text_char in_string
  special e = record {
    lead = 92;
    others = x ∷ [];
    form = rw e refl;
    low = omega arith;
    high = omega arith;
    inside = refl;
    reads = λ d ds t l r d1 d2.
        letter-Writes x x d ds t l r p q d1 d2 (ground arith) (ground arith) (ground arith) q;
  }

  plain : nat_eq x b'"' || nat_eq x 92 ≡ false → leb 32 x && ltb x 127 ≡ true → Printed x
  unfolding escape_ascii text_char in_string
  plain e f = record {
    lead = x;
    others = [];
    form = rw (e, f) refl;
    low = p;
    high = q;
    inside = ground arith;
    reads = λ d ds t l r d1 d2.
        let z : nat_eq x 92 ≡ false = ground arith in rw z (write-Reading x d ds t l r q d1 d2);
  }

  letter : x ≢ 7 → leb 32 x && ltb x 127 ≡ false → nat_eq (escape_letter x) 0 ≡ false → Printed x
  unfolding escape_ascii text_char in_string
  letter n f g = record {
    lead = 92;
    others = escape_letter x ∷ [];
    form = (let e : nat_eq x b'"' || nat_eq x 92 ≡ false = ground arith in rw (e, f, g) refl);
    low = omega arith;
    high = omega arith;
    inside = refl;
    reads = λ d ds t l r d1 d2.
        letter-Writes x (escape_letter x) d ds t l r (ground arith) (ground arith) d1 d2
          (ground arith) (ground arith) (ground arith) q;
  }

  hexadecimal : leb 32 x && ltb x 127 ≡ false → nat_eq (escape_letter x) 0 ≡ true → Printed x
  unfolding escape_ascii text_char in_string merge
  hexadecimal f g =
      let u = hex_digit_range (x / 16) (omega arith) in
      let v = hex_digit_range (x % 16) (omega arith) in
      record {
        lead = 92;
        others = b'x' ∷ hex_digit (x / 16) ∷ hex_digit (x % 16) ∷ [];
        form = (let e : nat_eq x b'"' || nat_eq x 92 ≡ false = ground arith in rw (e, f, g) refl);
        low = omega arith;
        high = omega arith;
        inside = refl;
        reads = λ d ds t l r d1 d2.
            hex-Writes x (x / 16) (x % 16) (hex_digit (x / 16)) (hex_digit (x % 16)) d ds t l r u.0
              u.1 v.0 v.1 d1 d2 (hex_digit-hex_char (x / 16) (omega arith))
              (hex_digit-hex_char (x % 16) (omega arith)) (omega arith) p q;
      }

  pub printed : x ≢ 7 → Printed x
  printed n = elim (Bool-cases (nat_eq x b'"' || nat_eq x 92)) [
    | inl e ↦ special e
    | inr e ↦ elim (Bool-cases (leb 32 x && ltb x 127)) [
      | inl f ↦ plain e f
      | inr f ↦ elim (Bool-cases (nat_eq (escape_letter x) 0)) [
        | inl g ↦ hexadecimal f g
        | inr g ↦ letter n f g
      ]
    ]
  ]

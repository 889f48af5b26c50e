-- ===== src/Theorems/Reading/Numbers.antt =====
-- Numbers read forwards (path/parser/lex.go).
use sqljson.Prelude.{
  ℕ, suc, ◌≤◌, ◌<◌, ◌≡◌, refl, ap, ◌⊎◌, Option, none, some, [], Str, Bool, true, false,
  if◌then◌else◌, ◌||◌, nat_eq, arith, Bool-cases, inl, inr,
}
use sqljson.Prelude.Int.{pos, negsuc}
use sqljson.Prelude.Loops.{while, while-Ends}
use sqljson.Parser.Token.{Rune, int_p, numeric_p}
use sqljson.Parser.Chars.{
  Xid, is_char, is_ident_start, is_decimal, is_hex, has_valid_separators, lower,
}
use sqljson.Parser.Lexer.{
  Lexer, M, ◌>>=◌, pure, left, next, add_error, fed, Message, token_text, text_from,
  exponent_mantissa, trailing_junk, invalid_digit, separate_digits, exponent_digits,
  underscore_at_start,
}
use sqljson.Parser.Number.{
  terminated, Prefix, no_prefix, zero_prefix, hex, octal, binary, is_integer_only, base_of, Found,
  nothing, leading_zero, is_digit, Digits, digits_round, digits, reject, with_exponent, number_end,
  separated, check_separators, check_digits, exponent_end, exponent_from, exponent_sign,
  scan_exponent, scan_fraction, integer_end, scan_integer, after_zero, integer_dot, integer_rest,
  scan_number,
}
use sqljson.Theorems.Reading.{IsWell, cost, Reads, next-Reads}
use sqljson.Theorems.Reading.Tokens.{Takes, Follows, behind-Takes, self-Reads, stop-Reads, weaker}

digit-low : (base n : ℕ) → is_digit base (negsuc n) ≡ false
unfolding is_digit is_decimal is_hex
digit-low base n = ground arith

abbrev Left : ℕ → (Found × Rune) × Lexer → Type 0
Left n r = Reads n (r.0.1, r.1)

-- Nothing was read yet, or there is less than before.
abbrev Since : Rune → Lexer → Digits → Type 0
Since c l d = Reads (cost (c, l)) (d.1, d.2) × ((d.1 ≡ c) ⊎ (cost (d.1, d.2) ≤ left l))

digits_round-Since :
    (base : ℕ) (c : Rune) (l : Lexer) (d : Digits)
    → Since c l d
    → is_digit base d.1 ≡ true
    → Since c l (digits_round base d)
      × (cost ((digits_round base d).1, (digits_round base d).2) < cost (d.1, d.2))
unfolding digits_round
digits_round-Since base (pos c) l (g, pos n, k) p t =
    let q = next-Reads k p.0.0 in ((((q.0, omega arith), inr (omega arith))), omega arith)
digits_round-Since base (negsuc c) l (g, pos n, k) p t =
    let q = next-Reads k p.0.0 in ((((q.0, omega arith), inr (omega arith))), omega arith)
digits_round-Since base c l (g, negsuc n, k) p t = cc (digit-low base n)

pub bound : (l : Lexer) (n : Rune) → cost (n, l) < suc (suc (left l))
bound l (pos n) = omega arith
bound l (negsuc n) = omega arith

less-Since :
    (base : ℕ) (c : Rune) (l : Lexer) (d : Digits)
    → Since c l d
    → is_digit base d.1 ≡ false
    → is_digit base c ≡ true
    → cost (d.1, d.2) ≤ left l
less-Since base c l d (r, inr p) e t = p
less-Since base c l d (r, inl p) e t = cc (ap (is_digit base) p)

-- The digits end by their test, and a first digit is read.
digits-Left :
    (base : ℕ) (f : Found) (c : Rune) (l : Lexer)
    → IsWell l
    → Left (cost (c, l)) (digits base f c l)
      × (is_digit base c ≡ true → Left (left l) (digits base f c l))
unfolding digits fed
digits-Left base f c l h =
    let s : Digits =
      while (suc (suc (left l))) (λ (d : Digits). is_digit base d.1) (digits_round base)
        (f, c, l) in
    let e : Since c l s × (is_digit base s.1 ≡ false) =
      while-Ends (Since c l) (λ (d : Digits). cost (d.1, d.2)) (λ (d : Digits). is_digit base d.1)
        (digits_round base) (digits_round-Since base c l) (suc (suc (left l))) (f, c, l) (bound l c)
        (self-Reads c l h, inl refl) in
    rw e.1 (e.0.0, λ t. (e.0.0.0, less-Since base c l s e.0 e.1 t))

rejected : (m : Message) (c : Rune) (l : Lexer) → IsWell l → Takes (cost (c, l)) (reject m l)
unfolding add_error
rejected m c l h = stop-Reads c l h

-- The text of the token is read with no change to the source.
text_from-Follows :
    (k : Str → Rune → M (Rune × Rune))
    → ((t : Str) → Follows (k t))
    → (o : Option ℕ) → Follows (λ c. text_from o >>= λ t. k t c)
unfolding text_from
text_from-Follows k f none c l h = f [] c l h
text_from-Follows k f (some p) (pos c) l h = f _ (pos c) _ h
text_from-Follows k f (some p) (negsuc c) l h = f _ (negsuc c) _ h

-- The next character is read first.
pub next-Follows :
    (k : Rune → M (Rune × Rune))
    → Follows k
    → (c : Rune) (l : Lexer) → IsWell l
    → Takes (cost (c, l)) ((next >>= k) l)
next-Follows k f c l h = weaker c l ((next >>= k) l) (behind-Takes next k next-Reads f l h)

-- One of two steps.
pub chosen :
    (b : Bool) (x y : M (Rune × Rune)) (n : ℕ) (l : Lexer)
    → Takes n (x l)
    → Takes n (y l)
    → Takes n ((if b then x else y) l)
chosen true x y n l p q = p
chosen false x y n l p q = q

module _ (xid : Xid) where
  number_end-Follows : (tok : Rune) → Follows (number_end xid tok)
  unfolding number_end
  number_end-Follows tok c l h = elim (Bool-cases (is_ident_start xid c)) [
    | inl e ↦ rw e (rejected trailing_junk c l h)
    | inr e ↦ rw e (self-Reads c l h)
  ]

  separated-Follows : (tok : Rune) (b : Bool) → Follows (λ c. separated xid tok c b)
  unfolding separated
  separated-Follows tok true c l h = number_end-Follows tok c l h
  separated-Follows tok false c l h = rejected separate_digits c l h

  check_separators-Follows : (tok : Rune) → Follows (check_separators xid tok)
  unfolding check_separators token_text
  check_separators-Follows tok (pos c) l h =
      text_from-Follows (λ t c. separated xid tok c (has_valid_separators t))
        (λ t. separated-Follows tok (has_valid_separators t)) l.tok_pos (pos c) (terminated l) h
  check_separators-Follows tok (negsuc c) l h =
      text_from-Follows (λ t c. separated xid tok c (has_valid_separators t))
        (λ t. separated-Follows tok (has_valid_separators t)) l.tok_pos (negsuc c) (terminated l) h

  check_digits-Follows : (tok : Rune) (f : Found) → Follows (check_digits xid tok f)
  unfolding check_digits
  check_digits-Follows tok f c l h = ground (
    arith,
    rejected (invalid_digit f.invalid) c l h,
    check_separators-Follows tok c l h,
    number_end-Follows tok c l h,
  )

  exponent_end-Follows : (f e : Found) → Follows (λ c. exponent_end xid f (e, c))
  unfolding exponent_end
  exponent_end-Follows f e c l h = elim (Bool-cases e.digit) [
    | inl d ↦ rw d (check_digits-Follows numeric_p (with_exponent f e) c l h)
    | inr d ↦ rw d (rejected exponent_digits c l h)
  ]

  -- Behind digits.
  digits-Follows :
      (base : ℕ) (f : Found) (k : Found × Rune → M (Rune × Rune))
      → ((g : Found) → Follows (λ c. k (g, c)))
      → Follows (λ c. digits base f c >>= k)
  digits-Follows base f k r c l h =
      let p = (digits-Left base f c l h).0 in
      let q = r (digits base f c l).0.0 (digits base f c l).0.1 (digits base f c l).1 p.0 in
      (q.0, omega arith)

  exponent_from-Follows : (f : Found) → Follows (exponent_from xid f)
  unfolding exponent_from
  exponent_from-Follows f = digits-Follows 10 nothing (exponent_end xid f) (exponent_end-Follows f)

  exponent_sign-Follows : (f : Found) → Follows (exponent_sign xid f)
  unfolding exponent_sign
  exponent_sign-Follows f c l h = elim (Bool-cases (is_char c b'+' || is_char c b'-')) [
    | inl e ↦ rw e (next-Follows (exponent_from xid f) (exponent_from-Follows f) c l h)
    | inr e ↦ rw e (exponent_from-Follows f c l h)
  ]

  scan_exponent-Follows :
      (tok : Rune) (p : Prefix) (f : Found) → Follows (scan_exponent xid tok p f)
  unfolding scan_exponent
  scan_exponent-Follows tok p f c l h = elim (Bool-cases (is_char (lower c) b'e')) [
    | inl e ↦ elim (Bool-cases (is_integer_only p)) [
      | inl i ↦ rw (e, i) (rejected (exponent_mantissa c) c l h)
      | inr i ↦ rw (e, i) (next-Follows (exponent_sign xid f) (exponent_sign-Follows f) c l h)
    ]
    | inr e ↦ elim (Bool-cases (is_ident_start xid (lower c))) [
      | inl i ↦ rw (e, i) (rejected trailing_junk c l h)
      | inr i ↦ rw (e, i) (check_digits-Follows tok f c l h)
    ]
  ]

  scan_fraction-Follows : (p : Prefix) (f : Found) → Follows (scan_fraction xid p f)
  unfolding scan_fraction
  scan_fraction-Follows p f =
      digits-Follows (base_of p) f (λ r. scan_exponent xid numeric_p p r.0 r.1)
        (λ g. scan_exponent-Follows numeric_p p g)

  integer_dot-Takes :
      (p : Prefix) (f : Found) (c : ℕ) (l : Lexer)
      → IsWell l
      → Takes (cost (pos c, l)) (integer_dot xid p f l)
  unfolding integer_dot
  integer_dot-Takes p f c l h =
      chosen (is_integer_only p) (pure (int_p, pos b'.')) (next >>= scan_fraction xid p f)
        (cost (pos c, l)) l (h, omega arith)
        (next-Follows (scan_fraction xid p f) (scan_fraction-Follows p f) (pos c) l h)

  integer_rest-Follows : (p : Prefix) (f : Found) → Follows (integer_rest xid p f)
  unfolding integer_rest
  integer_rest-Follows p f (negsuc c) l h = scan_exponent-Follows int_p p f (negsuc c) l h
  integer_rest-Follows p f (pos c) l h = elim (Bool-cases (nat_eq c b'.')) [
    | inl d ↦ rw d (integer_dot-Takes p f c l h)
    | inr d ↦ rw d (scan_exponent-Follows int_p p f (pos c) l h)
  ]

  integer_end-Follows : (p : Prefix) (f : Found) → Follows (λ c. integer_end xid p (f, c))
  unfolding integer_end
  integer_end-Follows p f c l h =
      chosen f.digit (integer_rest xid p f c) (reject trailing_junk) (cost (c, l)) l
        (integer_rest-Follows p f c l h) (rejected trailing_junk c l h)

  scan_integer-Follows : (p : Prefix) (f : Found) → Follows (scan_integer xid p f)
  unfolding scan_integer
  scan_integer-Follows p f c l h = elim (Bool-cases (is_char c b'_')) [
    | inl e ↦ rw e (rejected underscore_at_start c l h)
    | inr e ↦ rw e (digits-Follows (base_of p) f (integer_end xid p) (integer_end-Follows p) c l h)
  ]

  after_zero-Follows : Follows (after_zero xid)
  unfolding after_zero
  after_zero-Follows c l h = ground (
    arith,
    next-Follows (scan_integer xid hex nothing) (scan_integer-Follows hex nothing) c l h,
    next-Follows (scan_integer xid octal nothing) (scan_integer-Follows octal nothing) c l h,
    next-Follows (scan_integer xid binary nothing) (scan_integer-Follows binary nothing) c l h,
    scan_integer-Follows zero_prefix leading_zero c l h,
    rejected underscore_at_start c l h,
    rejected trailing_junk c l h,
  )

  -- A number takes its first character.
  first_digit :
      (c : Rune) (l : Lexer)
      → IsWell l
      → is_decimal c ≡ true
      → Takes (left l) (scan_integer xid no_prefix nothing c l)
  unfolding scan_integer is_digit
  first_digit c l h t = elim (Bool-cases (is_char c b'_')) [
    | inl e ↦ rw e (h, omega arith)
    | inr e ↦ rw e (
        let p = (digits-Left 10 nothing c l h).1 (rw t refl) in
        let q =
          integer_end-Follows no_prefix (digits 10 nothing c l).0.0 (digits 10 nothing c l).0.1
            (digits 10 nothing c l).1 p.0 in
        (q.0, omega arith))
  ]

  pub scan_number-Takes :
      (c : Rune) (l : Lexer)
      → IsWell l
      → is_decimal c ≡ true
      → Takes (left l) (scan_number xid c false l)
  unfolding scan_number
  scan_number-Takes c l h t = elim (Bool-cases (is_char c b'0')) [
    | inl e ↦ rw e (behind-Takes next (after_zero xid) next-Reads after_zero-Follows l h)
    | inr e ↦ rw e (first_digit c l h t)
  ]

  pub scan_number-Follows : Follows (λ c. scan_number xid c true)
  unfolding scan_number
  scan_number-Follows = scan_fraction-Follows no_prefix nothing

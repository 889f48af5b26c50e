-- ===== src/Theorems/Reading/Lexing.antt =====
-- Lex reads forwards (path/parser/lex.go): every token takes at least one character.
use sqljson.Prelude.{
  ℕ, zero, suc, ◌+◌, ◌-◌, ◌≤◌, ◌<◌, ◌≡◌, refl, Bool, true, false, if◌then◌else◌, ◌&&◌, nat_eq,
  arith, Bool-cases, inl, inr, Option, none, some, Str,
}
use sqljson.Prelude.Int.{pos, negsuc}
use sqljson.Parser.Token.{Rune, string_p}
use sqljson.Parser.Chars.{Xid, is_char, is_negative, is_ident_start, is_decimal, is_whitespace}
use sqljson.Parser.Lexer.{
  Lexer, M, ◌>>=◌, ◌>>◌, modify, pure, left, next, add_error, peek, token_text, text_from, hold,
  after,
}
use sqljson.Parser.Text.{scan_while, scan_string, scan_variable}
use sqljson.Parser.Lex.{
  comment_loop, scan_comment, operator, scan_operator, start_token, Pass, token, comment, slash,
  dot, token_at, pass, redo, lex, no_token_text, tokens, symbol_at, again, with_text,
  reset_position,
}
use sqljson.Theorems.Reading.{IsWell, cost, Reads, next-Reads}
use sqljson.Theorems.Reading.Tokens.{
  Taker, Follows, behind-Takes, self-Reads, scan_while-Reads, scan_string-Takes, scan_ident-Takes,
  scan_variable-Takes,
}
use sqljson.Theorems.Reading.Numbers.{bound, next-Follows, scan_number-Takes, scan_number-Follows}

comment_loop-Reads :
    (n : ℕ) (c : Rune) (l : Lexer)
    → IsWell l
    → cost (c, l) < n
    → Reads (cost (c, l)) (comment_loop n c l)
unfolding comment_loop add_error
comment_loop-Reads zero c l h lt = absurd (omega arith)
comment_loop-Reads (suc n) (negsuc c) l h lt = ground arith
comment_loop-Reads (suc n) (pos c) l h lt =
    let p = next-Reads l h in
    elim (Bool-cases (nat_eq c b'*' && is_char (next l).0 b'/')) [
      | inl e ↦
          rw (e, comment_loop) (let q = next-Reads (next l).1 p.0 in (q.0, last (next l) q.1 p.1))
      | inr e ↦
          rw (e, comment_loop)
            (let q = comment_loop-Reads n (next l).0 (next l).1 p.0 (omega arith) in
              (q.0, omega arith))
    ]
  where
    last : {n : ℕ} (r : Rune × Lexer) → n ≤ left r.1 → cost r ≤ left l → n ≤ left l + 1
    last (pos c, k) a b = omega arith
    last (negsuc c, k) a b = omega arith

operator-Follows : (ch : Rune) → Follows (operator ch)
unfolding operator
operator-Follows ch c l h =
    ground (arith, self-Reads c l h, next-Follows (λ d. pure (ch, d)) (λ d. self-Reads d) c l h)

-- The character that a pass leaves in hand.
abbrev character : Pass → Rune
character (token tok ch) = ch
character (comment ch) = ch

abbrev Passes : M Pass → Type 0
Passes m = (l : Lexer) → IsWell l → Reads (left l) (character (m l).0, (m l).1)

tokens-Passes : (m : M (Rune × Rune)) → Taker m → Passes (tokens m)
tokens-Passes m t l h = t l h

scan_operator-Takes : (ch : Rune) → Taker (scan_operator ch)
unfolding scan_operator
scan_operator-Takes ch = behind-Takes next (operator ch) next-Reads (operator-Follows ch)

-- A step that makes a pass, behind a character in hand.
abbrev Ends : (Rune → M Pass) → Type 0
Ends k = (c : Rune) (l : Lexer) → IsWell l → Reads (cost (c, l)) (character (k c l).0, (k c l).1)

behind-Passes : (k : Rune → M Pass) → Ends k → Passes (next >>= k)
behind-Passes k f l h =
    let p = next-Reads l h in let q = f (next l).0 (next l).1 p.0 in (q.0, omega arith)

scan_comment-Reads :
    (c : ℕ) (l : Lexer) → IsWell l → Reads (cost (pos c, l)) (scan_comment (pos c) l)
unfolding scan_comment
scan_comment-Reads c l h = elim (Bool-cases (nat_eq c b'*')) [
  | inr e ↦ rw e (h, omega arith)
  | inl e ↦ rw e (
      let p = next-Reads l h in
      let q =
        comment_loop-Reads (suc (suc (left (next l).1))) (next l).0 (next l).1 p.0
          (bound (next l).1 (next l).0) in
      (q.0, omega arith))
]

-- One of two passes.
chosen_pass :
    (b : Bool) (x y : M Pass) (n : ℕ) (l : Lexer)
    → Reads n (character (x l).0, (x l).1)
    → Reads n (character (y l).0, (y l).1)
    → Reads n (character ((if b then x else y) l).0, ((if b then x else y) l).1)
chosen_pass true x y n l p q = p
chosen_pass false x y n l p q = q

abbrev is_stop : Pass → Bool
is_stop (token tok ch) = is_negative tok
is_stop (comment ch) = false

-- What a pass takes of n: nothing more than is there, and something if it finds a token.
abbrev Progress : ℕ → Pass × Lexer → Type 0
Progress n r = Reads n (character r.0, r.1) × (is_stop r.0 ≡ false → cost (character r.0, r.1) < n)

Progress-le : {n m : ℕ} (r : Pass × Lexer) → n ≤ m → Progress n r → Progress m r
Progress-le r le p = ((p.0.0, omega arith), λ e. let lt = p.1 e in omega arith)

whitespace-low : (n : ℕ) → is_whitespace (negsuc n) ≡ false
unfolding is_whitespace
whitespace-low n = refl

start_token-IsWell : (l : Lexer) → IsWell l → IsWell (start_token l)
unfolding start_token
start_token-IsWell l h = h

start_token-cost : (c : Rune) (l : Lexer) {n : ℕ} → cost (c, l) ≤ n → cost (c, start_token l) ≤ n
unfolding start_token
start_token-cost (pos c) l h = h
start_token-cost (negsuc c) l h = h

module _ (xid : Xid) where
  slash-Ends : Ends (slash xid)
  unfolding slash
  slash-Ends (negsuc c) l h = (h, omega arith)
  slash-Ends (pos c) l h =
      chosen_pass (nat_eq c b'*')
        (modify no_token_text >> (scan_comment (pos c) >>= λ d. pure (comment d)))
        (pure (token (pos b'/') (pos c))) (cost (pos c, l)) l
        (scan_comment-Reads c (no_token_text l) h) (h, omega arith)

  dot-Ends : Ends (dot xid)
  unfolding dot
  dot-Ends c l h = elim (Bool-cases (is_decimal c)) [
    | inl e ↦ rw e (scan_number-Follows xid c l h)
    | inr e ↦ rw e (self-Reads c l h)
  ]

  symbol_at-Passes : (c : Rune) → Passes (symbol_at xid c)
  unfolding symbol_at
  symbol_at-Passes (negsuc c) l h = (h, omega arith)
  symbol_at-Passes (pos c) l h =
      chosen_pass (nat_eq c b'"') (tokens (scan_string string_p)) _ (left l) l
        (scan_string-Takes string_p l h)
        (chosen_pass (nat_eq c b'$') (tokens (scan_variable xid)) _ (left l) l
          (scan_variable-Takes xid l h)
          (chosen_pass (nat_eq c b'/') (next >>= slash xid) _ (left l) l
            (behind-Passes (slash xid) slash-Ends l h)
            (chosen_pass (nat_eq c b'.') (next >>= dot xid) (tokens (scan_operator (pos c)))
              (left l) l (behind-Passes (dot xid) dot-Ends l h) (scan_operator-Takes (pos c) l h))))

  -- A pass takes its first character, if there is one.
  token_at-Passes : (c : Rune) → Passes (token_at xid c)
  unfolding token_at is_ident_start is_decimal
  token_at-Passes (negsuc c) l h = symbol_at-Passes (negsuc c) l h
  token_at-Passes (pos c) l h = elim (Bool-cases (is_ident_start xid (pos c))) [
    | inl e ↦ rw e (scan_ident-Takes xid (pos c) l h)
    | inr e ↦ rw e (elim (Bool-cases (is_decimal (pos c))) [
      | inl d ↦ rw d (scan_number-Takes xid (pos c) l h d)
      | inr d ↦ rw d (symbol_at-Passes (pos c) l h)
    ])
  ]

  token_at-Progress : (c : Rune) (l : Lexer) → IsWell l → Progress (cost (c, l)) (token_at xid c l)
  unfolding token_at symbol_at is_ident_start is_decimal
  token_at-Progress (pos c) l h =
      let p = token_at-Passes (pos c) l h in ((p.0, omega arith), λ _. omega arith)
  token_at-Progress (negsuc c) l h = ((h, omega arith), λ e. cc)

  pass-Progress : (c : Rune) (l : Lexer) → IsWell l → Progress (cost (c, l)) (pass xid c l)
  unfolding pass
  pass-Progress c l h =
      let w : Rune × Lexer = scan_while is_whitespace (λ _. next) c l in
      let p =
        (scan_while-Reads is_whitespace (λ _. next) whitespace-low (λ _. next-Reads) c l h).0 in
      Progress-le (token_at xid w.0 (start_token w.1)) (start_token-cost w.0 w.1 p.1)
        (token_at-Progress w.0 (start_token w.1) (start_token-IsWell w.1 p.0))

  -- The same of the passes up to a token: Lex gives up at -1.
  abbrev TokenProgress : ℕ → (Rune × Rune) × Lexer → Type 0
  TokenProgress n r = Reads n (r.0.1, r.1) × (is_negative r.0.0 ≡ false → cost (r.0.1, r.1) < n)

  again-Progress :
      (n : ℕ) (rest : Rune → M (Rune × Rune)) (r : Pass × Lexer)
      → Progress n r
      → ((c : Rune) (l : Lexer)
          → IsWell l
          → cost (c, l) < n
          → TokenProgress (cost (c, l)) (rest c l))
      → TokenProgress n (again rest r)
  again-Progress n rest (token tok ch, l) p f = p
  again-Progress n rest (comment ch, l) p f =
      let q = f ch l p.0.0 (p.1 refl) in ((q.0.0, omega arith), λ e. let lt = q.1 e in omega arith)

  redo-Progress :
      (n : ℕ) (c : Rune) (l : Lexer)
      → IsWell l
      → cost (c, l) < n
      → TokenProgress (cost (c, l)) (redo xid n c l)
  unfolding redo
  redo-Progress zero c l h lt = absurd (omega arith)
  redo-Progress (suc n) c l h lt =
      again-Progress (cost (c, l)) (redo xid n) (pass xid c l) (pass-Progress c l h)
        (λ d k w less. redo-Progress n d k w (omega arith))

  again_agree :
      (f g : Rune → M (Rune × Rune)) (n : ℕ) (r : Pass × Lexer)
      → Progress n r
      → ((c : Rune) (l : Lexer) → IsWell l → cost (c, l) < n → f c l ≡ g c l)
      → again f r ≡ again g r
  again_agree f g n (token tok ch, l) p e = refl
  again_agree f g n (comment ch, l) p e = e ch l p.0.0 (p.1 refl)

  -- The passes of Lex end: with fuel above what is left, more or less fuel makes no difference.
  pub redo_agree :
      (n m : ℕ) (c : Rune) (l : Lexer)
      → IsWell l
      → cost (c, l) < n
      → cost (c, l) < m
      → redo xid n c l ≡ redo xid m c l
  unfolding redo
  redo_agree zero m c l h p q = elim p [ ]
  redo_agree (suc n) zero c l h p q = elim q [ ]
  redo_agree (suc n) (suc m) c l h p q =
      again_agree (redo xid n) (redo xid m) (cost (c, l)) (pass xid c l) (pass-Progress c l h)
        (λ d k w lt. redo_agree n m d k w (omega arith) (omega arith))

-- What is left for Lex: the bytes, and the character in hand.
abbrev pub remaining : Lexer → ℕ
remaining l = cost (l.ch, l)

with_text-lem :
    (o : Option ℕ) (c : Rune) (e : ℕ) (l : Lexer)
    → IsWell l
    → let r : Str × Lexer = text_from o (record l { tok_end = e; ch = c }) in
      IsWell r.1 × (remaining r.1 ≡ cost (c, l))
unfolding text_from
with_text-lem none (pos c) e l h = (h, refl)
with_text-lem none (negsuc c) e l h = (h, refl)
with_text-lem (some p) (pos c) e l h = (h, refl)
with_text-lem (some p) (negsuc c) e l h = (h, refl)

hold-Reads : (n : ℕ) (r : Rune × Lexer) → Reads n r → Reads n (after r hold)
hold-Reads n (pos c, l) h = h
hold-Reads n (negsuc c, l) h = h

peeked-Reads :
    (c : Rune) (l : Lexer)
    → IsWell l
    → Reads (cost (c, l)) (if is_negative c then after (next l) hold else (c, l))
peeked-Reads (negsuc c) l h = hold-Reads (left l) (next l) (next-Reads l h)
peeked-Reads (pos c) l h = (h, omega arith)

reset-cost : (c : Rune) (l : Lexer) → cost (c, reset_position l) ≡ cost (c, l)
reset-cost (pos c) l = refl
reset-cost (negsuc c) l = refl

-- From a position inside the source, with a valid tree as its result or none, Lex reads forwards and inside
-- the source and keeps the result valid, none of its loops runs out of fuel, and any token but -1 takes at
-- least one character.
pub lex_lem :
    (xid : Xid) (l : Lexer)
    → IsWell l
    → IsWell (lex xid l).1
      × (remaining (lex xid l).1 ≤ remaining l)
      × (is_negative (lex xid l).0.0 ≡ false → remaining (lex xid l).1 < remaining l)
unfolding lex with_text token_text peek
lex_lem xid l h =
    let p : Rune × Lexer = peek l in
    let q = peeked-Reads l.ch l h in
    let k = reset_position p.1 in
    let r : (Rune × Rune) × Lexer = redo xid (suc (suc (left k))) p.0 k in
    let t = redo-Progress xid (suc (suc (left k))) p.0 k q.0 (bound k p.0) in
    let f = with_text-lem r.1.tok_pos r.0.1 (r.1.src_pos - r.1.last_char_len) r.1 t.0.0 in
    (
      f.0,
      omega (arith, reset-cost p.0 p.1),
      λ e. let lt = t.1 e in omega (arith, reset-cost p.0 p.1),
    )

-- ===== src/Theorems/Reading.antt =====
-- What the functions of the lexer that return one character leave of the source: none reads behind its
-- end, and the characters that are left become fewer.
pub mod Escapes
pub mod Tokens
pub mod Numbers
pub mod Lexing
use sqljson.Prelude.{
  ℕ, zero, suc, ◌+◌, ◌≤◌, ◌<◌, ◌≡◌, refl, false, Option, none, some, [], ◌∷◌, Str, length, nat_eq,
  arith, Bool-cases, inl, inr,
}
use sqljson.Prelude.Int.{pos, negsuc}
use sqljson.Golang.Utf8.{decode_rune, decode_two, decode_three, decode_four}
use sqljson.Ast.{Ast}
use sqljson.Ast.Validate.{Fault, validate_ref}
use sqljson.Parser.Token.{Rune}
use sqljson.Parser.Lexer.{Lexer, left, next, next_end, next_rune, drop, fail, add_error}

-- The fault of a parsed path, if it has one.
unfoldable pub fault_of : Option Ast → Option Fault
fault_of none = none
fault_of (some a) = validate_ref a.root 0 false

-- The reading position is inside the source, the result is valid if there is one, and no loop has run out
-- of fuel.
abbrev pub IsWell : Lexer → Type 0
IsWell l =
    (l.src_pos ≤ l.src_end)
    × (l.src_end ≡ length l.src_buf)
    × (fault_of l.result ≡ none)
    × (l.starved ≡ false)

-- The bytes that are left, and one for a character in hand.
abbrev pub cost : Rune × Lexer → ℕ
cost (pos c, l) = left l + 1
cost (negsuc c, l) = left l

abbrev pub Reads : ℕ → Rune × Lexer → Type 0
Reads n r = IsWell r.1 × (cost r ≤ n)

length-drop : (n : ℕ) (s : Str) → n ≤ length s → length (drop n s) + n ≡ length s
unfolding drop
length-drop zero s h = omega arith
length-drop (suc n) [] h = absurd (omega arith)
length-drop (suc n) (c ∷ s) h = omega (arith, length-drop n s)

decode_two_width :
    (a : ℕ) (s : Str) {c w : ℕ} → decode_two a s ≡ some (c, w) → (0 < w) × (w ≤ length s + 1)
unfolding decode_two
decode_two_width a [] h = cc
decode_two_width a (b ∷ s) h = ground arith

decode_three_width :
    (a : ℕ) (s : Str) {c w : ℕ} → decode_three a s ≡ some (c, w) → (0 < w) × (w ≤ length s + 1)
unfolding decode_three
decode_three_width a [] h = cc
decode_three_width a (b ∷ []) h = cc
decode_three_width a (b ∷ c ∷ s) h = ground arith

decode_four_width :
    (a : ℕ) (s : Str) {c w : ℕ} → decode_four a s ≡ some (c, w) → (0 < w) × (w ≤ length s + 1)
unfolding decode_four
decode_four_width a [] h = cc
decode_four_width a (b ∷ []) h = cc
decode_four_width a (b ∷ c ∷ []) h = cc
decode_four_width a (b ∷ c ∷ d ∷ s) h = ground arith

decode_rune_width : (s : Str) {c w : ℕ} → decode_rune s ≡ some (c, w) → (0 < w) × (w ≤ length s)
unfolding decode_rune
decode_rune_width [] h = cc
decode_rune_width (a ∷ s) h =
    ground (arith, decode_two_width a s, decode_three_width a s, decode_four_width a s)

-- What `next` does to the position.
pub record Moved (l : Lexer) (r : Rune × Lexer) : Type 0 where
  pub well : IsWell r.1
  pub less : cost r ≤ left l
  pub from : r.1.src_pos ≡ l.src_pos + r.1.last_char_len
  pub same : r.1.src_end ≡ l.src_end

next_rune-Moved :
    (l : Lexer) (o : Option (ℕ × ℕ))
    → IsWell l
    → l.src_pos < l.src_end
    → ((c w : ℕ) → o ≡ some (c, w) → (0 < w) × (w + l.src_pos ≤ l.src_end))
    → Moved l (next_rune o l)
unfolding next_rune fail add_error
next_rune-Moved l none h lt w = ground arith
next_rune-Moved l (some (c, n)) h lt w = let wide = w c n refl in ground arith

pub next-Moved : (l : Lexer) → IsWell l → Moved l (next l)
unfolding next next_end
next-Moved l h = elim (Bool-cases (nat_eq l.src_pos l.src_end)) [
  | inl e ↦ rw e (ground arith)
  | inr e ↦ rw e (
      next_rune-Moved l (decode_rune (drop l.src_pos l.src_buf)) h (ground arith) (λ c w d.
        let wide = decode_rune_width (drop l.src_pos l.src_buf) d in
        omega (arith, length-drop l.src_pos l.src_buf)))
]

pub next-Reads : (l : Lexer) → IsWell l → Reads (left l) (next l)
next-Reads l h = let m = next-Moved l h in (m.well, m.less)

-- ===== src/Theorems/Parsing/Result.antt =====
-- What is stored as the result is valid (setResult of path/parser/lex.go), and the actions keep the source
-- of the lexer.
use sqljson.Prelude.{
  ℕ, ◌≡◌, refl, sym, ap, ◌∙◌, Bool, false, nat_eq, arith, Bool-cases, inl, inr, length, Option,
  none, some,
}
use sqljson.Prelude.Int.{pos, negsuc}
use sqljson.Ast.{Ref}
use sqljson.Ast.Validate.{Fault, Made, made, refused, new, make, validate_ref}
use sqljson.Parser.Token.{Rune}
use sqljson.Parser.Lexer.{Lexer, has_error}
use sqljson.Parser.Symbol.{Val, ref_of, Sym}
use sqljson.Parser.Driver.{set_made, set_result, tell_lexer}
use sqljson.Theorems.Reading.{IsWell, cost, fault_of}
use sqljson.Theorems.Reading.Lexing.{remaining}

-- Two states of the lexer with the same source, position and character in hand.
abbrev Same : Lexer → Lexer → Type 0
Same l k =
    (k.src_pos ≡ l.src_pos)
    × (k.src_end ≡ l.src_end)
    × (k.src_buf ≡ l.src_buf)
    × (k.ch ≡ l.ch)
    × (k.starved ≡ l.starved)

cost_eq :
    (c d : Rune) (l k : Lexer)
    → d ≡ c
    → k.src_pos ≡ l.src_pos
    → k.src_end ≡ l.src_end
    → cost (d, k) ≡ cost (c, l)
cost_eq (pos c) (pos d) l k e p q = omega arith
cost_eq (negsuc c) (negsuc d) l k e p q = omega arith
cost_eq (pos c) (negsuc d) l k e p q = cc
cost_eq (negsuc c) (pos d) l k e p q = cc

pub Same-remaining : (l k : Lexer) → Same l k → remaining k ≡ remaining l
Same-remaining l k s = cost_eq l.ch k.ch l k s.3 s.0 s.1

pub Same-IsWell : (l k : Lexer) → Same l k → IsWell l → fault_of k.result ≡ none → IsWell k
Same-IsWell l k s h f = (omega (arith, s.0, s.1), s.1 ∙ h.1 ∙ ap length (sym s.2), f, s.4 ∙ h.3)

-- setResult stores a path only if validateNode finds no fault.
make-valid :
    (lax pred : Bool) (n : Ref) (o : Option Fault) (l : Lexer)
    → validate_ref n 0 false ≡ o
    → fault_of (set_made (make lax pred n o) l).result ≡ none
unfolding set_made fault_of
make-valid lax pred n none l e = e
make-valid lax pred n (some f) l e = refl

set_result-valid :
    (lax : Bool) (v : Val) (l : Lexer)
    → fault_of l.result ≡ none
    → fault_of (set_result lax v l).result ≡ none
unfolding set_result new
set_result-valid lax v l h = elim (Bool-cases (has_error l)) [
  | inl e ↦ rw e h
  | inr e ↦ rw e (make-valid lax l.pred (ref_of v) (validate_ref (ref_of v) 0 false) l refl)
]

pub tell_lexer-valid :
    (r : ℕ) (d : ℕ → Sym) (l : Lexer)
    → fault_of l.result ≡ none
    → fault_of (tell_lexer r d l).result ≡ none
unfolding tell_lexer
tell_lexer-valid r d l h = elim (Bool-cases (nat_eq r 1)) [
  | inl e ↦ rw e (set_result-valid (d 1).boolean (d 2).value l h)
  | inr e ↦ rw e (elim (Bool-cases (nat_eq r 3)) [ inl f ↦ rw f h | inr f ↦ rw f h ])
]

set_made-Same : (m : Made) (l : Lexer) → Same l (set_made m l)
unfolding set_made
set_made-Same (made a) l = (refl, refl, refl, refl, refl)
set_made-Same (refused f) l = (refl, refl, refl, refl, refl)

set_result-Same : (lax : Bool) (v : Val) (l : Lexer) → Same l (set_result lax v l)
unfolding set_result
set_result-Same lax v l = elim (Bool-cases (has_error l)) [
  | inl e ↦ rw e (refl, refl, refl, refl, refl)
  | inr e ↦ rw e (set_made-Same _ l)
]

pub tell_lexer-Same : (r : ℕ) (d : ℕ → Sym) (l : Lexer) → Same l (tell_lexer r d l)
unfolding tell_lexer
tell_lexer-Same r d l = elim (Bool-cases (nat_eq r 1)) [
  | inl e ↦ rw e (set_result-Same (d 1).boolean (d 2).value l)
  | inr e ↦ rw e (elim (Bool-cases (nat_eq r 3)) [
    | inl f ↦ rw f (refl, refl, refl, refl, refl)
    | inr f ↦ rw f (refl, refl, refl, refl, refl)
  ])
]

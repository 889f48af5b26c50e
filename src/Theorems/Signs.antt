-- ===== src/Theorems/Signs.antt =====
-- Signs in front of number literals (NewUnaryOrNumber of path/ast/ast.go).
use sqljson.Prelude.{
  ℕ, ◌-◌, ◌≡◌, refl, sym, ap, ◌∙◌, Bool, true, false, ◌&&◌, [], ◌∷◌, Str, nat_eq, leb, arith,
  Option, none, some, Bool-cases, inl, inr,
}
use sqljson.Prelude.Int.{ℤ, pos, two63}
use sqljson.Golang.{Floats}
use sqljson.Golang.Decimal.{minus, at_most}
use sqljson.Golang.ParseInt.{
  parse_any_int, read_any_base, read_base, if_well, has_underscore, underscores,
}
use sqljson.Ast.{Node, integer_node, nil, UnaryOperator, next_of}
use sqljson.Ast.Number.{new_integer, new_unary_or_number, signed_number}

if_well-none : (p : Bool) (s : Str) → if_well p s none ≡ none
if_well-none p s = elim (Bool-cases (has_underscore s)) [
  | inl e ↦ elim (Bool-cases (underscores p false s)) [
    | inl f ↦ rw (e, f) refl
    | inr f ↦ rw (e, f) refl
  ]
  | inr e ↦ rw e refl
]

-- No digits start with a sign.
minus_digits : (s : Str) → read_any_base (b'-' ∷ s) ≡ none
unfolding read_any_base read_base
minus_digits [] = refl
minus_digits (c ∷ []) = if_well-none false (b'-' ∷ c ∷ [])
minus_digits (c ∷ d ∷ s) = if_well-none false (b'-' ∷ c ∷ d ∷ s)

in_range :
    (n : ℕ) (r : Option ℕ)
    → at_most (two63 - 1) pos r ≡ some (pos n)
    → at_most two63 minus r ≡ some (minus n)
in_range n none e = cc
in_range n (some k) e = ground arith

abbrev literal : Str → Option ℤ → Option Node
literal s none = none
literal s (some n) = some (integer_node s n nil)

-- A minus in front of an integer literal that starts with a digit and fits an int64 becomes part of the
-- literal and negates its value; a minus in front of the outcome panics.
pub minus-integer :
    (fl : Floats) (c : ℕ) (s : Str) (n : ℕ)
    → leb b'0' c && leb c b'9' ≡ true
    → parse_any_int (c ∷ s) ≡ some (pos n)
    → (new_unary_or_number fl UnaryOperator.minus (integer_node (c ∷ s) (pos n) nil)
        ≡ some (integer_node (b'-' ∷ c ∷ s) (minus n) nil))
      × (new_unary_or_number fl UnaryOperator.minus (integer_node (b'-' ∷ c ∷ s) (minus n) nil)
          ≡ none)
unfolding new_unary_or_number signed_number new_integer parse_any_int next_of
minus-integer fl c s n d e =
    let a : nat_eq c b'-' ≡ false = ground arith in
    let b : nat_eq c b'+' ≡ false = ground arith in
    let whole : parse_any_int (c ∷ s) ≡ at_most (two63 - 1) pos (read_any_base (c ∷ s)) =
      rw (a, b) refl in
    (
      ap (literal (b'-' ∷ c ∷ s)) (in_range n (read_any_base (c ∷ s)) (sym whole ∙ e)),
      ap (λ r. literal (b'-' ∷ b'-' ∷ c ∷ s) (at_most two63 minus r)) (minus_digits (c ∷ s)),
    )

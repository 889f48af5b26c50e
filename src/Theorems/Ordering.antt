-- ===== src/Theorems/Ordering.antt =====
-- The comparisons of path/exec/compare.go and of path/exec/datetime.go.
pub mod Scalars
use sqljson.Prelude.{◌≡◌, refl, arith, [], ◌∷◌, Str}
use sqljson.Prelude.Int.{ℤ, pos, negsuc, negate}
use mathlib.Core.Option
use sqljson.Golang.{compare_strings}
use sqljson.Ast.{BinaryOperator, equal, not_equal, less, greater, less_or_equal, greater_or_equal}
use sqljson.Exec.Boolean.{negation}
use sqljson.Exec.Compare.{apply_compare, compare_ints}

-- The operator that holds where another does not, and the one for the sides exchanged.
abbrev pub opposite : BinaryOperator → BinaryOperator
opposite equal = not_equal
opposite not_equal = equal
opposite less = greater_or_equal
opposite greater_or_equal = less
opposite greater = less_or_equal
opposite less_or_equal = greater
opposite op = op

abbrev pub mirrored : BinaryOperator → BinaryOperator
mirrored less = greater
mirrored greater = less
mirrored less_or_equal = greater_or_equal
mirrored greater_or_equal = less_or_equal
mirrored op = op

abbrev pub IsComparison : BinaryOperator → Type 0
IsComparison equal = Unit
IsComparison not_equal = Unit
IsComparison less = Unit
IsComparison greater = Unit
IsComparison less_or_equal = Unit
IsComparison greater_or_equal = Unit
IsComparison _ = ⊥

-- Opposite operators give opposite outcomes for every order of the operands.
pub apply_compare-opposite :
    (op : BinaryOperator) (cmp : ℤ)
    → IsComparison op
    → apply_compare (opposite op) cmp ≡ negation (apply_compare op cmp)
unfolding apply_compare negation
apply_compare-opposite equal (pos n) h = ground arith
apply_compare-opposite equal (negsuc n) h = ground arith
apply_compare-opposite not_equal (pos n) h = ground arith
apply_compare-opposite not_equal (negsuc n) h = ground arith
apply_compare-opposite less (pos n) h = ground arith
apply_compare-opposite less (negsuc n) h = ground arith
apply_compare-opposite greater (pos n) h = ground arith
apply_compare-opposite greater (negsuc n) h = ground arith
apply_compare-opposite less_or_equal (pos n) h = ground arith
apply_compare-opposite less_or_equal (negsuc n) h = ground arith
apply_compare-opposite greater_or_equal (pos n) h = ground arith
apply_compare-opposite greater_or_equal (negsuc n) h = ground arith
apply_compare-opposite _ cmp h = absurd h

compare_strings_refl : (s : Str) → compare_strings s s ≡ pos 0
unfolding compare_strings
compare_strings_refl [] = refl
compare_strings_refl (c ∷ s) = ground (arith, compare_strings_refl s)

compare_strings_zero : (s t : Str) → compare_strings s t ≡ pos 0 → s ≡ t
unfolding compare_strings
compare_strings_zero [] [] h = refl
compare_strings_zero [] (d ∷ t) h = cc
compare_strings_zero (c ∷ s) [] h = cc
compare_strings_zero (c ∷ s) (d ∷ t) h = ground (arith, compare_strings_zero s t)

pub compare_strings_swap : (s t : Str) → compare_strings t s ≡ negate (compare_strings s t)
unfolding compare_strings negate
compare_strings_swap [] [] = refl
compare_strings_swap [] (d ∷ t) = refl
compare_strings_swap (c ∷ s) [] = refl
compare_strings_swap (c ∷ s) (d ∷ t) = ground (arith, compare_strings_swap s t)

compare_ints_swap : (a b : ℤ) → compare_ints b a ≡ negate (compare_ints a b)
unfolding compare_ints negate
compare_ints_swap (pos a) (pos b) = ground arith
compare_ints_swap (pos a) (negsuc b) = ground arith
compare_ints_swap (negsuc a) (pos b) = ground arith
compare_ints_swap (negsuc a) (negsuc b) = ground arith

apply_compare-mirrored :
    (op : BinaryOperator) (cmp : ℤ)
    → apply_compare (mirrored op) (negate cmp) ≡ apply_compare op cmp
unfolding apply_compare negate
apply_compare-mirrored equal (pos n) = ground arith
apply_compare-mirrored equal (negsuc n) = ground arith
apply_compare-mirrored not_equal (pos n) = ground arith
apply_compare-mirrored not_equal (negsuc n) = ground arith
apply_compare-mirrored less (pos n) = ground arith
apply_compare-mirrored less (negsuc n) = ground arith
apply_compare-mirrored greater (pos n) = ground arith
apply_compare-mirrored greater (negsuc n) = ground arith
apply_compare-mirrored less_or_equal (pos n) = ground arith
apply_compare-mirrored less_or_equal (negsuc n) = ground arith
apply_compare-mirrored greater_or_equal (pos n) = ground arith
apply_compare-mirrored greater_or_equal (negsuc n) = ground arith
apply_compare-mirrored _ cmp = refl

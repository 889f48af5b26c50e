-- ===== src/Theorems/Ordering/Scalars.antt =====
-- compareItems of path/exec/compare.go on nulls, Booleans, integers and strings.
use sqljson.Prelude.{
  zero, suc, Bool, true, false, ◌||◌, ◌≡◌, refl, ap, ◌↔◌, arith, Option, none, some, Str,
  if◌then◌else◌,
}
use sqljson.Prelude.Int.{ℤ, pos, negsuc, negate, eq_ℤ}
use mathlib.Core.Option
use sqljson.Golang.{compare_strings}
use sqljson.Json.{Value, null, bool, int, float, number, array, object, other, string, datetime}
use sqljson.Ast.{BinaryOperator, equal, less, greater, less_or_equal, greater_or_equal}
use sqljson.Exec.Error.{Pred, unknown, pred_from, PredOut}
use sqljson.Exec.Env.{Env}
use sqljson.Exec.State.{State, Ran, ran, pure}
use sqljson.Exec.Boolean.{is_true}
use sqljson.Exec.Compare.{
  apply_compare, compare_items, compare_ints, compare_bool, is_not_equal, string_outcome,
}
use sqljson.Theorems.Ordering.{
  mirrored, compare_strings_refl, compare_strings_zero, compare_strings_swap, compare_ints_swap,
  apply_compare-mirrored,
}

-- null, Booleans, integers and strings
abbrev pub IsScalar : Value → Type 0
IsScalar null = Unit
IsScalar (bool b) = Unit
IsScalar (int n) = Unit
IsScalar (string s) = Unit
IsScalar _ = ⊥

-- the outcome on scalars: an order, or none
abbrev order_of : Value → Value → Option ℤ
order_of null null = some (pos 0)
order_of (bool a) (bool b) = some (compare_bool a b)
order_of (int a) (int b) = some (compare_ints a b)
order_of (string a) (string b) = some (compare_strings a b)
order_of _ _ = none

abbrev pub is_null_value : Value → Bool
is_null_value null = true
is_null_value _ = false

abbrev scalar_outcome : BinaryOperator → Option ℤ → Bool → PredOut
scalar_outcome op (some cmp) any_null = apply_compare op cmp
scalar_outcome op none any_null =
    if any_null then (pred_from (is_not_equal op), none) else (unknown, none)

strings_outcome :
    (op : BinaryOperator) (a b : Str)
    → string_outcome op a (string b) ≡ apply_compare op (compare_strings a b)
unfolding string_outcome apply_compare
strings_outcome equal a b = refl
strings_outcome _ a b = refl

string_and_bool :
    (op : BinaryOperator) (a : Str) (b : Bool) → string_outcome op a (bool b) ≡ (unknown, none)
unfolding string_outcome
string_and_bool equal a b = refl
string_and_bool _ a b = refl

string_and_int :
    (op : BinaryOperator) (a : Str) (b : ℤ) → string_outcome op a (int b) ≡ (unknown, none)
unfolding string_outcome
string_and_int equal a b = refl
string_and_int _ a b = refl

compare_items_scalars :
    (E : Env) (op : BinaryOperator) (l r : Value) (s : State)
    → IsScalar l
    → IsScalar r
    → compare_items E op l r s
      ≡ ran (scalar_outcome op (order_of l r) (is_null_value l || is_null_value r)) s
unfolding compare_items pure string_outcome
compare_items_scalars E op (string a) (string b) s h k = ap (λ o. ran o s) (strings_outcome op a b)
compare_items_scalars E op null null s h k = refl
compare_items_scalars E op null (bool b) s h k = refl
compare_items_scalars E op null (int b) s h k = refl
compare_items_scalars E op null (string b) s h k = refl
compare_items_scalars E op (bool a) null s h k = refl
compare_items_scalars E op (bool a) (bool b) s h k = refl
compare_items_scalars E op (bool a) (int b) s h k = refl
compare_items_scalars E op (bool a) (string b) s h k = refl
compare_items_scalars E op (int a) null s h k = refl
compare_items_scalars E op (int a) (bool b) s h k = refl
compare_items_scalars E op (int a) (int b) s h k = refl
compare_items_scalars E op (int a) (string b) s h k = refl
compare_items_scalars E op (string a) null s h k = refl
compare_items_scalars E op (string a) (bool b) s h k = ap (λ o. ran o s) (string_and_bool op a b)
compare_items_scalars E op (string a) (int b) s h k = ap (λ o. ran o s) (string_and_int op a b)
compare_items_scalars E op (float _) r s h k = absurd h
compare_items_scalars E op (number _) r s h k = absurd h
compare_items_scalars E op (datetime _) r s h k = absurd h
compare_items_scalars E op (array _ _) r s h k = absurd h
compare_items_scalars E op (object _ _) r s h k = absurd h
compare_items_scalars E op (other _) r s h k = absurd h
compare_items_scalars E op l (float _) s h k = absurd k
compare_items_scalars E op l (number _) s h k = absurd k
compare_items_scalars E op l (datetime _) s h k = absurd k
compare_items_scalars E op l (array _ _) s h k = absurd k
compare_items_scalars E op l (object _ _) s h k = absurd k
compare_items_scalars E op l (other _) s h k = absurd k

order_of-swapped :
    (l r : Value) → IsScalar l → IsScalar r → order_of r l ≡ Option.map negate (order_of l r)
unfolding negate compare_bool
order_of-swapped null null h k = refl
order_of-swapped (bool true) (bool true) h k = refl
order_of-swapped (bool true) (bool false) h k = refl
order_of-swapped (bool false) (bool true) h k = refl
order_of-swapped (bool false) (bool false) h k = refl
order_of-swapped (int a) (int b) h k = ap some (compare_ints_swap a b)
order_of-swapped (string a) (string b) h k = ap some (compare_strings_swap a b)
order_of-swapped null (bool b) h k = refl
order_of-swapped null (int b) h k = refl
order_of-swapped null (string b) h k = refl
order_of-swapped (bool a) null h k = refl
order_of-swapped (bool a) (int b) h k = refl
order_of-swapped (bool a) (string b) h k = refl
order_of-swapped (int a) null h k = refl
order_of-swapped (int a) (bool b) h k = refl
order_of-swapped (int a) (string b) h k = refl
order_of-swapped (string a) null h k = refl
order_of-swapped (string a) (bool b) h k = refl
order_of-swapped (string a) (int b) h k = refl
order_of-swapped (float _) r h k = absurd h
order_of-swapped (number _) r h k = absurd h
order_of-swapped (datetime _) r h k = absurd h
order_of-swapped (array _ _) r h k = absurd h
order_of-swapped (object _ _) r h k = absurd h
order_of-swapped (other _) r h k = absurd h
order_of-swapped l (float _) h k = absurd k
order_of-swapped l (number _) h k = absurd k
order_of-swapped l (datetime _) h k = absurd k
order_of-swapped l (array _ _) h k = absurd k
order_of-swapped l (object _ _) h k = absurd k
order_of-swapped l (other _) h k = absurd k

is_not_equal-mirrored : (op : BinaryOperator) → is_not_equal (mirrored op) ≡ is_not_equal op
is_not_equal-mirrored less = refl
is_not_equal-mirrored greater = refl
is_not_equal-mirrored less_or_equal = refl
is_not_equal-mirrored greater_or_equal = refl
is_not_equal-mirrored _ = refl

or_comm : (a b : Bool) → (a || b) ≡ (b || a)
or_comm true true = refl
or_comm true false = refl
or_comm false true = refl
or_comm false false = refl

scalar_outcome-mirrored :
    (op : BinaryOperator) (o : Option ℤ) (n : Bool)
    → scalar_outcome (mirrored op) (Option.map negate o) n ≡ scalar_outcome op o n
scalar_outcome-mirrored op (some cmp) n = apply_compare-mirrored op cmp
scalar_outcome-mirrored op none n = rw is_not_equal-mirrored

-- On nulls, Booleans, integers and strings, `l op r` comes out as `r op' l`, where `op'` is the
-- operator for the sides exchanged.
pub compare_items-mirrored :
    (E : Env) (op : BinaryOperator) (l r : Value) (s : State)
    → IsScalar l
    → IsScalar r
    → compare_items E (mirrored op) r l s ≡ compare_items E op l r s
compare_items-mirrored E op l r s h k = rw (
  compare_items_scalars E (mirrored op) r l s k h,
  compare_items_scalars E op l r s h k,
  order_of-swapped l r h k,
  or_comm (is_null_value r) (is_null_value l),
  scalar_outcome-mirrored,
)

returns_true : Ran PredOut → Bool
returns_true (ran (p, e) s) = is_true p
returns_true _ = false

is_zero : (c : ℤ) → is_true (pred_from (eq_ℤ c (pos 0))) ≡ true → c ≡ pos 0
is_zero (pos zero) h = refl
is_zero (pos (suc n)) h = ground arith
is_zero (negsuc n) h = ground arith

-- Two strings are equal for `==` if and only if they are the same.
pub equal_strings :
    (E : Env) (a b : Str) (s : State)
    → (compare_items E equal (string a) (string b) s ≡ ran (Pred.true, none) s) ↔ (a ≡ b)
unfolding compare_items pure returns_true string_outcome
equal_strings E a b s = (
  λ h. compare_strings_zero a b (is_zero _ (ap returns_true h)),
  λ h. rw (← h, compare_strings_refl a),
)

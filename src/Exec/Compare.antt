-- ===== src/Exec/Compare.antt =====
-- path/exec/compare.go: comparison of two items.
use sqljson.Prelude.{◌&&◌, ◌||◌, Bool, true, false, not, Option, none, some, Str, if◌then◌else◌}
use sqljson.Prelude.Int.{ℤ, pos, negsuc, ltb_ℤ, leb_ℤ, eq_ℤ}
use sqljson.Golang.{Float64, Floats, compare_strings}
use sqljson.Json.{Value, null, bool, int, float, number, string, datetime, array, object, other}
use sqljson.Ast.{BinaryOperator, equal, not_equal, less, greater, less_or_equal, greater_or_equal}
use sqljson.Exec.Error.{
  unknown, pred_from, invalid, PredOut, compare_operator, compare_type, Result, value, error,
}
use sqljson.Exec.Env.{Env}
use sqljson.Exec.State.{M, pure, panic}
use sqljson.Exec.Util.{number_int}
use sqljson.Exec.Datetime.Compare.{compare_datetime}

abbrev minus_one : ℤ
minus_one = negsuc 0

unfoldable pub compare_bool : Bool → Bool → ℤ
compare_bool true true = pos 0
compare_bool false false = pos 0
compare_bool true false = pos 1
compare_bool false true = minus_one

unfoldable pub apply_compare : BinaryOperator → ℤ → PredOut
apply_compare equal cmp = (pred_from (eq_ℤ cmp (pos 0)), none)
apply_compare not_equal cmp = (pred_from (not (eq_ℤ cmp (pos 0))), none)
apply_compare less cmp = (pred_from (ltb_ℤ cmp (pos 0)), none)
apply_compare greater cmp = (pred_from (ltb_ℤ (pos 0) cmp), none)
apply_compare less_or_equal cmp = (pred_from (leb_ℤ cmp (pos 0)), none)
apply_compare greater_or_equal cmp = (pred_from (leb_ℤ (pos 0) cmp), none)
apply_compare _ cmp = (unknown, some (invalid compare_operator))

-- compareNumbers on `int64`
unfoldable pub compare_ints : ℤ → ℤ → ℤ
compare_ints left right =
    if ltb_ℤ left right then minus_one else if ltb_ℤ right left then pos 1 else pos 0

abbrev pub is_not_equal : BinaryOperator → Bool
is_not_equal not_equal = true
is_not_equal _ = false

-- What comparing numbers gives: -1, 0 or 1, no order (the right side is no number), or a panic.
pub data Numeric : Type 0 where
  order : ℤ → Numeric
  no_order no_number : Numeric

module _ (F : Floats) where
  -- compareNumbers on `float64`
  unfoldable pub compare_floats : Float64 → Float64 → ℤ
  compare_floats left right =
      if F.less left right then minus_one else if F.less right left then pos 1 else pos 0

  right_float : Float64 → Option Float64 → Numeric
  unfolding compare_floats
  right_float l none = no_number
  right_float l (some r) = order (compare_floats l r)

  int_and_number : ℤ → Str → Option ℤ → Numeric
  unfolding right_float compare_ints
  int_and_number l s (some r) = order (compare_ints l r)
  int_and_number l s none = right_float (F.of_int l) (F.parse s)

  int_and_any : ℤ → Value → Numeric
  unfolding int_and_number number_int
  int_and_any l (int r) = order (compare_ints l r)
  int_and_any l (float r) = order (compare_floats (F.of_int l) r)
  int_and_any l (number s) = int_and_number l s (number_int s)
  int_and_any l _ = no_order

  float_and_any : Float64 → Value → Numeric
  unfolding right_float
  float_and_any l (float r) = order (compare_floats l r)
  float_and_any l (int r) = order (compare_floats l (F.of_int r))
  float_and_any l (number s) = right_float l (F.parse s)
  float_and_any l _ = no_order

  is_numeric : Value → Bool
  is_numeric (int _) = true
  is_numeric (float _) = true
  is_numeric (number _) = true
  is_numeric _ = false

  left_float : Option Float64 → Value → Numeric
  unfolding float_and_any is_numeric
  left_float none right = if is_numeric right then no_number else no_order
  left_float (some l) right = float_and_any l right

  left_number : Str → Option ℤ → Value → Numeric
  unfolding left_float int_and_any
  left_number s (some l) right = int_and_any l right
  left_number s none right = left_float (F.parse s) right

  -- compareNumeric, and the check of the right side before it
  unfoldable pub compare_numeric : Value → Value → Numeric
  unfolding left_number int_and_any float_and_any number_int
  compare_numeric (int l) right = int_and_any l right
  compare_numeric (float l) right = float_and_any l right
  compare_numeric (number s) right = left_number s (number_int s) right
  compare_numeric _ right = no_order

unfoldable pub numeric_outcome : BinaryOperator → Numeric → M PredOut
unfolding apply_compare
numeric_outcome op (order cmp) = pure (apply_compare op cmp)
numeric_outcome op no_order = pure (unknown, none)
numeric_outcome op no_number = panic

unfoldable pub bool_outcome : BinaryOperator → Bool → Value → PredOut
unfolding compare_bool apply_compare
bool_outcome op l (bool r) = apply_compare op (compare_bool l r)
bool_outcome op l _ = (unknown, none)

unfoldable pub string_outcome : BinaryOperator → Str → Value → PredOut
unfolding apply_compare compare_strings
string_outcome equal l (string r) = (pred_from (eq_ℤ (compare_strings l r) (pos 0)), none)
string_outcome op l (string r) = apply_compare op (compare_strings l r)
string_outcome op l _ = (unknown, none)

unfoldable pub datetime_outcome : BinaryOperator → Result ℤ → PredOut
unfolding apply_compare
datetime_outcome op (error e) = (unknown, some e)
datetime_outcome op (value cmp) =
    if ltb_ℤ cmp minus_one then (unknown, none) else apply_compare op cmp

abbrev is_null : Value → Bool
is_null null = true
is_null _ = false

module _ (E : Env) where
  -- the switch of compareItems on the type of the left item
  unfoldable pub compare_by_type : BinaryOperator → Value → Value → M PredOut
  unfolding bool_outcome string_outcome datetime_outcome numeric_outcome compare_numeric
      compare_datetime
  compare_by_type op (bool l) right = pure (bool_outcome op l right)
  compare_by_type op (int l) right = numeric_outcome op (compare_numeric E.floats (int l) right)
  compare_by_type op (float l) right = numeric_outcome op (compare_numeric E.floats (float l) right)
  compare_by_type op (number s) right =
      numeric_outcome op (compare_numeric E.floats (number s) right)
  compare_by_type op (string l) right = pure (string_outcome op l right)
  compare_by_type op (datetime l) right =
      pure (datetime_outcome op (compare_datetime E.times E.use_tz l right))
  compare_by_type op (array a vs) right = pure (unknown, none)
  compare_by_type op (object a fs) right = pure (unknown, none)
  compare_by_type op null right = pure (apply_compare op (pos 0))
  compare_by_type op (other _) right = pure (unknown, some (invalid compare_type))

  unfoldable pub compare_items : BinaryOperator → Value → Value → M PredOut
  unfolding compare_by_type
  compare_items op left right =
      if (is_null left && not (is_null right)) || (is_null right && not (is_null left))
      then pure (pred_from (is_not_equal op), none)
      else compare_by_type op left right

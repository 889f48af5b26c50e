-- ===== src/Exec/Method/Number.antt =====
-- The numeric methods of path/exec/method.go on an item that is no array: .number(), .decimal(),
-- .double(), .integer(), .bigint(), .abs(), .floor() and .ceiling(). An error that
-- returnVerboseError takes is `verbose` here, one that is returned at once is `execution`.
use sqljson.Prelude.{
  ℕ, ◌+◌, ◌&&◌, ◌||◌, Option, none, some, [], ◌∷◌, Str, leb, nat_eq, if◌then◌else◌,
}
use sqljson.Prelude.Int.{ℤ, pos, negsuc, negate, wrap64, ltb_ℤ, ◌-ℤ◌, two63}
use sqljson.Golang.{Float64, Floats, is_inf, is_nan}
use sqljson.Golang.Decimal.{parse_int}
use sqljson.Json.{Value, int, float, number, string}
use sqljson.Ast.{Ref, nil, to}
use sqljson.Exec.Error.{
  Err, verbose, execution, Result, value, error, method_argument, nan_or_infinity, invalid_double,
  invalid_integer, invalid_big_int, invalid_numeric, precision_range, scale_range,
}
use sqljson.Exec.Util.{number_int, outside_int32, get_node_int32}

-- intAbs
unfoldable pub int_abs : ℤ → ℤ
unfolding wrap64 negate
int_abs x = if ltb_ℤ x (pos 0) then wrap64 (negate x) else x

-- intSelf
unfoldable pub int_self : ℤ → ℤ
int_self x = x

-- intUMinus
unfoldable pub int_minus : ℤ → ℤ
unfolding wrap64 negate
int_minus x = wrap64 (negate x)

-- floatSelf
unfoldable pub float_self : Float64 → Float64
float_self x = x

-- math.MaxInt64 and math.MinInt64
abbrev max_int64 : ℤ
max_int64 = pos 9223372036854775807

abbrev min_int64 : ℤ
min_int64 = negsuc 9223372036854775807

module _ (F : Floats) where
  float_item : (Float64 → Float64) → Option Float64 → Result Value
  float_item on_float none = error (verbose method_argument)
  float_item on_float (some f) = value (float (on_float f))

  number_item : (ℤ → ℤ) → (Float64 → Float64) → Str → Option ℤ → Result Value
  unfolding float_item
  number_item on_int on_float s (some n) = value (int (on_int n))
  number_item on_int on_float s none = float_item on_float (F.parse s)

  -- executeNumericItemMethod
  unfoldable pub numeric_item : (ℤ → ℤ) → (Float64 → Float64) → Value → Result Value
  unfolding number_item number_int
  numeric_item on_int on_float (int n) = value (int (on_int n))
  numeric_item on_int on_float (float f) = value (float (on_float f))
  numeric_item on_int on_float (number s) = number_item on_int on_float s (number_int s)
  numeric_item on_int on_float _ = error (verbose method_argument)

  -- the refusal of NaN and infinities
  abbrev finite : Float64 → Result Float64
  finite f = if is_inf f || is_nan f then error (verbose nan_or_infinity) else value f

  abbrev parsed : Err → Option Float64 → Result Float64
  parsed e none = error e
  parsed e (some f) = value f

  abbrev then_finite : Result Float64 → Result Float64
  then_finite (error e) = error e
  then_finite (value f) = finite f

  abbrev as_float : Result Float64 → Result Value
  as_float (error e) = error e
  as_float (value f) = value (float f)

  -- execMethodDouble
  unfoldable pub double_of : Value → Result Value
  unfolding is_inf is_nan
  double_of (int n) = as_float (finite (F.of_int n))
  double_of (float f) = as_float (finite f)
  double_of (number s) = as_float (then_finite (parsed (execution invalid_double) (F.parse s)))
  double_of (string s) = as_float (then_finite (parsed (execution invalid_double) (F.parse s)))
  double_of _ = error (verbose method_argument)

  -- the check of the range that ends execMethodInteger
  unfoldable pub integer_result : Option ℤ → Result Value
  integer_result none = error (verbose invalid_integer)
  integer_result (some n) =
      if outside_int32 n then error (verbose invalid_integer) else value (int n)

  abbrev pub rounded : Option Float64 → Option ℤ
  rounded none = none
  rounded (some f) = some (F.to_int (F.round f))

  unfoldable pub number_integer : Option ℤ → Str → Option ℤ
  number_integer (some n) s = some n
  number_integer none s = rounded (F.parse s)

  -- execMethodInteger
  unfoldable pub integer_of : Value → Result Value
  unfolding integer_result number_integer number_int parse_int
  integer_of (int n) = integer_result (some n)
  integer_of (float f) = integer_result (rounded (some f))
  integer_of (number s) = integer_result (number_integer (number_int s) s)
  integer_of (string s) = integer_result (parse_int 2147483648 s)
  integer_of _ = error (verbose method_argument)

  -- a float that .bigint() takes
  unfoldable pub float_big_int : Option Float64 → Result Value
  unfolding is_inf is_nan
  float_big_int none = error (verbose invalid_big_int)
  float_big_int (some f) =
      if F.less (F.of_int max_int64) f || F.less f (F.of_int min_int64) || is_inf f || is_nan f
      then error (verbose invalid_big_int)
      else value (int (F.to_int (F.round f)))

  number_big_int : Option ℤ → Str → Result Value
  unfolding float_big_int
  number_big_int (some n) s = value (int n)
  number_big_int none s = float_big_int (F.parse s)

  string_big_int : Option ℤ → Result Value
  string_big_int (some n) = value (int n)
  string_big_int none = error (verbose invalid_big_int)

  -- execMethodBigInt
  unfoldable pub big_int_of : Value → Result Value
  unfolding float_big_int number_big_int string_big_int number_int parse_int
  big_int_of (int n) = value (int n)
  big_int_of (float f) = float_big_int (some f)
  big_int_of (number s) = number_big_int (number_int s) s
  big_int_of (string s) = string_big_int (parse_int two63 s)
  big_int_of _ = error (verbose method_argument)

  -- executeNumberMethod, up to the arguments of .decimal()
  unfoldable pub float_of : Value → Result Float64
  unfolding is_inf is_nan
  float_of (float f) = finite f
  float_of (int n) = finite (F.of_int n)
  float_of (number s) = then_finite (parsed (verbose invalid_numeric) (F.parse s))
  float_of (string s) = then_finite (parsed (verbose invalid_numeric) (F.parse s))
  float_of _ = error (verbose method_argument)

  -- .number()
  unfoldable pub number_of : Value → Result Value
  unfolding float_of
  number_of v = as_float (float_of v)

  -- the digits 1 to 9 in front of the point
  unfoldable pub count_digits : Str → ℕ
  count_digits [] = 0
  count_digits (c ∷ s) =
      if nat_eq c b'.' then 0 else (if leb b'1' c && leb c b'9' then 1 else 0) + count_digits s

  abbrev precision_of : Result ℤ → Result ℤ
  precision_of (error e) = error e
  precision_of (value p) =
      if ltb_ℤ p (pos 1) || ltb_ℤ (pos 1000) p then error (execution precision_range) else value p

  abbrev scale_of : Result ℤ → Result ℤ
  scale_of (error e) = error e
  scale_of (value s) =
      if ltb_ℤ s (negsuc 999) || ltb_ℤ (pos 1000) s then error (execution scale_range) else value s

  abbrev scale_argument : Ref → Result ℤ
  scale_argument nil = value (pos 0)
  scale_argument (to n) = scale_of (get_node_int32 (to n))

  -- the rounding to the scale, and the check of the digits
  round_to : Float64 → ℤ → ℤ → Result Float64
  unfolding count_digits ◌-ℤ◌
  round_to num precision scale =
      let ratio = F.pow10 scale in
      let rounded_num = F.div (F.round (F.mul num ratio)) ratio in
      let count = pos (count_digits (F.format rounded_num)) in
      if ltb_ℤ (pos 0) count && ltb_ℤ (precision -ℤ scale) count
      then error (verbose invalid_numeric)
      else value rounded_num

  with_scale : Float64 → ℤ → Result ℤ → Result Float64
  unfolding round_to
  with_scale num precision (error e) = error e
  with_scale num precision (value scale) = round_to num precision scale

  with_precision : Float64 → Result ℤ → Ref → Result Float64
  unfolding with_scale get_node_int32
  with_precision num (error e) right = error e
  with_precision num (value p) right = with_scale num p (scale_argument right)

  -- executeDecimalMethod, on the operands of the node
  unfoldable pub execute_decimal_method : Ref → Ref → Float64 → Result Float64
  unfolding with_precision get_node_int32
  execute_decimal_method nil right num = value num
  execute_decimal_method (to n) right num =
      with_precision num (precision_of (get_node_int32 (to n))) right

  then_decimal : Ref → Ref → Result Float64 → Result Float64
  unfolding execute_decimal_method
  then_decimal left right (error e) = error e
  then_decimal left right (value f) = execute_decimal_method left right f

  -- .decimal()
  unfoldable pub decimal_of : Ref → Ref → Value → Result Value
  unfolding float_of then_decimal
  decimal_of left right v = as_float (then_decimal left right (float_of v))

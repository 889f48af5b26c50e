-- ===== src/Exec/Util.antt =====
-- path/exec/util.go: casts of JSON numbers to the numbers of Go.
use sqljson.Prelude.{Bool, ◌||◌, Option, none, some, Str, if◌then◌else◌}
use sqljson.Prelude.Int.{ℤ, pos, negsuc, ltb_ℤ, two63}
use sqljson.Golang.{Float64, Floats, is_inf, is_nan}
use sqljson.Golang.Decimal.{parse_int}
use sqljson.Json.{Value, int, float, number}
use sqljson.Ast.{Ref, to, integer_node}
use sqljson.Exec.Error.{
  verbose, execution, invalid, Result, value, error, out_of_integer_range, nan_or_infinity,
  field_type, field_out_of_range, subscript_not_numeric,
}

-- json.Number.Int64
unfoldable pub number_int : Str → Option ℤ
unfolding parse_int
number_int s = parse_int two63 s

-- math.MaxInt32 and math.MinInt32
abbrev pub max_int32 : ℤ
max_int32 = pos 2147483647

abbrev pub min_int32 : ℤ
min_int32 = negsuc 2147483647

abbrev pub outside_int32 : ℤ → Bool
outside_int32 n = ltb_ℤ max_int32 n || ltb_ℤ n min_int32

-- the range check that ends getJSONInt32
abbrev in_int32 : ℤ → Result ℤ
in_int32 n = if outside_int32 n then error (verbose out_of_integer_range) else value n

module _ (F : Floats) where
  cast_float : (Float64 → Float64) → Option Float64 → Option Value
  cast_float on_float none = none
  cast_float on_float (some f) = some (float (on_float f))

  cast_number : (ℤ → ℤ) → (Float64 → Float64) → Str → Option ℤ → Option Value
  unfolding cast_float
  cast_number on_int on_float s (some n) = some (int (on_int n))
  cast_number on_int on_float s none = cast_float on_float (F.parse s)

  -- castJSONNumber
  unfoldable pub cast_json_number : Str → (ℤ → ℤ) → (Float64 → Float64) → Option Value
  unfolding cast_number number_int
  cast_json_number s on_int on_float = cast_number on_int on_float s (number_int s)

  unfoldable pub float_int32 : Float64 → Result ℤ
  unfolding is_inf is_nan
  float_int32 f =
      if is_inf f || is_nan f then error (verbose nan_or_infinity) else in_int32 (F.to_int f)

  unfoldable pub parsed_int32 : Option Float64 → Result ℤ
  unfolding float_int32
  parsed_int32 none = error (invalid subscript_not_numeric)
  parsed_int32 (some f) = float_int32 f

  unfoldable pub number_int32 : Str → Option ℤ → Result ℤ
  unfolding parsed_int32
  number_int32 s (some n) = in_int32 n
  number_int32 s none = parsed_int32 (F.parse s)

  -- getJSONInt32
  unfoldable pub get_json_int32 : Value → Result ℤ
  unfolding number_int32 number_int
  get_json_int32 (int n) = in_int32 n
  get_json_int32 (float f) = float_int32 f
  get_json_int32 (number s) = number_int32 s (number_int s)
  get_json_int32 _ = error (verbose subscript_not_numeric)

-- getNodeInt32
unfoldable pub get_node_int32 : Ref → Result ℤ
get_node_int32 (to (integer_node _ n _)) =
    if outside_int32 n then error (verbose field_out_of_range) else value n
get_node_int32 _ = error (execution field_type)

-- ===== src/Theorems/Integers.antt =====
-- The casts to integers of 32 bits (path/exec/util.go, path/exec/method.go).
use sqljson.Prelude.{
  Str, Bool, true, false, ◌||◌, ◌≡◌, ◌↔◌, inl, inr, Bool-cases, Option, none, some, arith,
  if◌then◌else◌,
}
use sqljson.Prelude.Int.{ℤ, pos, negsuc, ◌≤ℤ◌}
use sqljson.Golang.{Floats, Float64, is_inf, is_nan}
use sqljson.Golang.Decimal.{parse_int}
use sqljson.Json.{Value, int, float, number, string}
use sqljson.Exec.Error.{value, error, Err}
use sqljson.Exec.Util.{
  get_json_int32, number_int32, parsed_int32, float_int32, number_int, outside_int32, max_int32,
  min_int32,
}
use sqljson.Exec.Method.Number.{integer_of, integer_result, number_integer}
use sqljson.Theorems.Subscripts.{IsValueIn}

abbrev pub IsInt32 : ℤ → Type 0
IsInt32 n = (min_int32 ≤ℤ n) × (n ≤ℤ max_int32)

-- the range check, on an integer
in_range : (n : ℤ) (e : Err) → IsValueIn IsInt32 (if outside_int32 n then error e else value n)
in_range (pos n) e = ground arith
in_range (negsuc n) e = ground arith

float_range :
    (b : Bool) (n : ℤ) (d e : Err)
    → IsValueIn IsInt32 (if b then error d else if outside_int32 n then error e else value n)
float_range true n d e = tt
float_range false n d e = in_range n e

float_int32_range : (F : Floats) (f : Float64) → IsValueIn IsInt32 (float_int32 F f)
unfolding float_int32
float_int32_range F f = float_range (is_inf f || is_nan f) (F.to_int f) _ _

parsed_range : (F : Floats) (o : Option Float64) → IsValueIn IsInt32 (parsed_int32 F o)
unfolding parsed_int32
parsed_range F none = tt
parsed_range F (some f) = float_int32_range F f

number_range : (F : Floats) (t : Str) (o : Option ℤ) → IsValueIn IsInt32 (number_int32 F t o)
unfolding number_int32
number_range F t (some n) = in_range n _
number_range F t none = parsed_range F (F.parse t)

get_json_int32-IsInt32 : (F : Floats) (v : Value) → IsValueIn IsInt32 (get_json_int32 F v)
unfolding get_json_int32
get_json_int32-IsInt32 F (int n) = in_range n _
get_json_int32-IsInt32 F (float f) = float_int32_range F f
get_json_int32-IsInt32 F (number s) = number_range F s (number_int s)
get_json_int32-IsInt32 F v = tt

inside : (n : ℤ) → outside_int32 n ≡ false → IsInt32 n
inside (pos n) h = ground arith
inside (negsuc n) h = ground arith

pub not_outside : (n : ℤ) → IsInt32 n → outside_int32 n ≡ false
not_outside (pos n) h = ground arith
not_outside (negsuc n) h = ground arith

-- the range check lets a value pass exactly for an integer of 32 bits
checked_iff :
    {A : Type 0} (n : ℤ) (a : A) (e : Err)
    → ((if outside_int32 n then error e else value a) ≡ value a) ↔ IsInt32 n
checked_iff n a e = (
  (λ h. elim (Bool-cases (outside_int32 n)) [
    | inl out ↦ absurd (cc (rw out at h))
    | inr out ↦ inside n out
  ]),
  (λ h. rw (not_outside n h)),
)

-- An index that getJSONInt32 accepts is an integer of 32 bits, whatever the conversion from `float64`
-- gives, and it accepts an integer as it is if and only if it has 32 bits.
pub get_json_int32_iff :
    (F : Floats) (v : Value) (n : ℤ)
    → IsValueIn IsInt32 (get_json_int32 F v) × ((get_json_int32 F (int n) ≡ value n) ↔ IsInt32 n)
unfolding get_json_int32
get_json_int32_iff F v n = (get_json_int32-IsInt32 F v, checked_iff n n _)

-- an integer of 32 bits, as a value
abbrev pub IsInt32Value : Value → Type 0
IsInt32Value (int n) = IsInt32 n
IsInt32Value _ = ⊥

integer_result-IsInt32Value :
    (F : Floats) (o : Option ℤ) → IsValueIn IsInt32Value (integer_result F o)
unfolding integer_result
integer_result-IsInt32Value F none = tt
integer_result-IsInt32Value F (some (pos n)) = ground arith
integer_result-IsInt32Value F (some (negsuc n)) = ground arith

integer_of-IsInt32Value : (F : Floats) (v : Value) → IsValueIn IsInt32Value (integer_of F v)
unfolding integer_of
integer_of-IsInt32Value F (int n) = integer_result-IsInt32Value F (some n)
integer_of-IsInt32Value F (float f) = integer_result-IsInt32Value F (some (F.to_int (F.round f)))
integer_of-IsInt32Value F (number s) =
    integer_result-IsInt32Value F (number_integer F (number_int s) s)
integer_of-IsInt32Value F (string s) = integer_result-IsInt32Value F (parse_int 2147483648 s)
integer_of-IsInt32Value F _ = tt

-- What `.integer()` returns is an integer of 32 bits, for every item, and it returns an integer as it is
-- if and only if it has 32 bits.
pub integer_of_iff :
    (F : Floats) (v : Value) (n : ℤ)
    → IsValueIn IsInt32Value (integer_of F v) × ((integer_of F (int n) ≡ value (int n)) ↔ IsInt32 n)
unfolding integer_of integer_result
integer_of_iff F v n = (integer_of-IsInt32Value F v, checked_iff n (int n) _)

-- ===== src/Exec/Method/Text.antt =====
-- The methods .type(), .string() and .boolean() of path/exec/method.go on an item that is no array.
use sqljson.Prelude.{
  Bool, true, false, ◌||◌, not, Option, none, some, [], ◌∷◌, Str, bytes, nat_eq, length,
  if◌then◌else◌,
}
use sqljson.Prelude.Int.{pos, eq_ℤ}
use sqljson.Golang.{Float64, Floats, float_is_zero, equal_fold}
use sqljson.Golang.Decimal.{format_int}
use sqljson.Json.{
  Value, null, bool, int, float, number, string, datetime, array, object, other, DateTime,
}
use sqljson.Exec.Error.{verbose, Result, value, error, method_argument, invalid_boolean}
use sqljson.Exec.Env.{Times}

-- the names of execMethodType; a type that it does not know has none
unfoldable pub type_name : Value → Option Str
type_name (object _ _) = some (bytes "object")
type_name (array _ _) = some (bytes "array")
type_name (string _) = some (bytes "string")
type_name (int _) = some (bytes "number")
type_name (float _) = some (bytes "number")
type_name (number _) = some (bytes "number")
type_name (bool _) = some (bytes "boolean")
type_name (datetime (DateTime.date _)) = some (bytes "date")
type_name (datetime (DateTime.time _)) = some (bytes "time without time zone")
type_name (datetime (DateTime.time_tz _)) = some (bytes "time with time zone")
type_name (datetime (DateTime.timestamp _)) = some (bytes "timestamp without time zone")
type_name (datetime (DateTime.timestamp_tz _)) = some (bytes "timestamp with time zone")
type_name null = some (bytes "null")
type_name (other _) = none

-- execBooleanString: the first byte chooses the words that count
unfoldable pub exec_boolean_string : Str → Option Bool
unfolding equal_fold
exec_boolean_string [] = none
exec_boolean_string (c ∷ s) =
    let one = nat_eq (length s) 0 in
    let is = λ (x : Str). equal_fold (c ∷ s) x in
    if nat_eq c b't' || nat_eq c b'T'
    then (if one || is (bytes "true") then some true else none)
    else if nat_eq c b'f' || nat_eq c b'F'
    then (if one || is (bytes "false") then some false else none)
    else if nat_eq c b'y' || nat_eq c b'Y'
    then (if one || is (bytes "yes") then some true else none)
    else if nat_eq c b'n' || nat_eq c b'N'
    then (if one || is (bytes "no") then some false else none)
    else if nat_eq c b'o' || nat_eq c b'O'
    then (if is (bytes "on") then some true else if is (bytes "off") then some false else none)
    else if nat_eq c b'1'
    then (if one then some true else none)
    else if nat_eq c b'0'
    then (if one then some false else none)
    else none

module _ (F : Floats) (T : Times) where
  -- execMethodString
  unfoldable pub string_of : Value → Result Value
  unfolding format_int
  string_of (string s) = value (string s)
  string_of (datetime t) = value (string (T.format t))
  string_of (number s) = value (string s)
  string_of (int n) = value (string (format_int n))
  string_of (float f) = value (string (F.format f))
  string_of (bool true) = value (string (bytes "true"))
  string_of (bool false) = value (string (bytes "false"))
  string_of _ = error (verbose method_argument)

module _ (F : Floats) where
  float_boolean : Option Float64 → Result Value
  unfolding float_is_zero
  float_boolean none = error (verbose invalid_boolean)
  float_boolean (some f) =
      if F.equal f (F.trunc f)
      then value (bool (not (float_is_zero f)))
      else error (verbose invalid_boolean)

  text_boolean : Option Bool → Result Value
  text_boolean none = error (verbose invalid_boolean)
  text_boolean (some b) = value (bool b)

  -- execMethodBoolean
  unfoldable pub boolean_of : Value → Result Value
  unfolding float_boolean text_boolean exec_boolean_string
  boolean_of (bool b) = value (bool b)
  boolean_of (int n) = value (bool (not (eq_ℤ n (pos 0))))
  boolean_of (float f) = float_boolean (some f)
  boolean_of (number s) = float_boolean (F.parse s)
  boolean_of (string s) = text_boolean (exec_boolean_string s)
  boolean_of _ = error (verbose method_argument)

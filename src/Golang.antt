-- ===== src/Golang.antt =====
-- What the program uses of Go and its standard library: `float64` as its 64 bits, with the
-- arithmetic as a parameter, and the functions of `strconv`, `strings` and `slices` on bytes.
pub mod Decimal
pub mod Utf8
pub mod Quote
pub mod ParseInt
pub mod Sort
use sqljson.Prelude.{
  ℕ, ◌+◌, ◌-◌, ◌/◌, ◌%◌, Bool, true, false, ◌&&◌, not, Option, [], ◌∷◌, Str, nat_eq, ltb, leb,
  if◌then◌else◌,
}
use sqljson.Prelude.Int.{ℤ, pos, negsuc}

-- An IEEE 754 double is its bit pattern.
pub data Float64 : Type 0 where
  of_bits : ℕ → Float64

abbrev pub exponent_bits : Float64 → ℕ
exponent_bits (of_bits b) = b / 4503599627370496 % 2048

abbrev pub mantissa_bits : Float64 → ℕ
mantissa_bits (of_bits b) = b % 4503599627370496

-- math.IsInf(f, 0), math.IsNaN(f)
unfoldable pub is_inf : Float64 → Bool
is_inf f = nat_eq (exponent_bits f) 2047 && nat_eq (mantissa_bits f) 0

unfoldable pub is_nan : Float64 → Bool
is_nan f = nat_eq (exponent_bits f) 2047 && not (nat_eq (mantissa_bits f) 0)

abbrev sign_bit : ℕ
sign_bit = 9223372036854775808

-- -f and math.Abs(f) change only the sign bit.
unfoldable pub float_minus : Float64 → Float64
float_minus (of_bits b) = of_bits (if ltb b sign_bit then b + sign_bit else b - sign_bit)

unfoldable pub float_abs : Float64 → Float64
float_abs (of_bits b) = of_bits (b % sign_bit)

-- The zeros are 0 and -0.
unfoldable pub float_is_zero : Float64 → Bool
float_is_zero (of_bits b) = nat_eq (b % sign_bit) 0

abbrev pub float_zero : Float64
float_zero = of_bits 0

-- The arithmetic of `float64`, which antt lacks, and the conversions from and to it.
pub record Floats : Type 0 where
  pub add : Float64 → Float64 → Float64
  pub sub : Float64 → Float64 → Float64
  pub mul : Float64 → Float64 → Float64
  pub div : Float64 → Float64 → Float64
  pub mod_of : Float64 → Float64 → Float64
  pub floor : Float64 → Float64
  pub ceil : Float64 → Float64
  pub round : Float64 → Float64
  pub trunc : Float64 → Float64
  pub pow10 : ℤ → Float64
  pub less : Float64 → Float64 → Bool
  pub equal : Float64 → Float64 → Bool
  pub of_int : ℤ → Float64
  pub to_int : Float64 → ℤ
  pub parse : Str → Option Float64
  pub format : Float64 → Str

-- strings.HasPrefix(s, prefix)
unfoldable pub has_prefix : Str → Str → Bool
has_prefix s [] = true
has_prefix [] (p ∷ prefix) = false
has_prefix (c ∷ s) (p ∷ prefix) = nat_eq c p && has_prefix s prefix

-- strings.Compare(s, t), by bytes
unfoldable pub compare_strings : Str → Str → ℤ
compare_strings [] [] = pos 0
compare_strings [] (d ∷ t) = negsuc 0
compare_strings (c ∷ s) [] = pos 1
compare_strings (c ∷ s) (d ∷ t) =
    if ltb c d then negsuc 0 else if ltb d c then pos 1 else compare_strings s t

abbrev lower_letter : ℕ → ℕ
lower_letter c = if leb b'A' c && leb c b'Z' then c + 32 else c

-- strings.EqualFold(s, word) for a word of small ASCII letters. Besides the capital, `s` has one
-- more letter in its class under simple folding, U+017F, and `k` has U+212A, which no word holds.
unfoldable pub equal_fold : Str → Str → Bool
equal_fold [] [] = true
equal_fold (c ∷ []) (w ∷ word) = nat_eq (lower_letter c) w && equal_fold [] word
equal_fold (c ∷ d ∷ s) (w ∷ word) =
    if nat_eq w b's' && nat_eq c 0xc5 && nat_eq d 0xbf
    then equal_fold s word
    else nat_eq (lower_letter c) w && equal_fold (d ∷ s) word
equal_fold _ _ = false

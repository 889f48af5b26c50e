-- ===== src/Theorems/Texts.antt =====
-- Integers that the methods of path/exec/method.go write and read.
use sqljson.Prelude.{
  ℕ, zero, suc, ◌+◌, ◌-◌, ◌*◌, ◌/◌, ◌%◌, ◌≤◌, ◌<◌, true, false, ◌≡◌, refl, some, [], ◌∷◌, Str,
  nat_eq, ltb, leb, ltb→lt, Bool-cases, inl, inr, arith,
}
use sqljson.Prelude.Int.{ℤ, pos, negsuc, IsInt64, two63}
use sqljson.Golang.{Floats}
use sqljson.Golang.Decimal.{
  read_digits, read_unsigned, write_digits, at_most, minus, digits, parse_int, format_int,
}
use sqljson.Json.{Value, int}
use sqljson.Exec.Error.{Result, value, error}
use sqljson.Exec.Env.{Times}
use sqljson.Exec.Method.Number.{integer_of, big_int_of, integer_result}
use sqljson.Exec.Method.Text.{string_of}
use sqljson.Theorems.Integers.{IsInt32, not_outside}

-- ten to a power
abbrev ten_to : ℕ → ℕ
ten_to zero = 1
ten_to (suc k) = 10 * ten_to k

digit_step :
    (acc d : ℕ) (s : Str) → d < 10 → read_digits acc ((b'0' + d) ∷ s) ≡ read_digits (acc * 10 + d) s
unfolding read_digits
digit_step acc d s h =
    let low : leb 48 (48 + d) ≡ true = ground arith in
    let high : leb (48 + d) 57 ≡ true = ground arith in
    let same : 48 + d - 48 ≡ d = omega arith in rw (low, high, same)

read-write_digits :
    (fuel n : ℕ) (tail : Str)
    → n < ten_to fuel
    → read_digits 0 (write_digits fuel n tail) ≡ read_digits n tail
unfolding write_digits
read-write_digits zero n tail h = let none_left : n ≡ 0 = omega arith in rw none_left
read-write_digits (suc fuel) n tail h = elim (Bool-cases (ltb n 10)) [
  | inl e ↦
      (let zero_and : 0 * 10 + n ≡ n = omega arith in
        rw (e, digit_step 0 n tail (ltb→lt n 10 e), zero_and))
  | inr e ↦
      let whole : n / 10 * 10 + n % 10 ≡ n = omega arith in
      rw (
        e,
        read-write_digits fuel (n / 10) ((48 + n % 10) ∷ tail) (omega arith),
        digit_step (n / 10) (n % 10) tail (omega arith),
        whole,
      )
]

-- What is written begins with a digit, so it is neither empty nor signed.
abbrev IsUnsigned : Str → Type 0
IsUnsigned [] = ⊥
IsUnsigned (c ∷ s) = (nat_eq c b'-' ≡ false) × (nat_eq c b'+' ≡ false)

digit-IsUnsigned : (d : ℕ) (tail : Str) → d < 10 → IsUnsigned ((48 + d) ∷ tail)
digit-IsUnsigned d tail h = (ground arith, ground arith)

write_digits-IsUnsigned :
    (fuel n : ℕ) (tail : Str) → IsUnsigned tail → IsUnsigned (write_digits fuel n tail)
unfolding write_digits
write_digits-IsUnsigned zero n tail h = h
write_digits-IsUnsigned (suc fuel) n tail h = elim (Bool-cases (ltb n 10)) [
  | inl e ↦ rw e (digit-IsUnsigned n tail (ltb→lt n 10 e))
  | inr e ↦ rw e (
      write_digits-IsUnsigned fuel (n / 10) ((48 + n % 10) ∷ tail)
        (digit-IsUnsigned (n % 10) tail (omega arith)))
]

written-IsUnsigned : (fuel n : ℕ) → IsUnsigned (write_digits (suc fuel) n [])
unfolding write_digits
written-IsUnsigned fuel n = elim (Bool-cases (ltb n 10)) [
  | inl e ↦ rw e (digit-IsUnsigned n [] (ltb→lt n 10 e))
  | inr e ↦ rw e (
      write_digits-IsUnsigned fuel (n / 10) ((48 + n % 10) ∷ [])
        (digit-IsUnsigned (n % 10) [] (omega arith)))
]

read_unsigned_lem : (s : Str) → IsUnsigned s → read_unsigned s ≡ read_digits 0 s
unfolding read_unsigned
read_unsigned_lem [] h = absurd h
read_unsigned_lem (c ∷ s) h = refl

parse_int_unsigned :
    (limit : ℕ) (s : Str)
    → IsUnsigned s
    → parse_int limit s ≡ at_most (limit - 1) pos (read_digits 0 s)
unfolding parse_int read_unsigned
parse_int_unsigned limit [] h = absurd h
parse_int_unsigned limit (c ∷ s) (a, b) = rw (a, b)

digits_lem : (n : ℕ) → n ≤ two63 → read_digits 0 (digits n) ≡ some n
unfolding digits read_digits
digits_lem n h = read-write_digits 20 n [] (omega arith)

digits-IsUnsigned : (n : ℕ) → IsUnsigned (digits n)
unfolding digits
digits-IsUnsigned n = written-IsUnsigned 19 n

-- the numbers of a width, given 2 ^ (width - 1)
abbrev InLimit : ℕ → ℤ → Type 0
InLimit limit (pos n) = n < limit
InLimit limit (negsuc n) = n < limit

at_most_lem :
    (most n : ℕ) (signed : ℕ → ℤ) → n ≤ most → at_most most signed (some n) ≡ some (signed n)
at_most_lem most n signed h = (let e : leb n most ≡ true = ground arith in rw e)

minus-suc : (n : ℕ) → minus (suc n) ≡ negsuc n
minus-suc n = ground arith

parse-format_int :
    (limit : ℕ) (n : ℤ) → limit ≤ two63 → InLimit limit n → parse_int limit (format_int n) ≡ some n
unfolding format_int parse_int
parse-format_int limit (pos n) le h = rw (
  parse_int_unsigned limit (digits n) (digits-IsUnsigned n),
  digits_lem n (omega arith),
  at_most_lem (limit - 1) n pos (omega arith),
)
parse-format_int limit (negsuc n) le h = rw (
  read_unsigned_lem (digits (suc n)) (digits-IsUnsigned (suc n)),
  digits_lem (suc n) (omega arith),
  at_most_lem limit (suc n) minus (omega arith),
  minus-suc n,
)

-- one method on the result of another
abbrev pub then_method : (Value → Result Value) → Result Value → Result Value
then_method f (value v) = f v
then_method f (error e) = error e

limit_of_int64 : (n : ℤ) → IsInt64 n → InLimit two63 n
limit_of_int64 (pos n) h = h
limit_of_int64 (negsuc n) h = h

limit_of_int32 : (n : ℤ) → IsInt32 n → InLimit 2147483648 n
limit_of_int32 (pos n) h = omega (arith, h.1)
limit_of_int32 (negsuc n) h = omega (arith, h.0)

-- `.string().bigint()` gives back every 64-bit integer.
pub big_int_of-string_of :
    (F : Floats) (T : Times) (n : ℤ)
    → IsInt64 n
    → then_method (big_int_of F) (string_of F T (int n)) ≡ value (int n)
unfolding big_int_of string_of
big_int_of-string_of F T n h = rw (parse-format_int two63 n (omega arith) (limit_of_int64 n h))

-- `.string().integer()` gives back every 32-bit integer.
pub integer_of-string_of :
    (F : Floats) (T : Times) (n : ℤ)
    → IsInt32 n
    → then_method (integer_of F) (string_of F T (int n)) ≡ value (int n)
unfolding integer_of string_of integer_result
integer_of-string_of F T n h =
    rw (parse-format_int 2147483648 n (omega arith) (limit_of_int32 n h), not_outside n h)

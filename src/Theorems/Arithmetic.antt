-- ===== src/Theorems/Arithmetic.antt =====
-- The `int64` arithmetic of path/exec/math.go.
use sqljson.Prelude.{
  ℕ, suc, ◌+◌, ◌-◌, ◌*◌, ◌/◌, ◌%◌, ◌<◌, Bool, true, false, ◌≡◌, refl, ap, ◌∙◌, ◌⊎◌, inl, inr, arith,
  ltb, if◌then◌else◌,
}
use sqljson.Prelude.Int.{
  ℤ, pos, negsuc, pos_part, neg_part, ltb_ℤ, ◌+ℤ◌, ◌-ℤ◌, ◌*ℤ◌, quot, rem, negate, wrap64, IsInt64,
  two63, two64, of_word,
}
use sqljson.Ast.{BinaryOperator, add, sub, mul, div, mod_of}
use sqljson.Exec.Error.{Err, value, error}
use sqljson.Exec.Math.{execute_integer_math}
use sqljson.Exec.Method.Number.{int_abs}
use sqljson.Theorems.Subscripts.{IsValueIn}

of_word-IsInt64 : (m : ℕ) → m < two64 → IsInt64 (of_word m)
of_word-IsInt64 m h = ground arith

pub wrap64-IsInt64 : (n : ℤ) → IsInt64 (wrap64 n)
unfolding wrap64
wrap64-IsInt64 (pos n) = of_word-IsInt64 _ (omega arith)
wrap64-IsInt64 (negsuc n) = of_word-IsInt64 _ (omega arith)

-- Two integers with the same low 64 bits.
abbrev pub IsCongruent : ℤ → ℤ → Type 0
IsCongruent a b =
    (i : ℕ) × (j : ℕ) × (pos_part a + neg_part b + i * two64 ≡ pos_part b + neg_part a + j * two64)

-- how often 2 ^ 64 is taken away
abbrev wraps : ℕ → ℕ
wraps m = if ltb m two63 then 0 else 1

of_word-wraps :
    (m : ℕ) → m < two64 → pos_part (of_word m) + wraps m * two64 ≡ m + neg_part (of_word m)
of_word-wraps m h = ground arith

wrap64-IsCongruent : (n : ℤ) → IsCongruent (wrap64 n) n
unfolding wrap64
wrap64-IsCongruent (pos n) =
    let e = of_word-wraps (n % two64) (omega arith) in
    (n / two64 + wraps (n % two64), 0, omega (arith, e))
wrap64-IsCongruent (negsuc n) =
    let m = two64 - 1 - n % two64 in
    let e = of_word-wraps (two64 - 1 - n % two64) (omega arith) in
    (wraps m, n / two64 + 1, omega (arith, e))

of_word_low : (n m : ℕ) → n < two63 → m ≡ n → of_word m ≡ pos n
of_word_low n m h e = ground arith

of_word_high : (n m : ℕ) → n < two63 → m + n + 1 ≡ two64 → of_word m ≡ negsuc n
of_word_high n m h e = ground arith

pub wrap64_id : (n : ℤ) → IsInt64 n → wrap64 n ≡ n
unfolding wrap64
wrap64_id (pos n) h = of_word_low n (n % two64) h (omega arith)
wrap64_id (negsuc n) h = of_word_high n (two64 - 1 - n % two64) h (omega arith)

-- the exact result
abbrev pub exact : BinaryOperator → ℤ → ℤ → ℤ
exact add l r = l +ℤ r
exact sub l r = l -ℤ r
exact mul l r = l *ℤ r
exact div l r = quot l r
exact mod_of l r = rem l r
exact _ l r = l

-- an `int64`, the same modulo 2 ^ 64
abbrev pub IsWrapped : ℤ → ℤ → Type 0
IsWrapped n result = IsInt64 result × IsCongruent result n

wrap64-IsWrapped : (n : ℤ) → IsWrapped n (wrap64 n)
wrap64-IsWrapped n = (wrap64-IsInt64 n, wrap64-IsCongruent n)

-- through the test of the divisor
tested :
    (P : ℤ → Type 0) (b : Bool) (e : Err) (n : ℤ)
    → P n
    → IsValueIn P (if b then error e else value n)
tested P true e n h = tt
tested P false e n h = h

-- The result of `int64` arithmetic is an `int64`, congruent to the exact sum, difference, product,
-- quotient or remainder modulo 2 ^ 64.
pub integer_math-IsWrapped :
    (l r : ℤ) (op : BinaryOperator)
    → IsValueIn (IsWrapped (exact op l r)) (execute_integer_math l r op)
unfolding execute_integer_math
integer_math-IsWrapped l r add = wrap64-IsWrapped (l +ℤ r)
integer_math-IsWrapped l r sub = wrap64-IsWrapped (l -ℤ r)
integer_math-IsWrapped l r mul = wrap64-IsWrapped (l *ℤ r)
integer_math-IsWrapped l r div = tested (IsWrapped (quot l r)) _ _ _ (wrap64-IsWrapped (quot l r))
integer_math-IsWrapped l r mod_of = tested (IsWrapped (rem l r)) _ _ _ (wrap64-IsWrapped (rem l r))
integer_math-IsWrapped l r _ = tt

-- the least `int64`
abbrev pub least : ℤ
least = negsuc 9223372036854775807

int_abs_pos : (n : ℕ) → int_abs (pos n) ≡ pos n
unfolding int_abs
int_abs_pos n = ground arith

below_zero : (n : ℕ) → ltb_ℤ (negsuc n) (pos 0) ≡ true
below_zero n = ground arith

negate_neg : (n : ℕ) → negate (negsuc n) ≡ pos (suc n)
unfolding negate
negate_neg n = ground arith

int_abs_neg : (n : ℕ) → int_abs (negsuc n) ≡ wrap64 (pos (suc n))
unfolding int_abs
int_abs_neg n = rw (below_zero n, negate_neg n)

at_least : (n : ℕ) → n < two63 → (n ≡ 9223372036854775807) ⊎ (suc n < two63)
at_least n h = ground arith

least_wraps : wrap64 (pos two63) ≡ least
unfolding wrap64
least_wraps = refl

-- The absolute value of an `int64` is that of the integer, without wrapping, but for the least one,
-- which stays as it is.
pub int_abs_lem :
    (x : ℤ)
    → IsInt64 x
    → ((x ≡ least) × (int_abs x ≡ least))
      ⊎ (IsInt64 (int_abs x) × (int_abs x ≡ pos (pos_part x + neg_part x)))
int_abs_lem (pos n) h = inr (rw (int_abs_pos n) h, rw (int_abs_pos n) (ap pos (omega arith)))
int_abs_lem (negsuc n) h = elim (at_least n h) [
  | inl e ↦ inl (ap negsuc e, int_abs_neg n ∙ ap (λ m. wrap64 (pos (suc m))) e ∙ least_wraps)
  | inr small ↦
      let same = int_abs_neg n ∙ wrap64_id (pos (suc n)) small in
      inr (rw same small, same ∙ ap pos (omega arith))
]

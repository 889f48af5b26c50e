-- ===== src/Theorems/Division.antt =====
-- Division of `int64` in path/exec/math.go.
use sqljson.Prelude.{ℕ, suc, ◌+◌, ◌*◌, ◌/◌, ◌%◌, false, ◌≡◌, ap, arith}
use native.Mathlib.Nat.{div-add-mod'}
use sqljson.Prelude.Int.{
  ℤ, pos, negsuc, pos_part, neg_part, sub_ℕ, ◌+ℤ◌, ◌*ℤ◌, quot, rem, eq_ℤ, IsInt64,
}
use sqljson.Ast.{div, mod_of}
use sqljson.Exec.Error.{value}
use sqljson.Exec.Math.{execute_integer_math}
use sqljson.Theorems.Arithmetic.{wrap64_id}

-- an integer is known by its value
eq_of_parts : (a b : ℤ) → pos_part a + neg_part b ≡ pos_part b + neg_part a → a ≡ b
eq_of_parts (pos a) (pos b) h = ap pos (omega arith)
eq_of_parts (pos a) (negsuc b) h = absurd (omega arith)
eq_of_parts (negsuc a) (pos b) h = absurd (omega arith)
eq_of_parts (negsuc a) (negsuc b) h = ap negsuc (omega arith)

sub_ℕ_parts : (a b : ℕ) → pos_part (sub_ℕ a b) + b ≡ a + neg_part (sub_ℕ a b)
sub_ℕ_parts a b = ground arith

minus_pos : (n : ℕ) → pos_part (sub_ℕ 0 n) ≡ 0
minus_pos n = ground arith

minus_neg : (n : ℕ) → neg_part (sub_ℕ 0 n) ≡ n
minus_neg n = ground arith

-- the value of a product and a sum, from the values of the parts
combine :
    (p n pX nX pm nm pY nY pl nl : ℕ)
    → pX + n ≡ p + nX
    → pY + (nX + nm) ≡ pX + pm + nY
    → p + pm + nl ≡ n + nm + pl
    → pY + nl ≡ pl + nY
combine p n pX nX pm nm pY nY pl nl e f g = omega arith

sum_lem :
    (q r m l : ℤ)
    → pos_part q * pos_part r + neg_part q * neg_part r + pos_part m + neg_part l
      ≡ pos_part q * neg_part r + neg_part q * pos_part r + neg_part m + pos_part l
    → q *ℤ r +ℤ m ≡ l
unfolding ◌*ℤ◌ ◌+ℤ◌
sum_lem q r m l h =
    let p = pos_part q * pos_part r + neg_part q * neg_part r in
    let n = pos_part q * neg_part r + neg_part q * pos_part r in
    let x = sub_ℕ p n in
    eq_of_parts _ l (
      combine p n (pos_part x) (neg_part x) (pos_part m) (neg_part m) _ _ (pos_part l) (neg_part l)
        (sub_ℕ_parts p n) (sub_ℕ_parts (pos_part x + pos_part m) (neg_part x + neg_part m)) h)

quot-rem : (l r : ℤ) → quot l r *ℤ r +ℤ rem l r ≡ l
unfolding quot rem
quot-rem (pos a) (pos b) =
    sum_lem _ _ _ _ (let e : b + 0 ≡ b = omega arith in rw e (omega (arith, div-add-mod' a b)))
quot-rem (pos a) (negsuc b) = sum_lem _ _ _ _ (
    let e : 0 + suc b ≡ suc b = omega arith in
    rw (e, minus_pos (a / suc b), minus_neg (a / suc b)) (omega (arith, div-add-mod' a (suc b))))
quot-rem (negsuc a) (pos b) = sum_lem _ _ _ _ (
    let e : b + 0 ≡ b = omega arith in
    rw
      (
        e,
        minus_pos (suc a / b),
        minus_neg (suc a / b),
        minus_pos (suc a % b),
        minus_neg (suc a % b),
      )
      (omega (arith, div-add-mod' (suc a) b)))
quot-rem (negsuc a) (negsuc b) = sum_lem _ _ _ _ (
    let e : 0 + suc b ≡ suc b = omega arith in
    rw (e, minus_pos (suc a % suc b), minus_neg (suc a % suc b))
      (omega (arith, div-add-mod' (suc a) (suc b))))

-- Where the divisor is not zero, and the quotient and the remainder are `int64`, `/` and `%` return
-- some `q` and `m` such that `q` times the divisor plus `m` is the dividend.
pub integer_division :
    (l r : ℤ)
    → eq_ℤ r (pos 0) ≡ false
    → IsInt64 (quot l r)
    → IsInt64 (rem l r)
    → (q : ℤ) × (m : ℤ) × (execute_integer_math l r div ≡ value q)
      × (execute_integer_math l r mod_of ≡ value m)
      × (q *ℤ r +ℤ m ≡ l)
unfolding execute_integer_math
integer_division l r h fits fits' = (
  quot l r,
  rem l r,
  rw (h, wrap64_id (quot l r) fits),
  rw (h, wrap64_id (rem l r) fits'),
  quot-rem l r,
)

-- ===== src/Exec/Math.antt =====
-- path/exec/math.go: unary and binary arithmetic.
use sqljson.Prelude.{Bool, true, false, ◌&&◌, Option, none, some, List, [], ◌∷◌, Str, if◌then◌else◌}
use sqljson.Prelude.Int.{ℤ, pos, wrap64, ◌+ℤ◌, ◌-ℤ◌, ◌*ℤ◌, quot, rem, eq_ℤ}
use sqljson.Golang.{Float64, Floats, float_is_zero}
use sqljson.Json.{Value, int, float, number}
use sqljson.Ast.{Ref, to, Node, next_of, is_nil, BinaryOperator, add, sub, mul, div, mod_of}
use sqljson.Exec.Error.{
  ok, not_found, is_failed, is_ok, verbose, invalid, Out, Result, value, error, division_by_zero,
  not_math_operator, left_operand, right_operand, operand_not_numeric,
}
use sqljson.Exec.Env.{Env}
use sqljson.Exec.State.{M, ◌>>=◌, pure, with_list, no_list, return_verbose_error, unless_existence}
use sqljson.Exec.Next.{Run, execute_next_item, execute_item_opt_unwrap_result}
use sqljson.Exec.AnyItem.{Round, return, continue, round_out}
use sqljson.Exec.Util.{number_int, cast_json_number}

-- The result of `int64` arithmetic is wrapped to 64 bits.
unfoldable pub execute_integer_math : ℤ → ℤ → BinaryOperator → Result ℤ
unfolding wrap64 ◌+ℤ◌ ◌-ℤ◌ ◌*ℤ◌ quot rem
execute_integer_math lhs rhs add = value (wrap64 (lhs +ℤ rhs))
execute_integer_math lhs rhs sub = value (wrap64 (lhs -ℤ rhs))
execute_integer_math lhs rhs mul = value (wrap64 (lhs *ℤ rhs))
execute_integer_math lhs rhs div =
    if eq_ℤ rhs (pos 0) then error (verbose division_by_zero) else value (wrap64 (quot lhs rhs))
execute_integer_math lhs rhs mod_of =
    if eq_ℤ rhs (pos 0) then error (verbose division_by_zero) else value (wrap64 (rem lhs rhs))
execute_integer_math lhs rhs _ = error (invalid not_math_operator)

module _ (F : Floats) where
  unfoldable pub execute_float_math : Float64 → Float64 → BinaryOperator → Result Float64
  unfolding float_is_zero
  execute_float_math lhs rhs add = value (F.add lhs rhs)
  execute_float_math lhs rhs sub = value (F.sub lhs rhs)
  execute_float_math lhs rhs mul = value (F.mul lhs rhs)
  execute_float_math lhs rhs div =
      if float_is_zero rhs then error (verbose division_by_zero) else value (F.div lhs rhs)
  execute_float_math lhs rhs mod_of =
      if float_is_zero rhs then error (verbose division_by_zero) else value (F.mod_of lhs rhs)
  execute_float_math lhs rhs _ = error (invalid not_math_operator)

  abbrev int_result : Result ℤ → Result Value
  int_result (value n) = value (int n)
  int_result (error e) = error e

  abbrev float_result : Result Float64 → Result Value
  float_result (value f) = value (float f)
  float_result (error e) = error e

  int_math : ℤ → ℤ → BinaryOperator → Result Value
  unfolding execute_integer_math
  int_math l r op = int_result (execute_integer_math l r op)

  float_math : Float64 → Float64 → BinaryOperator → Result Value
  unfolding execute_float_math
  float_math l r op = float_result (execute_float_math l r op)

  -- a number that is no `int64`, as a right operand
  right_float : Float64 → Option Float64 → BinaryOperator → Result Value
  unfolding float_math
  right_float l none op = error (verbose right_operand)
  right_float l (some r) op = float_math l r op

  int_and_number : ℤ → Str → Option ℤ → BinaryOperator → Result Value
  unfolding right_float int_math
  int_and_number l s (some r) op = int_math l r op
  int_and_number l s none op = right_float (F.of_int l) (F.parse s) op

  int_and_any : ℤ → Value → BinaryOperator → Result Value
  unfolding int_and_number number_int
  int_and_any l (int r) op = int_math l r op
  int_and_any l (float r) op = float_math (F.of_int l) r op
  int_and_any l (number s) op = int_and_number l s (number_int s) op
  int_and_any l _ op = error (verbose right_operand)

  float_and_any : Float64 → Value → BinaryOperator → Result Value
  unfolding right_float
  float_and_any l (float r) op = float_math l r op
  float_and_any l (int r) op = float_math l (F.of_int r) op
  float_and_any l (number s) op = right_float l (F.parse s) op
  float_and_any l _ op = error (verbose right_operand)

  left_float : Option Float64 → Value → BinaryOperator → Result Value
  unfolding float_and_any
  left_float none right op = error (verbose left_operand)
  left_float (some l) right op = float_and_any l right op

  left_number : Str → Option ℤ → Value → BinaryOperator → Result Value
  unfolding left_float int_and_any
  left_number s (some l) right op = int_and_any l right op
  left_number s none right op = left_float (F.parse s) right op

  unfoldable pub exec_math_op : Value → Value → BinaryOperator → Result Value
  unfolding left_number int_and_any float_and_any number_int
  exec_math_op (int l) right op = int_and_any l right op
  exec_math_op (float l) right op = float_and_any l right op
  exec_math_op (number s) right op = left_number s (number_int s) right op
  exec_math_op _ right op = error (verbose left_operand)

abbrev is_number : Value → Bool
is_number (int _) = true
is_number (float _) = true
is_number (number _) = true
is_number _ = false

module _ (E : Env) (run : Run) where
  module _ (n : Node) (on_int : ℤ → ℤ) (on_float : Float64 → Float64) where
    -- the value that a unary operator gives; an item that is no number stays as it is, if nothing
    -- but existence is asked
    unfoldable pub unary_value : Bool → Value → Option Value
    unfolding cast_json_number
    unary_value existence (int m) = some (int (on_int m))
    unary_value existence (float f) = some (float (on_float f))
    unary_value existence (number s) = cast_json_number E.floats s on_int on_float
    unary_value existence v = if existence then some v else none

    unfoldable pub unary_next : (Out → M Round) → Out → Option Value → M Round
    unfolding execute_next_item return_verbose_error
    unary_next rest out none = do
      out' ← return_verbose_error (verbose operand_not_numeric)
      pure (return out')
    unary_next rest out (some v) = do
      next ← execute_next_item E run (to n) (next_of n) v
      none_wanted ← no_list
      if is_failed next.0
          then pure (return next)
          else if is_ok next.0
          then (if none_wanted then pure (return (ok, none)) else rest (next.0, none))
          else rest out

    -- One round of the loop over the operand's sequence.
    unfoldable pub unary_round : Value → (Out → M Round) → Out → M Round
    unfolding unary_value unary_next
    unary_round v rest out = do
      none_wanted ← no_list
      let existence = is_nil (next_of n) && none_wanted
      if existence && is_number v
          then pure (return (ok, none))
          else unary_next rest out (unary_value existence v)

    unfoldable pub unary_loop : List Value → Out → M Round
    unfolding unary_round
    unary_loop [] out = pure (continue out)
    unary_loop (v ∷ vs) out = unary_round v (unary_loop vs) out

    unfoldable pub exec_unary_math_expr : Ref → Value → M Out
    unfolding unary_loop execute_item_opt_unwrap_result
    exec_unary_math_expr operand v = do
      (out, seq) ← with_list (execute_item_opt_unwrap_result E run operand v true)
      if is_failed out.0
          then pure out
          else do round ← unary_loop seq (not_found, none); pure (round_out round)

  unfoldable pub math_result : Node → Result Value → M Out
  unfolding execute_next_item return_verbose_error unless_existence
  math_result n (error e) = return_verbose_error e
  math_result n (value v) =
      unless_existence (is_nil (next_of n)) (execute_next_item E run (to n) (next_of n) v)

  unfoldable pub right_operand_of : Node → BinaryOperator → Value → Out → List Value → M Out
  unfolding math_result exec_math_op
  right_operand_of n op l out (r ∷ []) =
      if is_failed out.0 then pure out else math_result n (exec_math_op E.floats l r op)
  right_operand_of n op l out seq =
      if is_failed out.0 then pure out else return_verbose_error (verbose right_operand)

  unfoldable pub left_operand_of : Node → BinaryOperator → Ref → Value → Out → List Value → M Out
  unfolding right_operand_of execute_item_opt_unwrap_result
  left_operand_of n op right v out (l ∷ []) = if is_failed out.0 then pure out else do
    (out', seq) ← with_list (execute_item_opt_unwrap_result E run right v true)
    right_operand_of n op l out' seq
  left_operand_of n op right v out seq =
      if is_failed out.0 then pure out else return_verbose_error (verbose left_operand)

  unfoldable pub exec_binary_math_expr : Node → BinaryOperator → Ref → Ref → Value → M Out
  unfolding left_operand_of
  exec_binary_math_expr n op left right v = do
    (out, seq) ← with_list (execute_item_opt_unwrap_result E run left v true)
    left_operand_of n op right v out seq

-- ===== src/Exec/Const.antt =====
-- path/exec/const.go: null, true, false, `$`, `@`, `*`, `[*]` and `last`.
use sqljson.Prelude.{ℕ, Bool, true, false, some, if◌then◌else◌}
use sqljson.Prelude.Int.{pos, ◌-ℤ◌, ltb_ℤ}
use sqljson.Json.{Value, null, bool, int, array, object}
use sqljson.Ast.{nil, to, Node, next_of, is_nil, Constant}
use sqljson.Exec.Error.{
  failed, verbose, execution, Out, wildcard_not_an_object, wildcard_not_an_array, last_outside,
}
use sqljson.Exec.Env.{Env}
use sqljson.Exec.State.{M, ◌>>=◌, pure, gets, with_base, unless_existence}
use sqljson.Exec.Next.{Run, execute_next_item}
use sqljson.Exec.AnyItem.{execute_any_item, execute_item_unwrap_target_array}
use sqljson.Exec.Literal.{structural_error}

-- addrOf(obj)
abbrev pub addr_of : Value → ℕ
addr_of (array a _) = a
addr_of (object a _) = a
addr_of _ = 0

module _ (E : Env) (run : Run) where
  unfoldable pub exec_literal_const : Node → Value → M Out
  unfolding execute_next_item unless_existence
  exec_literal_const n v =
      unless_existence (is_nil (next_of n)) (execute_next_item E run (to n) (next_of n) v)

  unfoldable pub exec_any_key : Node → Value → Bool → M Out
  unfolding structural_error execute_any_item execute_item_unwrap_target_array
  exec_any_key n (object a fs) unwrap =
      execute_any_item run (next_of n) 1 1 false E.lax (object a fs) 1
  exec_any_key n (array a vs) unwrap =
      if unwrap
      then execute_item_unwrap_target_array run (to n) (array a vs)
      else structural_error (verbose wildcard_not_an_object)
  exec_any_key n _ unwrap = structural_error (verbose wildcard_not_an_object)

  unfoldable pub exec_any_array : Node → Value → M Out
  unfolding structural_error execute_any_item execute_next_item
  exec_any_array n (array a vs) = execute_any_item run (next_of n) 1 1 false E.lax (array a vs) 1
  exec_any_array n v =
      if E.lax
      then execute_next_item E run (to n) nil v
      else structural_error (verbose wildcard_not_an_array)

  unfoldable pub exec_last_const : Node → M Out
  unfolding execute_next_item unless_existence ◌-ℤ◌
  exec_last_const n = do
    size ← gets (λ s. s.innermost_array_size)
    if ltb_ℤ size (pos 0)
        then pure (failed, some (execution last_outside))
        else unless_existence (is_nil (next_of n))
            (execute_next_item E run (to n) (next_of n) (int (size -ℤ pos 1)))

  unfoldable pub exec_const_node : Node → Constant → Value → Bool → M Out
  unfolding exec_literal_const exec_any_key exec_any_array exec_last_const
  exec_const_node n Constant.null v unwrap = exec_literal_const n null
  exec_const_node n Constant.true v unwrap = exec_literal_const n (bool true)
  exec_const_node n Constant.false v unwrap = exec_literal_const n (bool false)
  exec_const_node n Constant.root v unwrap =
      with_base (addr_of E.root) 0 (execute_next_item E run (to n) nil E.root)
  exec_const_node n Constant.current v unwrap = do
    current ← gets (λ s. s.current)
    execute_next_item E run (to n) nil current
  exec_const_node n Constant.any_key v unwrap = exec_any_key n v unwrap
  exec_const_node n Constant.any_array v unwrap = exec_any_array n v
  exec_const_node n Constant.last v unwrap = exec_last_const n

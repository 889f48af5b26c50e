-- ===== src/Exec/Method.antt =====
-- path/exec/method.go: the item methods.
pub mod Number
pub mod Text
use sqljson.Prelude.{Bool, ◌&&◌, not, Option, none, some, Str, length, if◌then◌else◌}
use sqljson.Prelude.Int.{pos}
use sqljson.Golang.{float_abs}
use sqljson.Json.{Value, int, string, array, items_list}
use sqljson.Ast.{
  nil, to, Node, MethodName, abs, size, type, floor, ceiling, double, key_value, big_int, boolean,
  integer,
}
use sqljson.Exec.Error.{
  verbose, invalid, Out, failed, Result, value, error, method_argument, unsupported_type,
}
use sqljson.Exec.Env.{Env}
use sqljson.Exec.State.{M, ◌>>=◌, pure, gets, return_verbose_error, return_error}
use sqljson.Exec.Next.{Run, execute_next_item}
use sqljson.Exec.AnyItem.{execute_item_unwrap_target_array}
use sqljson.Exec.KeyValue.{execute_key_value_method}
use sqljson.Exec.Method.Number.{
  numeric_item, int_abs, int_self, double_of, integer_of, big_int_of, number_of,
}
use sqljson.Exec.Method.Text.{type_name, string_of, boolean_of}

module _ (E : Env) (run : Run) where
  -- A method that maps one item to one value or fails.
  unfoldable pub method_result : Node → Result Value → M Out
  unfolding execute_next_item return_error
  method_result n (value v) = execute_next_item E run (to n) nil v
  method_result n (error e) = return_error e

  -- The switch on the type of the item: an array is unwrapped or refused.
  unfoldable pub item_method : Node → (Value → Result Value) → Value → Bool → M Out
  unfolding method_result execute_item_unwrap_target_array return_verbose_error
  item_method n f (array a vs) unwrap =
      if unwrap
      then execute_item_unwrap_target_array run (to n) (array a vs)
      else return_verbose_error (verbose method_argument)
  item_method n f v unwrap = method_result n (f v)

  unfoldable pub type_result : Node → Option Str → M Out
  unfolding execute_next_item
  type_result n none = pure (failed, some (invalid unsupported_type))
  type_result n (some t) = execute_next_item E run (to n) nil (string t)

  -- execMethodType
  unfoldable pub exec_method_type : Node → Value → M Out
  unfolding type_name type_result
  exec_method_type n v = type_result n (type_name v)

  -- execMethodSize
  unfoldable pub exec_method_size : Node → Value → M Out
  unfolding execute_next_item return_verbose_error
  exec_method_size n (array a vs) =
      execute_next_item E run (to n) nil (int (pos (length (items_list vs))))
  exec_method_size n v = do
    ignored ← gets (λ s. s.ignore_structural_errors)
    if not E.lax && not ignored
        then return_verbose_error (verbose method_argument)
        else execute_next_item E run (to n) nil (int (pos 1))

  -- execMethodNode
  unfoldable pub exec_method_node : Node → MethodName → Value → Bool → M Out
  exec_method_node n MethodName.number v unwrap = item_method n (number_of E.floats) v unwrap
  exec_method_node n abs v unwrap = item_method n (numeric_item E.floats int_abs float_abs) v unwrap
  exec_method_node n floor v unwrap =
      item_method n (numeric_item E.floats int_self E.floats.floor) v unwrap
  exec_method_node n ceiling v unwrap =
      item_method n (numeric_item E.floats int_self E.floats.ceil) v unwrap
  exec_method_node n type v unwrap = exec_method_type n v
  exec_method_node n size v unwrap = exec_method_size n v
  exec_method_node n double v unwrap = item_method n (double_of E.floats) v unwrap
  exec_method_node n integer v unwrap = item_method n (integer_of E.floats) v unwrap
  exec_method_node n big_int v unwrap = item_method n (big_int_of E.floats) v unwrap
  exec_method_node n MethodName.string v unwrap =
      item_method n (string_of E.floats E.times) v unwrap
  exec_method_node n boolean v unwrap = item_method n (boolean_of E.floats) v unwrap
  exec_method_node n key_value v unwrap = execute_key_value_method E run n v unwrap

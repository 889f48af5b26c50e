-- ===== src/Exec/Dispatch.antt =====
-- executeItemOptUnwrapTarget of path/exec/execution.go, with the dispatch on operators and `.**` of
-- path/exec/op.go. A call spends one unit of fuel; every nested call is on a smaller node, or on the
-- same node with the flag `unwrap` cleared.
use sqljson.Prelude.{
  ℕ, zero, suc, Bool, true, false, ◌&&◌, ◌||◌, none, some, is_some, nat_eq, if◌then◌else◌,
}
use sqljson.Golang.{float_minus}
use sqljson.Json.{Value, int, float, string, array, object}
use sqljson.Ast.{
  Ref, nil, to, Node, next_of, const_node, method_node, string_node, variable_node, key_node,
  numeric_node, integer_node, any_node, binary_node, unary_node, regex_node, array_index_node,
  BinaryOperator, UnaryOperator,
}
use sqljson.Exec.Error.{
  not_found, failed, is_ok, execution, invalid, Out, interrupted, unknown_node_type,
  subscript_outside,
}
use sqljson.Exec.Env.{Env}
use sqljson.Exec.State.{M, ◌>>=◌, pure, out_of_fuel, no_list, ignoring, poll}
use sqljson.Exec.Next.{Run, execute_next_item}
use sqljson.Exec.AnyItem.{execute_any_item, execute_item_unwrap_target_array}
use sqljson.Exec.Literal.{exec_literal, exec_variable, exec_key_node}
use sqljson.Exec.Const.{exec_const_node}
use sqljson.Exec.Array.{exec_array_index}
use sqljson.Exec.Math.{exec_unary_math_expr, exec_binary_math_expr}
use sqljson.Exec.Method.{exec_method_node, item_method}
use sqljson.Exec.Method.Number.{int_self, int_minus, float_self, decimal_of}
use sqljson.Exec.Boolean.{execute_bool_node, execute_nested_bool_item, append_bool_result, is_true}
use sqljson.Exec.Datetime.{execute_date_time_method}

module _ (E : Env) (run : Run) where
  -- The members of a container, for execAnyNode.
  unfoldable pub any_members : Ref → ℕ → ℕ → Value → M Out
  any_members next first last (object a fs) =
      execute_any_item run next first last true E.lax (object a fs) 1
  any_members next first last (array a vs) =
      execute_any_item run next first last true E.lax (array a vs) 1
  any_members next first last _ = pure (not_found, none)

  -- execAnyNode
  unfoldable pub exec_any_node : Node → ℕ → ℕ → Value → M Out
  exec_any_node n first last v =
      if nat_eq first 0
      then ignoring (do
        out ← execute_next_item E run (to n) (next_of n) v
        none_wanted ← no_list
        if is_some out.1 || (is_ok out.0 && none_wanted)
            then pure out
            else any_members (next_of n) first last v)
      else any_members (next_of n) first last v

  -- a predicate as an item of a path
  unfoldable pub bool_item : Node → Value → M Out
  bool_item n v = do out ← execute_bool_node E run n v; append_bool_result E run n out

  -- execRegexNode
  unfoldable pub exec_regex_node : Node → Value → M Out
  exec_regex_node n v = bool_item n v

  -- execBinaryNode
  unfoldable pub exec_binary_node : Node → BinaryOperator → Ref → Ref → Value → Bool → M Out
  exec_binary_node n BinaryOperator.add l r v u =
      exec_binary_math_expr E run n BinaryOperator.add l r v
  exec_binary_node n BinaryOperator.sub l r v u =
      exec_binary_math_expr E run n BinaryOperator.sub l r v
  exec_binary_node n BinaryOperator.mul l r v u =
      exec_binary_math_expr E run n BinaryOperator.mul l r v
  exec_binary_node n BinaryOperator.div l r v u =
      exec_binary_math_expr E run n BinaryOperator.div l r v
  exec_binary_node n BinaryOperator.mod_of l r v u =
      exec_binary_math_expr E run n BinaryOperator.mod_of l r v
  exec_binary_node n BinaryOperator.decimal l r v u =
      item_method E run n (decimal_of E.floats l r) v u
  exec_binary_node n BinaryOperator.subscript l r v u =
      pure (failed, some (execution subscript_outside))
  exec_binary_node n op l r v u = bool_item n v

  -- the case UnaryFilter of execUnaryNode, on an item that is not unwrapped
  unfoldable pub filter_item : Node → Ref → Value → M Out
  filter_item n operand v = do
    (st, err) ← execute_nested_bool_item E run operand v
    if is_true st then execute_next_item E run (to n) nil v else pure (not_found, err)

  unfoldable pub exec_filter : Node → Ref → Value → Bool → M Out
  exec_filter n operand (array a vs) unwrap =
      if unwrap
      then execute_item_unwrap_target_array run (to n) (array a vs)
      else filter_item n operand (array a vs)
  exec_filter n operand v unwrap = filter_item n operand v

  unfoldable pub date_time_item : Node → UnaryOperator → Ref → Value → Bool → M Out
  date_time_item n op operand (array a vs) unwrap =
      if unwrap
      then execute_any_item run (to n) 1 1 false false (array a vs) 1
      else execute_date_time_method E run n op operand (array a vs)
  date_time_item n op operand v unwrap = execute_date_time_method E run n op operand v

  -- execUnaryNode
  unfoldable pub exec_unary_node : Node → UnaryOperator → Ref → Value → Bool → M Out
  exec_unary_node n UnaryOperator.not o v u = bool_item n v
  exec_unary_node n UnaryOperator.is_unknown o v u = bool_item n v
  exec_unary_node n UnaryOperator.exists o v u = bool_item n v
  exec_unary_node n UnaryOperator.filter o v u = exec_filter n o v u
  exec_unary_node n UnaryOperator.plus o v u = exec_unary_math_expr E run n int_self float_self o v
  exec_unary_node n UnaryOperator.minus o v u =
      exec_unary_math_expr E run n int_minus float_minus o v
  exec_unary_node n op o v u = date_time_item n op o v u

  -- the switch on the type of the node
  unfoldable pub exec_node : Node → Value → Bool → M Out
  exec_node (const_node c x) v u = exec_const_node E run (const_node c x) c v u
  exec_node (string_node s x) v u = exec_literal E run (string_node s x) (string s)
  exec_node (integer_node l i x) v u = exec_literal E run (integer_node l i x) (int i)
  exec_node (numeric_node l f x) v u = exec_literal E run (numeric_node l f x) (float f)
  exec_node (variable_node s x) v u = exec_variable E run (variable_node s x) s
  exec_node (key_node s x) v u = exec_key_node E run (key_node s x) s v u
  exec_node (binary_node op l r x) v u = exec_binary_node (binary_node op l r x) op l r v u
  exec_node (unary_node op o x) v u = exec_unary_node (unary_node op o x) op o v u
  exec_node (regex_node o p f x) v u = exec_regex_node (regex_node o p f x) v
  exec_node (method_node m x) v u = exec_method_node E run (method_node m x) m v u
  exec_node (any_node first last x) v u = exec_any_node (any_node first last x) first last v
  exec_node (array_index_node subs x) v u = exec_array_index E run (array_index_node subs x) subs v

  unfoldable pub exec_ref : Ref → Value → Bool → M Out
  exec_ref nil v u = pure (failed, some (invalid unknown_node_type))
  exec_ref (to n) v u = exec_node n v u

  unfoldable pub execute_item_opt_unwrap_target : Run
  execute_item_opt_unwrap_target node v u = do
    done ← poll E
    if done then pure (failed, some (execution interrupted)) else exec_ref node v u

unfoldable pub exec : Env → ℕ → Run
exec E zero node v u = out_of_fuel
exec E (suc fuel) node v u = execute_item_opt_unwrap_target E (exec E fuel) node v u

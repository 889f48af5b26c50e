-- ===== src/Exec/Sample.antt =====
-- Inputs on which the tests and the witnesses run the executor.
mod Tests
use sqljson.Prelude.{ℕ, String, Bool, true, false, none, List, [], ◌∷◌, bytes, str_eq}
use sqljson.Prelude.Int.{pos}
use sqljson.Golang.{Floats, float_zero, float_minus}
use sqljson.Json.{Value, Items}
use sqljson.Ast.{
  Ref, nil, to, Nodes, more, const_node, key_node, integer_node, binary_node, array_index_node,
  BinaryOperator, Constant, next_of,
}
use sqljson.Exec.Env.{Env, Times}
use sqljson.Exec.Query.{Answer, query_values, exists, enough}
use sqljson.Exec.State.{
  ◌>>=◌, pure, gets, with_base, with_list, with_current, with_nil, silently, ignoring,
  with_array_size, append, no_list, poll, found_size, panic, next_object_id, out_of_fuel,
}
use sqljson.Ast.{next_of}
use sqljson.Exec.Dispatch.{
  any_members, bool_item, date_time_item, exec_any_node, exec_binary_node, exec_filter, exec_node,
  exec_ref, exec_regex_node, exec_unary_node, execute_item_opt_unwrap_target, filter_item,
}
use sqljson.Exec.Boolean.{append_bool_result, execute_bool_node, execute_nested_bool_item}
use sqljson.Exec.Method.Number.{decimal_of, float_self, int_minus, int_self}
use sqljson.Exec.Array.{exec_array_index}
use sqljson.Exec.Math.{exec_binary_math_expr, exec_unary_math_expr}
use sqljson.Exec.Const.{exec_const_node}
use sqljson.Exec.Literal.{exec_key_node, exec_literal, exec_variable}
use sqljson.Exec.Method.{exec_method_node, exec_method_size, exec_method_type, item_method}
use sqljson.Exec.AnyItem.{execute_any_item, execute_item_unwrap_target_array}
use sqljson.Exec.Datetime.{execute_date_time_method}
use sqljson.Exec.KeyValue.{execute_key_value_method}
use sqljson.Exec.Next.{execute_next_item}

-- Some functions for the parameters. The samples hold no floats and no dates.
abbrev pub floats : Floats
floats = record {
  add = λ f g. f;
  sub = λ f g. f;
  mul = λ f g. f;
  div = λ f g. f;
  mod_of = λ f g. f;
  floor = λ f. f;
  ceil = λ f. f;
  round = λ f. f;
  trunc = λ f. f;
  pow10 = λ n. float_zero;
  less = λ f g. false;
  equal = λ f g. true;
  of_int = λ n. float_zero;
  to_int = λ f. pos 0;
  parse = λ s. none;
  format = λ f. [];
}

abbrev pub times : Times
times = record {
  compare = λ t u. pos 0;
  compare_tz = λ t u. pos 0;
  utc = λ t. t;
  to_date = λ t. t;
  tz_to_date = λ t. t;
  to_time = λ t. t;
  tz_to_time = λ t. t;
  to_time_tz = λ t. t;
  date_to_timestamp = λ t. t;
  to_timestamp = λ t. t;
  date_to_timestamp_tz = λ t. t;
  to_timestamp_tz = λ t. t;
  time_to_time_tz = λ t. t;
  format = λ t. [];
  parse = λ s p. none;
}

-- An execution of a path on a document, in lax or strict mode.
abbrev pub env : Bool → Value → Env
env lax root = record {
  vars = [];
  vars_address = 1;
  root = root;
  lax = lax;
  use_tz = false;
  done = λ n. false;
  address = λ n. n;
  matches = λ p f s. false;
  floats = floats;
  times = times;
}

abbrev pub one : Ref → Ref
one next = to (integer_node (bytes "1") (pos 1) next)

abbrev pub number_node : ℕ → Ref
number_node n = to (integer_node [] (pos n) nil)

abbrev pub root_then : Ref → Ref
root_then next = to (const_node Constant.root next)

abbrev pub key : String → Ref → Ref
key k next = to (key_node (bytes k) next)

-- [from to upto]
abbrev pub index : Ref → Ref → Ref
index from next = to (
    array_index_node (more (to (binary_node BinaryOperator.subscript from nil nil)) Nodes.end) next)

abbrev pub items : List Value → Items
items [] = Items.nil
items (v ∷ vs) = Items.cons v (items vs)

-- A definition that opens all that an execution computes with, for the tests.
unfoldable pub opened : Env → Bool → Ref → Answer (List Value)
unfolding any_members append_bool_result bool_item date_time_item decimal_of exec_any_node
    exec_array_index exec_binary_math_expr exec_binary_node exec_const_node exec_filter
    exec_key_node exec_literal exec_method_node exec_method_size exec_method_type exec_node exec_ref
    exec_regex_node exec_unary_math_expr exec_unary_node exec_variable execute_any_item
    execute_bool_node execute_date_time_method execute_item_opt_unwrap_target
    execute_item_unwrap_target_array execute_key_value_method execute_nested_bool_item
    execute_next_item filter_item float_minus float_self int_minus int_self item_method out_of_fuel
    query_values exists enough ◌>>=◌ pure gets with_base with_list next_of str_eq with_current
    with_nil silently ignoring with_array_size append no_list poll found_size panic next_object_id
opened E verbose_mode path = query_values E verbose_mode path

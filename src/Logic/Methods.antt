-- ===== src/Logic/Methods.antt =====
-- Arithmetic, the item methods, and the methods on dates and times.
use sqljson.Prelude.{
  ℕ, suc, ◌+◌, ◌*◌, ◌<◌, Bool, true, false, Option, none, some, List, [], ◌∷◌, Str, arith,
}
use sqljson.Prelude.Int.{ℤ, pos, wrap64}
use sqljson.Golang.{Float64}
use sqljson.Json.{Value, array, object, string, keys, Fields, end, field}
use sqljson.Ast.{
  Ref, to, Node, next_of, BinaryOperator, UnaryOperator, MethodName, key_value, type,
  size as size_method,
}
use sqljson.Exec.Error.{ok, Out, Result, value, error}
use sqljson.Exec.State.{M}
use sqljson.Exec.AnyItem.{Round}
use sqljson.Golang.Sort.{sort_keys}
use sqljson.Exec.KeyValue.{
  offset_of, ten_ten, key_round, keys_loop, all_pairs, execute_key_value_method,
}
use sqljson.Exec.Math.{
  unary_next, unary_round, unary_loop, exec_unary_math_expr, math_result, right_operand_of,
  left_operand_of, exec_binary_math_expr,
}
use sqljson.Exec.Method.{
  method_result, item_method, type_result, exec_method_type, exec_method_size, exec_method_node,
}
use sqljson.Exec.Datetime.{date_time_result, execute_date_time_method}
use sqljson.Logic.{
  Logic, Related, Related-bind, Related-pure, Related-if, Related-gets,
  Related-return_verbose_error, Related-return_error, Related-unless_existence, Related-with_base,
  Related-with_list, Related-no_list, Related-next_object_id,
}
use sqljson.Logic.Next.{
  rank, Calls, Related-after_round, Related-execute_item_unwrap_target_array,
  Related-execute_next_item, Related-execute_next_item_nil, Related-execute_item_opt_unwrap_result,
}

module _ {L : Logic} (C : Calls L) (n : Node) (fits : rank (next_of n) true < C.bound) where
  open C use {env, left, right, bound}

  module _ (on_int : ℤ → ℤ) (on_float : Float64 → Float64) where
    Related-unary_next :
        {rest rest' : Out → M Round} (out : Out) (o : Option Value)
        → ((o' : Out) → Related L (rest o') (rest' o'))
        → Related L
            (unary_next env left n on_int on_float rest out o)
            (unary_next env right n on_int on_float rest' out o)
    unfolding unary_next
    Related-unary_next out none h =
        Related-bind (Related-return_verbose_error _) λ out'. Related-pure _
    Related-unary_next out (some v) h = Related-bind (Related-execute_next_item C n v fits) λ next.
        Related-bind Related-no_list λ wanted.
          Related-if _ (Related-pure _)
            (Related-if _ (Related-if wanted (Related-pure _) (h _)) (h out))

    Related-unary_round :
        (v : Value) {rest rest' : Out → M Round} (out : Out)
        → ((o' : Out) → Related L (rest o') (rest' o'))
        → Related L
            (unary_round env left n on_int on_float v rest out)
            (unary_round env right n on_int on_float v rest' out)
    unfolding unary_round
    Related-unary_round v out h =
        Related-bind Related-no_list
          λ wanted. Related-if _ (Related-pure _) (Related-unary_next out _ h)

    Related-unary_loop :
        (vs : List Value) (out : Out)
        → Related L
            (unary_loop env left n on_int on_float vs out)
            (unary_loop env right n on_int on_float vs out)
    unfolding unary_loop
    Related-unary_loop [] out = Related-pure _
    Related-unary_loop (v ∷ vs) out = Related-unary_round v out (Related-unary_loop vs)

    pub Related-exec_unary_math_expr :
        (operand : Ref) (v : Value)
        → rank operand true < bound
        → Related L
            (exec_unary_math_expr env left n on_int on_float operand v)
            (exec_unary_math_expr env right n on_int on_float operand v)
    unfolding exec_unary_math_expr
    Related-exec_unary_math_expr operand v h =
        Related-bind (Related-with_list (Related-execute_item_opt_unwrap_result C operand v true h))
          λ r.
            Related-if _ (Related-pure _)
              (Related-bind (Related-unary_loop _ _) λ round. Related-pure _)

  Related-math_result :
      (r : Result Value) → Related L (math_result env left n r) (math_result env right n r)
  unfolding math_result
  Related-math_result (error e) = Related-return_verbose_error e
  Related-math_result (value v) = Related-unless_existence _ (Related-execute_next_item C n v fits)

  Related-right_operand_of :
      (op : BinaryOperator) (l : Value) (out : Out) (seq : List Value)
      → Related L
          (right_operand_of env left n op l out seq)
          (right_operand_of env right n op l out seq)
  unfolding right_operand_of
  Related-right_operand_of op l out (r ∷ []) = Related-if _ (Related-pure _) (Related-math_result _)
  Related-right_operand_of op l out _ =
      Related-if _ (Related-pure _) (Related-return_verbose_error _)

  Related-left_operand_of :
      (op : BinaryOperator) (r : Ref) (v : Value) (out : Out) (seq : List Value)
      → rank r true < bound
      → Related L
          (left_operand_of env left n op r v out seq)
          (left_operand_of env right n op r v out seq)
  unfolding left_operand_of
  Related-left_operand_of op r v out (l ∷ []) h = Related-if _ (Related-pure _) (
      Related-bind (Related-with_list (Related-execute_item_opt_unwrap_result C r v true h))
        λ found. Related-right_operand_of op l found.0 found.1)
  Related-left_operand_of op r v out _ h =
      Related-if _ (Related-pure _) (Related-return_verbose_error _)

  pub Related-exec_binary_math_expr :
      (op : BinaryOperator) (l r : Ref) (v : Value)
      → rank l true < bound
      → rank r true < bound
      → Related L
          (exec_binary_math_expr env left n op l r v)
          (exec_binary_math_expr env right n op l r v)
  unfolding exec_binary_math_expr
  Related-exec_binary_math_expr op l r v hl hr =
      Related-bind (Related-with_list (Related-execute_item_opt_unwrap_result C l v true hl))
        λ found. Related-left_operand_of op r v found.0 found.1 hr

  pub Related-method_result :
      (r : Result Value) → Related L (method_result env left n r) (method_result env right n r)
  unfolding method_result
  Related-method_result (value v) = Related-execute_next_item_nil C n v fits
  Related-method_result (error e) = Related-return_error e

  Related-type_result :
      (o : Option Str) → Related L (type_result env left n o) (type_result env right n o)
  unfolding type_result
  Related-type_result none = Related-pure _
  Related-type_result (some t) = Related-execute_next_item_nil C n _ fits

  Related-exec_method_size :
      (v : Value) → Related L (exec_method_size env left n v) (exec_method_size env right n v)
  unfolding exec_method_size
  Related-exec_method_size (array a vs) = Related-execute_next_item_nil C n _ fits
  Related-exec_method_size v = Related-bind (Related-gets _) λ ignored.
      Related-if _ (Related-return_verbose_error _) (Related-execute_next_item_nil C n _ fits)

  Related-date_time_result :
      (r : Result _) → Related L (date_time_result env left n r) (date_time_result env right n r)
  unfolding date_time_result
  Related-date_time_result (error e) = Related-return_error e
  Related-date_time_result (value t) =
      Related-unless_existence _ (Related-execute_next_item C n _ fits)

  pub Related-execute_date_time_method :
      (op : UnaryOperator) (arg : Ref) (v : Value)
      → Related L
          (execute_date_time_method env left n op arg v)
          (execute_date_time_method env right n op arg v)
  unfolding execute_date_time_method
  Related-execute_date_time_method op arg (string text) = Related-date_time_result _
  Related-execute_date_time_method op arg _ = Related-return_verbose_error _

  Related-key_round :
      (fs : Fields) (id : ℤ) (k : Str)
      → Related L (key_round env left n fs id k) (key_round env right n fs id k)
  unfolding key_round
  Related-key_round fs id k = Related-bind Related-next_object_id λ number.
      Related-bind (Related-with_base _ number (Related-execute_next_item C n _ fits))
        λ out. Related-bind Related-no_list λ wanted. Related-pure _

  Related-keys_loop :
      (fs : Fields) (id : ℤ) (ks : List Str) (out : Out)
      → Related L (keys_loop env left n fs id ks out) (keys_loop env right n fs id ks out)
  unfolding keys_loop
  Related-keys_loop fs id [] out = Related-pure _
  Related-keys_loop fs id (k ∷ ks) out =
      Related-bind (Related-key_round fs id k)
        λ round. Related-after_round round (Related-keys_loop fs id ks)

  Related-all_pairs :
      (a : ℕ) (fs : Fields) → Related L (all_pairs env left n a fs) (all_pairs env right n a fs)
  unfolding all_pairs
  Related-all_pairs a end = Related-pure _
  Related-all_pairs a (field k v fs) = Related-unless_existence _ (
      Related-bind (Related-gets _) λ address. Related-bind (Related-gets _) λ id.
        Related-bind
          (Related-keys_loop (field k v fs) (wrap64 (pos (offset_of address a + id * ten_ten)))
            (sort_keys (keys (field k v fs))) (ok, none))
          λ round. Related-pure _)

  module _ (u : Bool) (room : rank (to n) u < suc bound) where
    pub Related-item_method :
        (f : Value → Result Value) (v : Value)
        → Related L (item_method env left n f v u) (item_method env right n f v u)
    unfolding item_method
    Related-item_method f (array a vs) = go u room
      where
        go :
            (b : Bool)
            → rank (to n) b < suc bound
            → Related L
                (item_method env left n f (array a vs) b)
                (item_method env right n f (array a vs) b)
        go true h = Related-execute_item_unwrap_target_array C (to n) (array a vs) (omega arith)
        go false h = Related-return_verbose_error _
    Related-item_method f _ = Related-method_result _

    Related-execute_key_value_method :
        (v : Value)
        → Related L
            (execute_key_value_method env left n v u)
            (execute_key_value_method env right n v u)
    unfolding execute_key_value_method
    Related-execute_key_value_method (array a vs) = go u room
      where
        go :
            (b : Bool)
            → rank (to n) b < suc bound
            → Related L
                (execute_key_value_method env left n (array a vs) b)
                (execute_key_value_method env right n (array a vs) b)
        go true h = Related-execute_item_unwrap_target_array C (to n) (array a vs) (omega arith)
        go false h = Related-return_verbose_error _
    Related-execute_key_value_method (object a fs) = Related-all_pairs a fs
    Related-execute_key_value_method _ = Related-return_verbose_error _

    pub Related-exec_method_node :
        (name : MethodName) (v : Value)
        → Related L (exec_method_node env left n name v u) (exec_method_node env right n name v u)
    unfolding exec_method_node exec_method_type
    Related-exec_method_node type v = Related-type_result _
    Related-exec_method_node size_method v = Related-exec_method_size v
    Related-exec_method_node key_value v = Related-execute_key_value_method v
    Related-exec_method_node _ v = Related-item_method _ v

-- ===== src/Logic/Dispatch.antt =====
-- The dispatch on nodes, and the executor itself: two executions whose nested calls are related are
-- related.
use sqljson.Prelude.{ℕ, zero, suc, ◌<◌, ◌≤◌, Bool, true, false, arith}
use sqljson.Json.{Value, array, object}
use sqljson.Ast.{
  Ref, nil, to, Node, next_of, const_node, method_node, string_node, variable_node, key_node,
  numeric_node, integer_node, any_node, binary_node, unary_node, regex_node, array_index_node,
  BinaryOperator, UnaryOperator,
}
use sqljson.Ast.Size.{size}
use sqljson.Exec.Env.{Env}
use sqljson.Exec.Dispatch.{
  any_members, exec_any_node, bool_item, exec_regex_node, exec_binary_node, filter_item,
  exec_filter, date_time_item, exec_unary_node, exec_node, exec_ref, execute_item_opt_unwrap_target,
  exec,
}
use sqljson.Logic.{
  Logic, Related, Related-bind, Related-pure, Related-if, Related-no_list, Related-ignoring,
  Related-poll,
}
use sqljson.Logic.Next.{
  rank, Calls, at_either, Related-execute_any_item, Related-execute_item_unwrap_target_array,
  Related-execute_next_item, Related-execute_next_item_nil,
}
use sqljson.Logic.Items.{
  Related-exec_literal, Related-exec_variable, Related-exec_key_node, Related-exec_const_node,
  Related-exec_array_index,
}
use sqljson.Logic.Methods.{
  Related-exec_unary_math_expr, Related-exec_binary_math_expr, Related-item_method,
  Related-exec_method_node, Related-execute_date_time_method,
}
use sqljson.Logic.Booleans.{
  Related-execute_bool_node, Related-execute_nested_bool_item, Related-append_bool_result,
}

module _ {L : Logic} (C : Calls L) where
  open C use {env, left, right, bound}

  module _ (n : Node) (fits : rank (next_of n) true < bound) where
    Related-any_members :
        (first last : ℕ) (v : Value)
        → Related L
            (any_members env left (next_of n) first last v)
            (any_members env right (next_of n) first last v)
    unfolding any_members
    Related-any_members first last (object a fs) =
        Related-execute_any_item C (next_of n) first last true env.lax
          (at_either C (next_of n) env.lax fits) (object a fs) 1
    Related-any_members first last (array a vs) =
        Related-execute_any_item C (next_of n) first last true env.lax
          (at_either C (next_of n) env.lax fits) (array a vs) 1
    Related-any_members first last _ = Related-pure _

    Related-exec_any_node :
        (first last : ℕ) (v : Value)
        → Related L (exec_any_node env left n first last v) (exec_any_node env right n first last v)
    unfolding exec_any_node
    Related-exec_any_node first last v =
        let members = Related-any_members first last v in
        Related-if _
          (Related-ignoring (
            Related-bind (Related-execute_next_item C n v fits)
              λ out. Related-bind Related-no_list λ wanted. Related-if _ (Related-pure _) members))
          members

    module _ (whole : rank (to n) false < suc bound) where
      Related-bool_item : (v : Value) → Related L (bool_item env left n v) (bool_item env right n v)
      unfolding bool_item
      Related-bool_item v =
          Related-bind (Related-execute_bool_node C n v whole)
            λ out. Related-append_bool_result C n out fits

    module _ (u : Bool) (room : rank (to n) u < suc bound) where
      Related-filter_item :
          (o : Ref) (v : Value)
          → rank o false < suc bound
          → Related L (filter_item env left n o v) (filter_item env right n o v)
      unfolding filter_item
      Related-filter_item o v h =
          Related-bind (Related-execute_nested_bool_item C o v h)
            λ out. Related-if _ (Related-execute_next_item_nil C n v fits) (Related-pure _)

      Related-exec_filter :
          (o : Ref) (v : Value)
          → rank o false < suc bound
          → Related L (exec_filter env left n o v u) (exec_filter env right n o v u)
      unfolding exec_filter
      Related-exec_filter o (array a vs) h = go u room
        where
          go :
              (b : Bool)
              → rank (to n) b < suc bound
              → Related L
                  (exec_filter env left n o (array a vs) b)
                  (exec_filter env right n o (array a vs) b)
          go true r = Related-execute_item_unwrap_target_array C (to n) (array a vs) (omega arith)
          go false r = Related-filter_item o (array a vs) h
      Related-exec_filter o v h = Related-filter_item o v h

      Related-date_time_item :
          (op : UnaryOperator) (o : Ref) (v : Value)
          → Related L (date_time_item env left n op o v u) (date_time_item env right n op o v u)
      unfolding date_time_item
      Related-date_time_item op o (array a vs) = go u room
        where
          go :
              (b : Bool)
              → rank (to n) b < suc bound
              → Related L
                  (date_time_item env left n op o (array a vs) b)
                  (date_time_item env right n op o (array a vs) b)
          go true r = Related-execute_any_item C (to n) 1 1 false false (omega arith) (array a vs) 1
          go false r = Related-execute_date_time_method C n fits op o (array a vs)
      Related-date_time_item op o v = Related-execute_date_time_method C n fits op o v

  weaker : (n : Node) (u : Bool) → rank (to n) u < suc bound → rank (to n) false < suc bound
  weaker n true h = omega arith
  weaker n false h = h

  Related-exec_regex_node :
      (n : Node) (v : Value)
      → rank (next_of n) true < bound
      → rank (to n) false < suc bound
      → Related L (exec_regex_node env left n v) (exec_regex_node env right n v)
  unfolding exec_regex_node
  Related-exec_regex_node n v f w = Related-bool_item n f w v

  module _ (n : Node) (fits : rank (next_of n) true < bound) (u : Bool)
      (room : rank (to n) u < suc bound) where
    Related-exec_binary_node :
        (op : BinaryOperator) (l r : Ref) (v : Value)
        → rank l true < bound
        → rank r true < bound
        → Related L
            (exec_binary_node env left n op l r v u)
            (exec_binary_node env right n op l r v u)
    unfolding exec_binary_node
    Related-exec_binary_node BinaryOperator.add l r v f g =
        Related-exec_binary_math_expr C n fits _ l r v f g
    Related-exec_binary_node BinaryOperator.sub l r v f g =
        Related-exec_binary_math_expr C n fits _ l r v f g
    Related-exec_binary_node BinaryOperator.mul l r v f g =
        Related-exec_binary_math_expr C n fits _ l r v f g
    Related-exec_binary_node BinaryOperator.div l r v f g =
        Related-exec_binary_math_expr C n fits _ l r v f g
    Related-exec_binary_node BinaryOperator.mod_of l r v f g =
        Related-exec_binary_math_expr C n fits _ l r v f g
    Related-exec_binary_node BinaryOperator.decimal l r v f g =
        Related-item_method C n fits u room _ v
    Related-exec_binary_node BinaryOperator.subscript l r v f g = Related-pure _
    Related-exec_binary_node _ l r v f g = Related-bool_item n fits (weaker n u room) v

    Related-exec_unary_node :
        (op : UnaryOperator) (o : Ref) (v : Value)
        → rank o true < bound
        → Related L (exec_unary_node env left n op o v u) (exec_unary_node env right n op o v u)
    unfolding exec_unary_node
    Related-exec_unary_node UnaryOperator.not o v f = Related-bool_item n fits (weaker n u room) v
    Related-exec_unary_node UnaryOperator.is_unknown o v f =
        Related-bool_item n fits (weaker n u room) v
    Related-exec_unary_node UnaryOperator.exists o v f =
        Related-bool_item n fits (weaker n u room) v
    Related-exec_unary_node UnaryOperator.filter o v f =
        Related-exec_filter n fits u room o v (omega arith)
    Related-exec_unary_node UnaryOperator.plus o v f =
        Related-exec_unary_math_expr C n fits _ _ o v f
    Related-exec_unary_node UnaryOperator.minus o v f =
        Related-exec_unary_math_expr C n fits _ _ o v f
    Related-exec_unary_node op o v f = Related-date_time_item n fits u room op o v

  Related-exec_node :
      (n : Node) (v : Value) (u : Bool)
      → rank (to n) u < suc bound
      → rank (to n) false < suc bound
      → Related L (exec_node env left n v u) (exec_node env right n v u)
  unfolding exec_node size next_of
  Related-exec_node (const_node c x) v u h w = Related-exec_const_node C _ (omega arith) u h c v
  Related-exec_node (string_node s x) v u h w = Related-exec_literal C _ (omega arith) _
  Related-exec_node (integer_node l i x) v u h w = Related-exec_literal C _ (omega arith) _
  Related-exec_node (numeric_node l f x) v u h w = Related-exec_literal C _ (omega arith) _
  Related-exec_node (variable_node s x) v u h w = Related-exec_variable C _ (omega arith) s
  Related-exec_node (key_node s x) v u h w = Related-exec_key_node C _ (omega arith) u h s v
  Related-exec_node (binary_node op l r x) v u h w =
      Related-exec_binary_node _ (omega arith) u h op l r v (omega arith) (omega arith)
  Related-exec_node (unary_node op o x) v u h w =
      Related-exec_unary_node _ (omega arith) u h op o v (omega arith)
  Related-exec_node (regex_node o p f x) v u h w = Related-exec_regex_node _ v (omega arith) w
  Related-exec_node (method_node m x) v u h w = Related-exec_method_node C _ (omega arith) u h m v
  Related-exec_node (any_node first last x) v u h w =
      Related-exec_any_node _ (omega arith) first last v
  Related-exec_node (array_index_node subs x) v u h w =
      Related-exec_array_index C _ (omega arith) subs (omega arith) v

  -- One call of executeItemOptUnwrapTarget, from its nested calls.
  pub Related-execute_item_opt_unwrap_target :
      (node : Ref) (v : Value) (u : Bool)
      → rank node u < suc bound
      → Related L
          (execute_item_opt_unwrap_target env left node v u)
          (execute_item_opt_unwrap_target env right node v u)
  unfolding execute_item_opt_unwrap_target exec_ref
  Related-execute_item_opt_unwrap_target nil v u h =
      Related-bind (Related-poll env) λ done. Related-if done (Related-pure _) (Related-pure _)
  Related-execute_item_opt_unwrap_target (to n) v u h =
      Related-bind (Related-poll env)
        λ done. Related-if done (Related-pure _) (Related-exec_node n v u h (weaker n u h))

-- With fuel above the rank of the node, two amounts of fuel make no difference to any logic.
pub Related-exec :
    {L : Logic} (E : Env) (f g : ℕ) (node : Ref) (v : Value) (u : Bool)
    → rank node u < f
    → f ≤ g
    → Related L (exec E f node v u) (exec E g node v u)
unfolding exec
Related-exec E zero g node v u h le = absurd (omega arith)
Related-exec E (suc f) zero node v u h le = absurd (omega arith)
Related-exec {L} E (suc f) (suc g) node v u h le =
    Related-execute_item_opt_unwrap_target
      (record {
        env = E;
        left = exec E f;
        right = exec E g;
        bound = f;
        related = λ m w b r. Related-exec E f g m w b r (omega arith);
      })
      node v u h

-- ===== src/Exec/Boolean.antt =====
-- path/exec/boolean.go and the callbacks of path/exec/op.go: boolean items in three-valued logic.
use sqljson.Prelude.{
  Bool, true, false, ◌||◌, not, none, some, List, Str, is_some, ℕ, if◌then◌else◌, length, nat_eq,
}
use sqljson.Golang.{has_prefix}
use sqljson.Json.{Value, null, bool, string}
use sqljson.Ast.{
  Ref, nil, to, Node, binary_node, unary_node, regex_node, next_of, is_nil, BinaryOperator, and, or,
  starts_with, equal, not_equal, less, greater, less_or_equal, greater_or_equal, UnaryOperator,
  is_unknown, exists,
}
use sqljson.Exec.Error.{
  failed, is_failed, is_ok, Pred, unknown, pred_from, invalid, Out, PredOut, boolean_has_next,
  invalid_boolean_type, invalid_boolean_operator,
}
use sqljson.Exec.Env.{Env}
use sqljson.Exec.State.{M, ◌>>=◌, pure, panic, with_list, with_nil, with_current, unless_existence}
use sqljson.Exec.Next.{Run, execute_next_item, execute_item_opt_unwrap_result_silent}
use sqljson.Exec.Predicate.{Callback, execute_predicate}
use sqljson.Exec.Compare.{compare_items}

-- executeStartsWith
unfoldable pub execute_starts_with : Callback
unfolding has_prefix
execute_starts_with (string whole) (string prefix) =
    pure (pred_from (has_prefix whole prefix), none)
execute_starts_with _ _ = pure (unknown, none)

-- executeLikeRegex
unfoldable pub execute_like_regex : Env → Str → ℕ → Callback
execute_like_regex E pattern flags (string text) _ =
    pure (pred_from (E.matches pattern flags text), none)
execute_like_regex E pattern flags _ _ = pure (unknown, none)

abbrev pub is_false : Pred → Bool
is_false Pred.false = true
is_false _ = false

abbrev pub is_true : Pred → Bool
is_true Pred.true = true
is_true _ = false

abbrev pub is_unknown_pred : Pred → Bool
is_unknown_pred unknown = true
is_unknown_pred _ = false

-- The two connectives, on the actions that evaluate the operands.
unfoldable pub both : M PredOut → M PredOut → M PredOut
both left right = do
  (res, err) ← left
  if is_false res || is_some err
      then pure (res, err)
      else do (res2, err2) ← right; pure (if is_true res2 then (res, err2) else (res2, err2))

unfoldable pub either : M PredOut → M PredOut → M PredOut
either left right = do
  (res, err) ← left
  if is_true res || is_some err
      then pure (res, err)
      else do (res2, err2) ← right; pure (if is_false res2 then (res, err) else (res2, err2))

unfoldable pub negation : PredOut → PredOut
negation (unknown, err) = (unknown, err)
negation (Pred.true, err) = (Pred.false, none)
negation (Pred.false, err) = (Pred.true, none)

unfoldable pub unknown_test : PredOut → PredOut
unknown_test out = (pred_from (is_unknown_pred out.0), none)

module _ (E : Env) (run : Run) where
  unfoldable pub strict_exists : Out × List Value → PredOut
  strict_exists (out, seq) =
      if is_failed out.0 then (unknown, out.1) else (pred_from (not (nat_eq (length seq) 0)), none)

  unfoldable pub lax_exists : Out → PredOut
  lax_exists out = if is_failed out.0 then (unknown, out.1) else (pred_from (is_ok out.0), none)

  -- the case UnaryExists of executeUnaryBoolItem
  unfoldable pub execute_exists : Ref → Value → M PredOut
  unfolding strict_exists lax_exists execute_item_opt_unwrap_result_silent
  execute_exists operand v =
      if E.lax
      then (do
        out ← with_nil (execute_item_opt_unwrap_result_silent E run operand v false)
        pure (lax_exists out))
      else (do
        found ← with_list (execute_item_opt_unwrap_result_silent E run operand v false)
        pure (strict_exists found))

  -- executeBinaryBoolItem, given executeBoolItem on the two operands
  unfoldable pub execute_binary_bool_item :
      BinaryOperator → Ref → Ref → Value → M PredOut → M PredOut → M PredOut
  unfolding both either execute_predicate compare_items execute_starts_with
  execute_binary_bool_item and l r v left right = both left right
  execute_binary_bool_item or l r v left right = either left right
  execute_binary_bool_item equal l r v left right =
      execute_predicate E run l r v true (compare_items E equal)
  execute_binary_bool_item not_equal l r v left right =
      execute_predicate E run l r v true (compare_items E not_equal)
  execute_binary_bool_item less l r v left right =
      execute_predicate E run l r v true (compare_items E less)
  execute_binary_bool_item greater l r v left right =
      execute_predicate E run l r v true (compare_items E greater)
  execute_binary_bool_item less_or_equal l r v left right =
      execute_predicate E run l r v true (compare_items E less_or_equal)
  execute_binary_bool_item greater_or_equal l r v left right =
      execute_predicate E run l r v true (compare_items E greater_or_equal)
  execute_binary_bool_item starts_with l r v left right =
      execute_predicate E run l r v false execute_starts_with
  execute_binary_bool_item _ l r v left right =
      pure (unknown, some (invalid invalid_boolean_operator))

  -- executeUnaryBoolItem, given executeBoolItem on the operand
  unfoldable pub execute_unary_bool_item : UnaryOperator → Ref → Value → M PredOut → M PredOut
  unfolding negation unknown_test execute_exists
  execute_unary_bool_item UnaryOperator.not o v operand = do out ← operand; pure (negation out)
  execute_unary_bool_item is_unknown o v operand = do out ← operand; pure (unknown_test out)
  execute_unary_bool_item exists o v operand = execute_exists o v
  execute_unary_bool_item _ o v operand = pure (unknown, some (invalid invalid_boolean_operator))

  -- executeBoolItem: on a node that may have a next item, and on a reference to one that may not
  unfoldable mutual
    unfolding execute_binary_bool_item execute_unary_bool_item execute_predicate execute_like_regex

    pub execute_bool_node : Node → Value → M PredOut
    execute_bool_node (binary_node op l r _) v =
        execute_binary_bool_item op l r v (execute_bool_item l v) (execute_bool_item r v)
    execute_bool_node (unary_node op o _) v = execute_unary_bool_item op o v (execute_bool_item o v)
    execute_bool_node (regex_node o pattern flags _) v =
        execute_predicate E run o nil v false (execute_like_regex E pattern flags)
    execute_bool_node _ v = pure (unknown, some (invalid invalid_boolean_type))

    pub execute_bool_item : Ref → Value → M PredOut
    execute_bool_item nil v = panic
    execute_bool_item (to n) v =
        if is_nil (next_of n)
        then execute_bool_node n v
        else pure (unknown, some (invalid boolean_has_next))

  -- executeNestedBoolItem
  unfoldable pub execute_nested_bool_item : Ref → Value → M PredOut
  unfolding execute_bool_item
  execute_nested_bool_item node v = with_current v (execute_bool_item node v)

  abbrev pub pred_value : Pred → Value
  pred_value unknown = null
  pred_value p = bool (is_true p)

  -- appendBoolResult
  unfoldable pub append_bool_result : Node → PredOut → M Out
  unfolding unless_existence execute_next_item
  append_bool_result n (p, some e) = pure (failed, some e)
  append_bool_result n (p, none) =
      unless_existence (is_nil (next_of n))
        (execute_next_item E run (to n) (next_of n) (pred_value p))

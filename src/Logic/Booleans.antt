-- ===== src/Logic/Booleans.antt =====
-- Predicates and boolean items.
use sqljson.Prelude.{ℕ, suc, ◌<◌, Bool, true, false, none, some, List, [], ◌∷◌, Str, arith}
use sqljson.Json.{Value}
use sqljson.Ast.{
  Ref, nil, to, Node, next_of, BinaryOperator, UnaryOperator, and, or, equal, not_equal, less,
  greater, less_or_equal, greater_or_equal, starts_with, is_unknown, exists, binary_node,
  unary_node, regex_node,
}
use sqljson.Ast.Size.{size}
use sqljson.Exec.Error.{PredOut}
use sqljson.Exec.Env.{Env}
use sqljson.Exec.State.{M}
use sqljson.Exec.Predicate.{
  Callback, Search, return, continue, after_search, right_loop, left_loop, check_pairs,
  right_sequence, execute_predicate,
}
use sqljson.Exec.Compare.{
  Numeric, order, no_order, no_number, numeric_outcome, compare_by_type, compare_items,
}
use sqljson.Exec.Boolean.{
  execute_starts_with, execute_like_regex, both, either, execute_exists, execute_binary_bool_item,
  execute_unary_bool_item, execute_bool_node, execute_bool_item, execute_nested_bool_item,
  append_bool_result,
}
use sqljson.Json.{int, float, number, string}
use sqljson.Logic.{
  Logic, Related, Related-bind, Related-pure, Related-if, Related-panic, Related-with_list,
  Related-with_nil, Related-with_current, Related-unless_existence,
}
use sqljson.Logic.Next.{
  rank, Calls, Related-execute_next_item, Related-execute_item_opt_unwrap_result_silent,
}

-- A callback is an action of its own, in every logic.
abbrev Answers : Logic → Callback → Type 0
Answers L callback = (l r : Value) → Related L (callback l r) (callback l r)

module _ {L : Logic} where
  Related-after_search :
      (search : Search) {k k' : Bool → Bool → M Search}
      → ((e f : Bool) → Related L (k e f) (k' e f))
      → Related L (after_search search k) (after_search search k')
  Related-after_search (return out) h = Related-pure _
  Related-after_search (continue e f) h = h e f

  module _ (strict : Bool) (callback : Callback) (h : Answers L callback) where
    Related-right_loop :
        (l : Value) (rs : List Value) (e f : Bool)
        → Related L (right_loop strict callback l rs e f) (right_loop strict callback l rs e f)
    unfolding right_loop
    Related-right_loop l [] e f = Related-pure _
    Related-right_loop l (r ∷ rs) e f =
        Related-bind (h l r) λ out. Related-after_search _ (Related-right_loop l rs)

    Related-left_loop :
        (ls rs : List Value) (e f : Bool)
        → Related L (left_loop strict callback ls rs e f) (left_loop strict callback ls rs e f)
    unfolding left_loop
    Related-left_loop [] rs e f = Related-pure _
    Related-left_loop (l ∷ ls) rs e f =
        Related-bind (Related-right_loop l rs e f)
          λ search. Related-after_search search (Related-left_loop ls rs)

    Related-check_pairs :
        (ls rs : List Value)
        → Related L (check_pairs strict callback ls rs) (check_pairs strict callback ls rs)
    unfolding check_pairs
    Related-check_pairs ls rs = Related-bind (Related-left_loop ls rs _ _) λ search. Related-pure _

  Related-starts_with : Answers L execute_starts_with
  unfolding execute_starts_with
  Related-starts_with (string whole) (string prefix) = Related-pure _
  Related-starts_with _ _ = Related-pure _

  Related-like_regex : (E : Env) (p : Str) (f : ℕ) → Answers L (execute_like_regex E p f)
  unfolding execute_like_regex
  Related-like_regex E p f (string text) _ = Related-pure _
  Related-like_regex E p f _ _ = Related-pure _

  Related-numeric_outcome :
      (op : BinaryOperator) (n : Numeric) → Related L (numeric_outcome op n) (numeric_outcome op n)
  unfolding numeric_outcome
  Related-numeric_outcome op (order cmp) = Related-pure _
  Related-numeric_outcome op no_order = Related-pure _
  Related-numeric_outcome op no_number = Related-panic _

  Related-compare_by_type : (E : Env) (op : BinaryOperator) → Answers L (compare_by_type E op)
  unfolding compare_by_type
  Related-compare_by_type E op (int l) r = Related-numeric_outcome op _
  Related-compare_by_type E op (float l) r = Related-numeric_outcome op _
  Related-compare_by_type E op (number l) r = Related-numeric_outcome op _
  Related-compare_by_type E op _ r = Related-pure _

  Related-compare_items : (E : Env) (op : BinaryOperator) → Answers L (compare_items E op)
  unfolding compare_items
  Related-compare_items E op l r = Related-if _ (Related-pure _) (Related-compare_by_type E op l r)

  Related-both :
      {m m' n n' : M PredOut} → Related L m m' → Related L n n' → Related L (both m n) (both m' n')
  unfolding both
  Related-both h k =
      Related-bind h λ out. Related-if _ (Related-pure _) (Related-bind k λ out2. Related-pure _)

  Related-either :
      {m m' n n' : M PredOut}
      → Related L m m'
      → Related L n n'
      → Related L (either m n) (either m' n')
  unfolding either
  Related-either h k =
      Related-bind h λ out. Related-if _ (Related-pure _) (Related-bind k λ out2. Related-pure _)

module _ {L : Logic} (C : Calls L) where
  open C use {env, left, right, bound}

  Related-right_sequence :
      (r : Ref) (v : Value) (u : Bool)
      → rank r true < bound
      → Related L (right_sequence env left r v u) (right_sequence env right r v u)
  unfolding right_sequence
  Related-right_sequence nil v u h = Related-pure _
  Related-right_sequence (to n) v u h =
      Related-with_list (Related-execute_item_opt_unwrap_result_silent C (to n) v u h)

  Related-execute_predicate :
      (l r : Ref) (v : Value) (u : Bool) (callback : Callback)
      → rank l true < bound
      → rank r true < bound
      → Answers L callback
      → Related L
          (execute_predicate env left l r v u callback)
          (execute_predicate env right l r v u callback)
  unfolding execute_predicate
  Related-execute_predicate l r v u callback hl hr h =
      Related-bind (Related-with_list (Related-execute_item_opt_unwrap_result_silent C l v true hl))
        λ ls. Related-if _ (Related-pure _) (
          Related-bind (Related-right_sequence r v u hr)
            λ rs. Related-if _ (Related-pure _) (Related-check_pairs _ callback h ls.1 rs.1))

  Related-execute_exists :
      (o : Ref) (v : Value)
      → rank o true < bound
      → Related L (execute_exists env left o v) (execute_exists env right o v)
  unfolding execute_exists
  Related-execute_exists o v h =
      Related-if _
        (Related-bind
          (Related-with_nil (Related-execute_item_opt_unwrap_result_silent C o v false h))
          λ out. Related-pure _)
        (Related-bind
          (Related-with_list (Related-execute_item_opt_unwrap_result_silent C o v false h))
          λ out. Related-pure _)

  Related-binary :
      (op : BinaryOperator) (l r : Ref) (v : Value) {m m' n n' : M PredOut}
      → rank l true < bound
      → rank r true < bound
      → Related L m m'
      → Related L n n'
      → Related L
          (execute_binary_bool_item env left op l r v m n)
          (execute_binary_bool_item env right op l r v m' n')
  unfolding execute_binary_bool_item
  Related-binary and l r v hl hr h k = Related-both h k
  Related-binary or l r v hl hr h k = Related-either h k
  Related-binary starts_with l r v hl hr h k =
      Related-execute_predicate l r v false _ hl hr Related-starts_with
  Related-binary equal l r v hl hr h k =
      Related-execute_predicate l r v true _ hl hr (Related-compare_items env equal)
  Related-binary not_equal l r v hl hr h k =
      Related-execute_predicate l r v true _ hl hr (Related-compare_items env not_equal)
  Related-binary less l r v hl hr h k =
      Related-execute_predicate l r v true _ hl hr (Related-compare_items env less)
  Related-binary greater l r v hl hr h k =
      Related-execute_predicate l r v true _ hl hr (Related-compare_items env greater)
  Related-binary less_or_equal l r v hl hr h k =
      Related-execute_predicate l r v true _ hl hr (Related-compare_items env less_or_equal)
  Related-binary greater_or_equal l r v hl hr h k =
      Related-execute_predicate l r v true _ hl hr (Related-compare_items env greater_or_equal)
  Related-binary _ l r v hl hr h k = Related-pure _

  Related-unary :
      (op : UnaryOperator) (o : Ref) (v : Value) {m m' : M PredOut}
      → rank o true < bound
      → Related L m m'
      → Related L
          (execute_unary_bool_item env left op o v m)
          (execute_unary_bool_item env right op o v m')
  unfolding execute_unary_bool_item
  Related-unary UnaryOperator.not o v ho h = Related-bind h λ out. Related-pure _
  Related-unary is_unknown o v ho h = Related-bind h λ out. Related-pure _
  Related-unary exists o v ho h = Related-execute_exists o v ho
  Related-unary _ o v ho h = Related-pure _

  mutual
    unfolding execute_bool_node size next_of

    node_Related :
        (n : Node) (v : Value)
        → rank (to n) false < suc bound
        → Related L (execute_bool_node env left n v) (execute_bool_node env right n v)
    node_Related (binary_node op l r x) v h =
        Related-binary op l r v (omega arith) (omega arith) (item_Related l v (omega arith))
          (item_Related r v (omega arith))
    node_Related (unary_node op o x) v h =
        Related-unary op o v (omega arith) (item_Related o v (omega arith))
    node_Related (regex_node o p f x) v h =
        Related-execute_predicate o nil v false _ (omega arith) (omega arith)
          (Related-like_regex env p f)
    node_Related _ v h = Related-pure _

    item_Related :
        (r : Ref) (v : Value)
        → rank r false < suc bound
        → Related L (execute_bool_item env left r v) (execute_bool_item env right r v)
    item_Related nil v h = Related-panic _
    item_Related (to n) v h = Related-if _ (node_Related n v h) (Related-pure _)

  pub Related-execute_bool_node :
      (n : Node) (v : Value)
      → rank (to n) false < suc bound
      → Related L (execute_bool_node env left n v) (execute_bool_node env right n v)
  Related-execute_bool_node n v h = node_Related n v h

  pub Related-execute_nested_bool_item :
      (r : Ref) (v : Value)
      → rank r false < suc bound
      → Related L (execute_nested_bool_item env left r v) (execute_nested_bool_item env right r v)
  unfolding execute_nested_bool_item
  Related-execute_nested_bool_item r v h = Related-with_current v (item_Related r v h)

  pub Related-append_bool_result :
      (n : Node) (out : PredOut)
      → rank (next_of n) true < bound
      → Related L (append_bool_result env left n out) (append_bool_result env right n out)
  unfolding append_bool_result
  Related-append_bool_result n (p, some e) h = Related-pure _
  Related-append_bool_result n (p, none) h =
      Related-unless_existence _ (Related-execute_next_item C n _ h)

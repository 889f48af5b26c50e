-- ===== src/Logic/Items.antt =====
-- Literals, variables, member accessors, constants and array subscripts.
use sqljson.Prelude.{
  ℕ, zero, suc, ◌+◌, ◌*◌, ◌<◌, Bool, true, false, Option, none, some, List, [], ◌∷◌, Str, get_elem?,
  arith,
}
use sqljson.Prelude.Int.{ℤ}
use sqljson.Json.{Value, array, object}
use sqljson.Ast.{Ref, nil, to, Node, Nodes, end, more, next_of, binary_node, subscript, Constant}
use sqljson.Ast.Size.{size, size_nodes}
use sqljson.Exec.Error.{Err, verbose, not_an_array, Out, Result, value, error}
use sqljson.Exec.State.{M}
use sqljson.Exec.AnyItem.{Round}
use sqljson.Exec.Literal.{
  structural_error, exec_literal, variable_value, exec_variable, key_value, exec_key_node,
}
use sqljson.Exec.Const.{
  exec_literal_const, exec_any_key, exec_any_array, exec_last_const, exec_const_node,
}
use sqljson.Exec.Array.{
  on_value, get_array_index, upper_index, exec_subscript, index_member, at_index, index_loop,
  subscript_round, subscripts_loop, index_items, exec_array_index,
}
use sqljson.Logic.{
  Logic, Related, Related-bind, Related-pure, Related-if, Related-gets, Related-panic,
  Related-return_verbose_error, Related-return_error, Related-unless_existence, Related-with_base,
  Related-with_list, Related-with_array_size, Related-no_list,
}
use sqljson.Logic.Next.{
  rank, Calls, at_either, Related-after_round, Related-execute_any_item,
  Related-execute_item_unwrap_target_array, Related-execute_item, Related-execute_next_item,
  Related-execute_next_item_nil,
}

module _ {L : Logic} where
  pub Related-structural_error : (e : Err) → Related L (structural_error e) (structural_error e)
  unfolding structural_error
  Related-structural_error e =
      Related-bind (Related-gets _)
        λ b. Related-if b (Related-pure _) (Related-return_verbose_error e)

module _ {L : Logic} (C : Calls L) (n : Node) where
  open C use {env, left, right, bound}

  module _ (fits : rank (next_of n) true < bound) where
    pub Related-exec_literal :
        (v : Value) → Related L (exec_literal env left n v) (exec_literal env right n v)
    unfolding exec_literal
    Related-exec_literal v = Related-unless_existence _ (Related-execute_next_item C n v fits)

    Related-variable_value :
        (o : Option Value) → Related L (variable_value env left n o) (variable_value env right n o)
    unfolding variable_value
    Related-variable_value none = Related-pure _
    Related-variable_value (some v) = Related-with_base _ _ (Related-execute_next_item C n v fits)

    pub Related-exec_variable :
        (name : Str) → Related L (exec_variable env left n name) (exec_variable env right n name)
    unfolding exec_variable
    Related-exec_variable name = Related-variable_value _

    Related-key_value :
        (o : Option Value) → Related L (key_value env left n o) (key_value env right n o)
    unfolding key_value
    Related-key_value none = Related-structural_error _
    Related-key_value (some v) = Related-execute_next_item_nil C n v fits

    Related-exec_literal_const :
        (v : Value) → Related L (exec_literal_const env left n v) (exec_literal_const env right n v)
    unfolding exec_literal_const
    Related-exec_literal_const v = Related-unless_existence _ (Related-execute_next_item C n v fits)

    Related-exec_any_array :
        (v : Value) → Related L (exec_any_array env left n v) (exec_any_array env right n v)
    unfolding exec_any_array
    Related-exec_any_array (array a vs) =
        Related-execute_any_item C (next_of n) 1 1 false env.lax
          (at_either C (next_of n) env.lax fits) (array a vs) 1
    Related-exec_any_array v =
        Related-if _ (Related-execute_next_item_nil C n _ fits) (Related-structural_error _)

    Related-exec_last_const : Related L (exec_last_const env left n) (exec_last_const env right n)
    unfolding exec_last_const
    Related-exec_last_const = Related-bind (Related-gets _) λ size.
        Related-if _ (Related-pure _)
          (Related-unless_existence _ (Related-execute_next_item C n _ fits))

    -- `room`: the node itself, when its flag says to unwrap an array.
    module _ (u : Bool) (room : rank (to n) u < suc bound) where
      pub Related-exec_key_node :
          (key : Str) (v : Value)
          → Related L (exec_key_node env left n key v u) (exec_key_node env right n key v u)
      unfolding exec_key_node
      Related-exec_key_node key (object a fs) = Related-key_value _
      Related-exec_key_node key (array a vs) = go u room
        where
          go :
              (b : Bool)
              → rank (to n) b < suc bound
              → Related L
                  (exec_key_node env left n key (array a vs) b)
                  (exec_key_node env right n key (array a vs) b)
          go true h = Related-execute_any_item C (to n) 1 1 false false (omega arith) (array a vs) 1
          go false h = Related-structural_error _
      Related-exec_key_node key _ = Related-structural_error _

      Related-exec_any_key :
          (v : Value) → Related L (exec_any_key env left n v u) (exec_any_key env right n v u)
      unfolding exec_any_key
      Related-exec_any_key (object a fs) =
          Related-execute_any_item C (next_of n) 1 1 false env.lax
            (at_either C (next_of n) env.lax fits) (object a fs) 1
      Related-exec_any_key (array a vs) = go u room
        where
          go :
              (b : Bool)
              → rank (to n) b < suc bound
              → Related L
                  (exec_any_key env left n (array a vs) b)
                  (exec_any_key env right n (array a vs) b)
          go true h = Related-execute_item_unwrap_target_array C (to n) (array a vs) (omega arith)
          go false h = Related-structural_error _
      Related-exec_any_key _ = Related-structural_error _

      pub Related-exec_const_node :
          (c : Constant) (v : Value)
          → Related L (exec_const_node env left n c v u) (exec_const_node env right n c v u)
      unfolding exec_const_node
      Related-exec_const_node Constant.null v = Related-exec_literal_const _
      Related-exec_const_node Constant.true v = Related-exec_literal_const _
      Related-exec_const_node Constant.false v = Related-exec_literal_const _
      Related-exec_const_node Constant.root v =
          Related-with_base _ _ (Related-execute_next_item_nil C n _ fits)
      Related-exec_const_node Constant.current v =
          Related-bind (Related-gets _) λ current. Related-execute_next_item_nil C n current fits
      Related-exec_const_node Constant.any_key v = Related-exec_any_key v
      Related-exec_const_node Constant.any_array v = Related-exec_any_array v
      Related-exec_const_node Constant.last v = Related-exec_last_const

module _ {L : Logic} (C : Calls L) where
  open C use {env, left, right, bound}

  Related-get_array_index :
      (node : Ref) (v : Value)
      → rank node true < bound
      → Related L (get_array_index env left node v) (get_array_index env right node v)
  unfolding get_array_index
  Related-get_array_index node v h =
      Related-bind (Related-with_list (Related-execute_item C node v h)) λ r. Related-pure _

  Related-upper_index :
      (node : Ref) (v : Value) (from : ℤ)
      → rank node true < bound
      → Related L (upper_index env left node v from) (upper_index env right node v from)
  unfolding upper_index
  Related-upper_index nil v from h = Related-pure _
  Related-upper_index (to n) v from h = Related-get_array_index (to n) v h

  Related-on_value :
      {A B : Type 0} (r : Result A) {k k' : A → M (Result B)}
      → ((a : A) → Related L (k a) (k' a))
      → Related L (on_value r k) (on_value r k')
  Related-on_value (value a) h = h a
  Related-on_value (error e) h = Related-pure _

  pub Related-exec_subscript :
      (sub : Ref) (v : Value) (n : ℤ)
      → rank sub true < suc (suc bound)
      → Related L (exec_subscript env left sub v n) (exec_subscript env right sub v n)
  unfolding exec_subscript size
  Related-exec_subscript (to (binary_node subscript l r x)) v n h =
      Related-bind (Related-get_array_index l v (omega arith)) λ lower.
        Related-on_value lower λ from.
          Related-bind (Related-upper_index r v from (omega arith)) λ upper.
            Related-on_value upper λ upto. Related-bind (Related-gets _) λ ignored. Related-pure _
  Related-exec_subscript _ v n h = Related-pure _

  module _ (n : Node) (fits : rank (next_of n) true < bound) where
    Related-index_member :
        (v : Value) {rest rest' : Out → M Round} (out : Out)
        → ((o : Out) → Related L (rest o) (rest' o))
        → Related L (index_member env left n v rest out) (index_member env right n v rest' out)
    unfolding index_member
    Related-index_member v out h = Related-if _ (h out) (
        Related-bind Related-no_list λ wanted. Related-if _ (Related-pure _) (
          Related-bind (Related-execute_next_item C n v fits)
            λ out'. Related-if _ (Related-pure _) (h out')))

    Related-at_index :
        (o : Option Value) {rest rest' : Out → M Round} (out : Out)
        → ((o' : Out) → Related L (rest o') (rest' o'))
        → Related L (at_index env left n o rest out) (at_index env right n o rest' out)
    unfolding at_index
    Related-at_index none out h = Related-panic _
    Related-at_index (some v) out h = Related-index_member v out h

    Related-index_loop :
        (items : List Value) (k i : ℕ) (out : Out)
        → Related L (index_loop env left n items k i out) (index_loop env right n items k i out)
    unfolding index_loop
    Related-index_loop items zero i out = Related-pure _
    Related-index_loop items (suc k) i out =
        Related-at_index (get_elem? items i) out (Related-index_loop items k (i + 1))

    Related-subscript_round :
        (items : List Value) (r : Result (ℤ × ℤ)) {rest rest' : Out → M Round} (out : Out)
        → ((o : Out) → Related L (rest o) (rest' o))
        → Related L
            (subscript_round env left n items r rest out)
            (subscript_round env right n items r rest' out)
    unfolding subscript_round
    Related-subscript_round items (error e) out h =
        Related-bind (Related-return_error e) λ out'. Related-pure _
    Related-subscript_round items (value (from, upto)) out h =
        Related-bind (Related-index_loop items _ _ out) λ round. Related-after_round round h

    Related-subscripts_loop :
        (items : List Value) (v : Value) (subs : Nodes) (out : Out)
        → 2 * size_nodes subs < suc bound
        → Related L
            (subscripts_loop env left n items v subs out)
            (subscripts_loop env right n items v subs out)
    unfolding subscripts_loop size
    Related-subscripts_loop items v end out h = Related-pure _
    Related-subscripts_loop items v (more sub subs) out h =
        Related-bind (Related-exec_subscript sub v _ (omega arith)) λ found.
          Related-subscript_round items found out
            λ o. Related-subscripts_loop items v subs o (omega arith)

    module _ (subs : Nodes) (below : 2 * size_nodes subs < suc bound) where
      Related-index_items :
          (items : List Value) (v : Value)
          → Related L (index_items env left n items v subs) (index_items env right n items v subs)
      unfolding index_items
      Related-index_items items v =
          Related-bind (Related-with_array_size _ (Related-subscripts_loop items v subs _ below))
            λ round. Related-pure _

      pub Related-exec_array_index :
          (v : Value)
          → Related L (exec_array_index env left n subs v) (exec_array_index env right n subs v)
      unfolding exec_array_index
      Related-exec_array_index (array a vs) = Related-index_items _ _
      Related-exec_array_index v =
          Related-if env.lax (Related-index_items (v ∷ []) v)
            (Related-return_verbose_error (verbose not_an_array))

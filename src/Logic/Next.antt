-- ===== src/Logic/Next.antt =====
-- The calls of execution.go that go on with a node, and the walk over the members of a container.
use sqljson.Prelude.{ℕ, ◌+◌, ◌*◌, ◌<◌, Bool, true, false, List, [], ◌∷◌, arith}
use sqljson.Json.{Value, array, object, Items, nil as no_items, cons, Fields, end, field}
use sqljson.Ast.{Ref, nil, to, Node, next_of}
use sqljson.Ast.Size.{size_ref}
use sqljson.Exec.Error.{Out}
use sqljson.Exec.Env.{Env}
use sqljson.Exec.State.{M}
use sqljson.Exec.Next.{
  Run, finish, append_all, unwrap_all, execute_item, execute_next_item,
  execute_item_opt_unwrap_result, execute_item_opt_unwrap_result_silent,
}
use sqljson.Exec.AnyItem.{
  Round, return, continue, after_round, stop_or_go, settle, keep, check_member, visit, enter,
  execute_any_item, items_loop, fields_loop, execute_item_unwrap_target_array,
}
use sqljson.Logic.{
  Logic, Related, relations, Related-bind, Related-append, Related-pure, Related-if,
  Related-found_size, Related-with_list, Related-silently, Related-no_list, Related-ignoring,
}

-- The fuel that a call needs: two units for each node below, and one for an array to unwrap.
abbrev pub rank : Ref → Bool → ℕ
rank node true = 2 * size_ref node + 1
rank node false = 2 * size_ref node

-- Two ways to make the nested calls of a handler, related wherever the fuel is below a bound.
pub record Calls (L : Logic) : Type 0 where
  pub env : Env
  pub left : Run
  pub right : Run
  pub bound : ℕ
  pub related :
      (node : Ref) (v : Value) (u : Bool)
      → rank node u < bound
      → Related L (left node v u) (right node v u)

module _ {L : Logic} where
  pub Related-finish : (v : Value) → Related L (finish v) (finish v)
  unfolding finish
  Related-finish v = search relations

  Related-append_all : (vs : List Value) → Related L (append_all vs) (append_all vs)
  unfolding append_all
  Related-append_all [] = search relations
  Related-append_all (v ∷ vs) = Related-bind (Related-append v) (λ _. Related-append_all vs)

  pub Related-unwrap_all : (vs : List Value) → Related L (unwrap_all vs) (unwrap_all vs)
  unfolding unwrap_all
  Related-unwrap_all [] = Related-pure tt
  Related-unwrap_all (array a vs ∷ rest) =
      Related-bind (Related-append_all _) (λ _. Related-unwrap_all rest)
  Related-unwrap_all (v ∷ rest) = Related-bind (Related-append v) (λ _. Related-unwrap_all rest)

  pub Related-after_round :
      (round : Round) {k k' : Out → M Round}
      → ((out : Out) → Related L (k out) (k' out))
      → Related L (after_round round k) (after_round round k')
  Related-after_round (return out) h = Related-pure _
  Related-after_round (continue out) h = h out

  Related-stop_or_go : (out : Out) → Related L (stop_or_go out) (stop_or_go out)
  unfolding stop_or_go
  Related-stop_or_go out = search relations

  Related-settle : (n : ℕ) (round : Round) → Related L (settle n round) (settle n round)
  unfolding settle
  Related-settle n (return out) = search relations
  Related-settle n (continue out) = search relations

  Related-keep : (v : Value) → Related L (keep v) (keep v)
  unfolding keep
  Related-keep v = search relations

module _ {L : Logic} (C : Calls L) where
  open C use {env, left, right, bound, related}

  module _ (node : Ref) (first last : ℕ) (ignore w : Bool) (fits : rank node w < bound) where
    Related-check_member :
        (v : Value)
        → Related L
            (check_member left node first last ignore w v)
            (check_member right node first last ignore w v)
    unfolding check_member
    Related-check_member v =
        let call = related node v w fits in
        Related-if _
          (Related-bind Related-no_list
            λ wanted. Related-if wanted (Related-pure _) (Related-keep v))
          (Related-bind (Related-if ignore (Related-ignoring call) call)
            λ out. Related-stop_or_go out)

    Related-visit :
        (v : Value) (level : ℕ) {deeper deeper' : M Out} {rest rest' : Out → M Round} (out : Out)
        → Related L deeper deeper'
        → ((o : Out) → Related L (rest o) (rest' o))
        → Related L
            (visit left node first last ignore w v level deeper rest out)
            (visit right node first last ignore w v level deeper' rest' out)
    unfolding visit
    Related-visit v level out below behind =
        Related-bind (Related-if _ (Related-check_member v) (Related-pure _)) λ round.
          Related-bind
            (Related-after_round round
              λ out'. Related-if _ (Related-bind below λ o. Related-stop_or_go o) (Related-pure _))
            λ round'. Related-after_round round' behind

    Related-enter :
        (level : ℕ) {loop loop' : Out → M Round}
        → ((o : Out) → Related L (loop o) (loop' o))
        → Related L
            (enter left node first last ignore w level loop)
            (enter right node first last ignore w level loop')
    unfolding enter
    Related-enter level h =
        Related-if _ (Related-pure _)
          (Related-bind Related-found_size λ n. Related-bind (h _) λ round. Related-settle n round)

    mutual
      unfolding execute_any_item

      Related-any :
          (v : Value) (level : ℕ)
          → Related L
              (execute_any_item left node first last ignore w v level)
              (execute_any_item right node first last ignore w v level)
      Related-any (array a vs) level = Related-enter level (Related-items vs level)
      Related-any (object a fs) level = Related-enter level (Related-fields fs level)
      Related-any _ level = Related-pure _

      Related-items :
          (vs : Items) (level : ℕ) (out : Out)
          → Related L
              (items_loop left node first last ignore w vs level out)
              (items_loop right node first last ignore w vs level out)
      Related-items no_items level out = Related-pure _
      Related-items (cons v vs) level out =
          Related-visit v level out (Related-any v (level + 1)) (Related-items vs level)

      Related-fields :
          (fs : Fields) (level : ℕ) (out : Out)
          → Related L
              (fields_loop left node first last ignore w fs level out)
              (fields_loop right node first last ignore w fs level out)
      Related-fields end level out = Related-pure _
      Related-fields (field key v fs) level out =
          Related-visit v level out (Related-any v (level + 1)) (Related-fields fs level)

    pub Related-execute_any_item :
        (v : Value) (level : ℕ)
        → Related L
            (execute_any_item left node first last ignore w v level)
            (execute_any_item right node first last ignore w v level)
    Related-execute_any_item v level = Related-any v level

  pub Related-execute_item_unwrap_target_array :
      (node : Ref) (v : Value)
      → rank node false < bound
      → Related L
          (execute_item_unwrap_target_array left node v)
          (execute_item_unwrap_target_array right node v)
  unfolding execute_item_unwrap_target_array
  Related-execute_item_unwrap_target_array node (array a vs) fits =
      Related-execute_any_item node 1 1 false false fits (array a vs) 1
  Related-execute_item_unwrap_target_array node _ fits = Related-pure _

  pub at_either : (node : Ref) (u : Bool) → rank node true < bound → rank node u < bound
  at_either node true h = h
  at_either node false h = omega arith

  pub Related-execute_item :
      (node : Ref) (v : Value)
      → rank node true < bound
      → Related L (execute_item env left node v) (execute_item env right node v)
  unfolding execute_item
  Related-execute_item node v h = related node v env.lax (at_either node env.lax h)

  -- on the next node, which is named or not
  pub Related-execute_next_item :
      (n : Node) (v : Value)
      → rank (next_of n) true < bound
      → Related L
          (execute_next_item env left (to n) (next_of n) v)
          (execute_next_item env right (to n) (next_of n) v)
  unfolding execute_next_item
  Related-execute_next_item n v h = go (next_of n) h
    where
      go :
          (next : Ref)
          → rank next true < bound
          → Related L
              (execute_next_item env left (to n) next v)
              (execute_next_item env right (to n) next v)
      go nil f = Related-if _ (Related-finish v) (Related-execute_item _ v h)
      go (to m) f = Related-if _ (Related-finish v) (Related-execute_item _ v f)

  pub Related-execute_next_item_nil :
      (n : Node) (v : Value)
      → rank (next_of n) true < bound
      → Related L
          (execute_next_item env left (to n) nil v)
          (execute_next_item env right (to n) nil v)
  unfolding execute_next_item
  Related-execute_next_item_nil n v h = Related-if _ (Related-finish v) (Related-execute_item _ v h)

  pub Related-execute_item_opt_unwrap_result :
      (node : Ref) (v : Value) (unwrap : Bool)
      → rank node true < bound
      → Related L
          (execute_item_opt_unwrap_result env left node v unwrap)
          (execute_item_opt_unwrap_result env right node v unwrap)
  unfolding execute_item_opt_unwrap_result
  Related-execute_item_opt_unwrap_result node v unwrap h =
      Related-if _
        (Related-bind (Related-with_list (Related-execute_item node v h)) λ r.
          Related-if _ (Related-pure _) (Related-bind (Related-unwrap_all r.1) λ _. Related-pure _))
        (Related-execute_item node v h)

  pub Related-execute_item_opt_unwrap_result_silent :
      (node : Ref) (v : Value) (unwrap : Bool)
      → rank node true < bound
      → Related L
          (execute_item_opt_unwrap_result_silent env left node v unwrap)
          (execute_item_opt_unwrap_result_silent env right node v unwrap)
  unfolding execute_item_opt_unwrap_result_silent
  Related-execute_item_opt_unwrap_result_silent node v unwrap h =
      Related-silently (Related-execute_item_opt_unwrap_result node v unwrap h)

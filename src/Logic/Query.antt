-- ===== src/Logic/Query.antt =====
-- Query of path/exec/exec.go in a logic: it calls the root with enough fuel.
use sqljson.Prelude.{◌<◌, Bool, true, false, arith}
use native.Mathlib.Nat.{le_refl}
use sqljson.Json.{Value}
use sqljson.Ast.{Ref}
use sqljson.Exec.Env.{Env}
use sqljson.Exec.Next.{execute_item}
use sqljson.Exec.Dispatch.{exec}
use sqljson.Exec.Query.{query, query_all, enough}
use sqljson.Logic.{Logic, Related, Related-bind, Related-with_list, Related-pure, Related-if}
use sqljson.Logic.Next.{rank}
use sqljson.Logic.Dispatch.{Related-exec}

pub rank-enough : (node : Ref) (u : Bool) → rank node u < enough node
unfolding enough
rank-enough node true = omega arith
rank-enough node false = omega arith

module _ {L : Logic} (E : Env) where
  Related-root :
      (node : Ref) (v : Value)
      → Related L
          (execute_item E (exec E (enough node)) node v)
          (execute_item E (exec E (enough node)) node v)
  unfolding execute_item
  Related-root node v =
      Related-exec E (enough node) (enough node) node v E.lax (rank-enough node E.lax) (le_refl _)

  pub Related-query :
      (no_vals : Bool) (node : Ref) (v : Value)
      → Related L (query E no_vals node v) (query E no_vals node v)
  unfolding query query_all
  Related-query no_vals node v =
      Related-if _ (Related-bind (Related-with_list (Related-root node v)) λ found. Related-pure _)
        (Related-root node v)

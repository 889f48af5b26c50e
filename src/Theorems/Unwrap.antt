-- ===== src/Theorems/Unwrap.antt =====
-- The unwrapping of arrays in lax mode (path/exec/execution.go).
use sqljson.Prelude.{true, false, ◌≡◌, none, List, [], ◌∷◌, ◌++◌}
use mathlib.Core.List.{append-nil, append_assoc}
use sqljson.Json.{Value, array, items_list}
use sqljson.Ast.{Ref}
use sqljson.Exec.Error.{Out, ok, is_failed}
use sqljson.Exec.Env.{Env}
use sqljson.Exec.State.{State, ran, ◌>>=◌, pure, append, with_list}
use sqljson.Exec.Next.{Run, append_all, unwrap_all, execute_item, execute_item_opt_unwrap_result}
use sqljson.Theorems.Subscripts.{with_found}

-- every array replaced by its items, one level deep
abbrev pub flatten : List Value → List Value
flatten [] = []
flatten (array a vs ∷ rest) = items_list vs ++ flatten rest
flatten (v ∷ rest) = v ∷ flatten rest

append_all_lem :
    (vs : List Value) (s : State) (l : List Value)
    → append_all vs (with_found s l) ≡ ran tt (with_found s (l ++ vs))
unfolding append_all ◌>>=◌ pure append
append_all_lem [] s l = rw append-nil
append_all_lem (v ∷ vs) s l = rw (append_all_lem vs s (l ++ v ∷ []), append_assoc)

unwrap_all_lem :
    (vs : List Value) (s : State) (l : List Value)
    → unwrap_all vs (with_found s l) ≡ ran tt (with_found s (l ++ flatten vs))
unfolding unwrap_all ◌>>=◌ pure append
unwrap_all_lem [] s l = rw append-nil
unwrap_all_lem (array a vs ∷ rest) s l =
    rw
      (append_all_lem (items_list vs) s l, unwrap_all_lem rest s (l ++ items_list vs), append_assoc)
unwrap_all_lem (v ∷ rest) s l = rw (unwrap_all_lem rest s (l ++ v ∷ []), append_assoc)

-- In lax mode, where the call on a node finds the values `seq` without failing, asking for its result
-- unwrapped appends to the list each value of `seq`, an array replaced by its items, and returns OK.
pub execute_item_opt_unwrap_result_lem :
    (E : Env) (run : Run) (node : Ref) (v : Value) (s t : State) (l seq : List Value) (out : Out)
    → E.lax ≡ true
    → is_failed out.0 ≡ false
    → run node v true (with_found s []) ≡ ran out (with_found t seq)
    → execute_item_opt_unwrap_result E run node v true (with_found s l)
      ≡ ran (ok, none) (with_found t (l ++ flatten seq))
unfolding execute_item_opt_unwrap_result execute_item with_list ◌>>=◌ pure
execute_item_opt_unwrap_result_lem E run node v s t l seq out lax fine h =
    rw (lax, h, fine, unwrap_all_lem seq t l)

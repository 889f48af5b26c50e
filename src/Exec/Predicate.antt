-- ===== src/Exec/Predicate.antt =====
-- path/exec/predicate.go: predicates on the pairs of two sequences.
use sqljson.Prelude.{Bool, true, false, not, none, some, List, [], ◌∷◌, if◌then◌else◌}
use sqljson.Json.{Value, null}
use sqljson.Ast.{Ref, nil, to}
use sqljson.Exec.Error.{Status, is_failed, Pred, unknown, PredOut, Out}
use sqljson.Exec.Env.{Env}
use sqljson.Exec.State.{M, ◌>>=◌, pure, with_list}
use sqljson.Exec.Next.{Run, execute_item_opt_unwrap_result_silent}

-- predicateCallback, for the node at hand
abbrev pub Callback : Type 0
Callback = Value → Value → M PredOut

-- The loop over pairs returns, or goes on with the values of `hasErr` and `found`.
pub data Search : Type 0 where
  return : PredOut → Search
  continue : Bool → Bool → Search

abbrev pub after_search : Search → (Bool → Bool → M Search) → M Search
after_search (return out) k = pure (return out)
after_search (continue has_err found) k = k has_err found

-- What the outcome of one pair does.
unfoldable pub judge : Bool → PredOut → Bool → Bool → Search
judge strict (p, some e) has_err found = return (unknown, some e)
judge strict (unknown, none) has_err found =
    if strict then return (unknown, none) else continue true found
judge strict (Pred.true, none) has_err found =
    if strict then continue has_err true else return (Pred.true, none)
judge strict (Pred.false, none) has_err found = continue has_err found

-- The lines behind the loop.
unfoldable pub verdict : Search → PredOut
verdict (return out) = out
verdict (continue has_err found) =
    if found then (Pred.true, none) else if has_err then (unknown, none) else (Pred.false, none)

module _ (strict : Bool) (callback : Callback) where
  unfoldable pub right_loop : Value → List Value → Bool → Bool → M Search
  unfolding judge
  right_loop l [] has_err found = pure (continue has_err found)
  right_loop l (r ∷ rs) has_err found = do
    out ← callback l r
    after_search (judge strict out has_err found) (right_loop l rs)

  unfoldable pub left_loop : List Value → List Value → Bool → Bool → M Search
  unfolding right_loop
  left_loop [] rs has_err found = pure (continue has_err found)
  left_loop (l ∷ ls) rs has_err found = do
    search ← right_loop l rs has_err found
    after_search search (left_loop ls rs)

  unfoldable pub check_pairs : List Value → List Value → M PredOut
  unfolding left_loop verdict
  check_pairs ls rs = do search ← left_loop ls rs false false; pure (verdict search)

module _ (E : Env) (run : Run) where
  unfoldable pub right_sequence : Ref → Value → Bool → M (Out × List Value)
  unfolding execute_item_opt_unwrap_result_silent
  right_sequence nil v unwrap = pure ((Status.ok, none), null ∷ [])
  right_sequence (to n) v unwrap =
      with_list (execute_item_opt_unwrap_result_silent E run (to n) v unwrap)

  unfoldable pub execute_predicate : Ref → Ref → Value → Bool → Callback → M PredOut
  unfolding right_sequence check_pairs
  execute_predicate left right v unwrap_right callback = do
    (out, ls) ← with_list (execute_item_opt_unwrap_result_silent E run left v true)
    if is_failed out.0 then pure (unknown, out.1) else do
      (out', rs) ← right_sequence right v unwrap_right
      if is_failed out'.0 then pure (unknown, out'.1) else check_pairs (not E.lax) callback ls rs

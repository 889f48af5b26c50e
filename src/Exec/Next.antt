-- ===== src/Exec/Next.antt =====
-- path/exec/execution.go, less the dispatch: the calls that go on with a node. `run` stands for
-- executeItemOptUnwrapTarget, which calls the handlers that are given it.
use sqljson.Prelude.{Bool, ◌&&◌, none, List, [], ◌∷◌, if◌then◌else◌}
use sqljson.Json.{Value, array, items_list}
use sqljson.Ast.{Ref, nil, to, next_of, is_nil}
use sqljson.Exec.Error.{ok, is_failed, Out}
use sqljson.Exec.Env.{Env}
use sqljson.Exec.State.{M, ◌>>=◌, ◌>>◌, pure, silently, with_list, append}

abbrev pub Run : Type 0
Run = Ref → Value → Bool → M Out

-- The end of executeNextItem: the value is a result.
unfoldable pub finish : Value → M Out
finish v = do append v; pure (ok, none)

-- The items of an array that executeItemUnwrapTargetArray appends when it is given no node.
unfoldable pub append_all : List Value → M (Unit {0})
append_all [] = pure tt
append_all (v ∷ vs) = do append v; append_all vs

-- The loop of executeItemOptUnwrapResult over the resulting sequence.
unfoldable pub unwrap_all : List Value → M (Unit {0})
unfolding append_all
unwrap_all [] = pure tt
unwrap_all (array a vs ∷ rest) = do append_all (items_list vs); unwrap_all rest
unwrap_all (v ∷ rest) = do append v; unwrap_all rest

module _ (E : Env) (run : Run) where
  unfoldable pub execute_item : Ref → Value → M Out
  execute_item node v = run node v E.lax

  unfoldable pub execute_next_item : Ref → Ref → Value → M Out
  unfolding execute_item finish
  execute_next_item nil nil v = finish v
  execute_next_item nil (to n) v = execute_item (to n) v
  execute_next_item (to c) (to n) v = if is_nil (next_of c) then finish v else execute_item (to n) v
  execute_next_item (to c) nil v =
      if is_nil (next_of c) then finish v else execute_item (next_of c) v

  unfoldable pub execute_item_opt_unwrap_result : Ref → Value → Bool → M Out
  unfolding execute_item unwrap_all
  execute_item_opt_unwrap_result node v unwrap =
      if unwrap && E.lax
      then (do
        (out, seq) ← with_list (execute_item node v)
        if is_failed out.0 then pure out else do unwrap_all seq; pure (ok, none))
      else execute_item node v

  unfoldable pub execute_item_opt_unwrap_result_silent : Ref → Value → Bool → M Out
  unfolding execute_item_opt_unwrap_result
  execute_item_opt_unwrap_result_silent node v unwrap =
      silently (execute_item_opt_unwrap_result node v unwrap)

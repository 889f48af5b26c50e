-- ===== src/Theorems/Tests/Runs.antt =====
-- The theorems on the executor, at concrete inputs.
use sqljson.Prelude.{true, false, ◌≡◌, refl, none, List, [], ◌∷◌, ◌++◌, arith}
use sqljson.Prelude.Int.{pos, negsuc, ◌-ℤ◌}
use sqljson.Json.{Value, null, int}
use sqljson.Ast.{nil, to, const_node, Constant, next_of}
use sqljson.Ast.Size.{size_ref}
use sqljson.Exec.Error.{value, Pred, unknown, ok, not_found}
use sqljson.Exec.State.{ran, pure}
use sqljson.Exec.Next.{execute_item_opt_unwrap_result}
use sqljson.Exec.AnyItem.{execute_any_item, continue}
use sqljson.Exec.Array.{clip, subscript_round}
use sqljson.Exec.Boolean.{is_true, is_unknown_pred}
use sqljson.Exec.Predicate.{check_pairs}
use sqljson.Exec.Dispatch.{exec}
use sqljson.Exec.Query.{query_values, exists}
use sqljson.Exec.Sample.{env, opened}
use sqljson.Theorems.Fuel.{exec_agree, HasEnded}
use sqljson.Theorems.Frame.{exec-Frame, Frame, Ends}
use sqljson.Theorems.Answers.{query_values-IsSettled, exists-IsSettled, IsSettled}
use sqljson.Theorems.Pairs.{check_pairs_lem, decide, any_pair}
use sqljson.Theorems.Subscripts.{
  clip-IsClipped, subscript_round-within, IsValueIn, IsClipped, with_found, found_out, non_null,
}
use sqljson.Theorems.Slices.{within}
use sqljson.Theorems.Unwrap.{execute_item_opt_unwrap_result_lem, flatten}
use sqljson.Theorems.Walk.{execute_any_item_lem, descendants}
use sqljson.Exec.Env.{Env}
use sqljson.Theorems.Context.{done_context}
use sqljson.Exec.Error.{execution, interrupted}
use sqljson.Exec.Query.{first, match, fails}
use sqljson.Theorems.Tests.{numbers, doc, path, lax_env, start}

exec_agree_example :
    (exec lax_env 20 path doc true start ≡ exec lax_env 40 path doc true start)
    × HasEnded (exec lax_env 20 path doc true start)
unfolding size_ref
exec_agree_example = exec_agree lax_env 20 40 path doc true start (omega arith) (omega arith)

exec-Frame_example : Ends (Frame start) (exec lax_env 20 path doc true start)
unfolding size_ref
exec-Frame_example = exec-Frame lax_env 20 path doc true start (omega arith)

query_values-IsSettled_example : IsSettled (query_values lax_env true path)
query_values-IsSettled_example = query_values-IsSettled lax_env true path

exists-IsSettled_example : IsSettled (exists lax_env true path)
exists-IsSettled_example = exists-IsSettled lax_env true path

execute_any_item_lem_example :
    execute_any_item (exec lax_env 9) nil 1 2 false false doc 1 (with_found start [])
    ≡ ran
        (found_out (descendants 1 2 doc 1) (not_found, none))
        (with_found start ([] ++ descendants 1 2 doc 1))
execute_any_item_lem_example = execute_any_item_lem (exec lax_env 9) 1 2 false false doc 1 start []

abbrev sample_outcome : Value → Value → Pred
sample_outcome (int l) (int r) = Pred.true
sample_outcome l r = unknown

check_pairs_lem_example :
    check_pairs true
      (λ l r s. ran (sample_outcome l r, none) s)
      (int (pos 1) ∷ null ∷ [])
      (int (pos 2) ∷ [])
      start
    ≡ ran
        (
          decide true
              (any_pair
                (λ l r. is_true (sample_outcome l r))
                (int (pos 1) ∷ null ∷ [])
                (int (pos 2) ∷ []))
              (any_pair
                (λ l r. is_unknown_pred (sample_outcome l r))
                (int (pos 1) ∷ null ∷ [])
                (int (pos 2) ∷ [])),
          none,
        )
        start
check_pairs_lem_example =
    check_pairs_lem true (λ l r s. ran (sample_outcome l r, none) s) sample_outcome (λ l r s. refl)
      (int (pos 1) ∷ null ∷ []) (int (pos 2) ∷ []) start

clip-IsClipped_example : IsValueIn (IsClipped true 3) (clip true (pos 3) (negsuc 0) (pos 7))
clip-IsClipped_example = clip-IsClipped true 3 (negsuc 0) (pos 7)

abbrev three : List Value
three = int (pos 5) ∷ null ∷ int (pos 7) ∷ []

subscript_round-within_example :
    subscript_round lax_env
      (exec lax_env 9)
      (const_node Constant.null nil)
      three
      (value (pos 1, pos 2))
      (λ out. pure (continue out))
      (not_found, none)
      (with_found start [])
    ≡ pure
        (continue (found_out (non_null (within (pos 1) (pos 9) 0 three)) (not_found, none)))
        (with_found start ([] ++ non_null (within (pos 1) (pos 9) 0 three)))
unfolding next_of clip ◌-ℤ◌
subscript_round-within_example =
    subscript_round-within lax_env (exec lax_env 9) (const_node Constant.null nil) refl three true
      (pos 1) (pos 9) (pos 1, pos 2) refl (λ out. pure (continue out)) (not_found, none) start []

execute_item_opt_unwrap_result_lem_example :
    execute_item_opt_unwrap_result
      (env true numbers)
      (exec (env true numbers) 9)
      (to (const_node Constant.root nil))
      numbers
      true
      (with_found start [])
    ≡ ran (ok, none) (with_found (record start { polls = 1 }) ([] ++ flatten (numbers ∷ [])))
unfolding opened
execute_item_opt_unwrap_result_lem_example =
    execute_item_opt_unwrap_result_lem (env true numbers) (exec (env true numbers) 9)
      (to (const_node Constant.root nil)) numbers start (record start { polls = 1 }) []
      (numbers ∷ []) (ok, none) refl refl refl

-- an execution in a context that is done
abbrev done_env : Env
done_env = record (env true doc) { done = λ n. true }

done_context_example :
    (query_values done_env false path ≡ fails (execution interrupted))
    × (first done_env false path ≡ fails (execution interrupted))
    × (exists done_env false path ≡ fails (execution interrupted))
    × (match done_env false path ≡ fails (execution interrupted))
done_context_example = done_context done_env false path refl

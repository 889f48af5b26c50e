-- ===== src/Exec/Literal.antt =====
-- path/exec/literal.go: literals, variables and member accessors.
use sqljson.Prelude.{Bool, false, Option, none, some, List, [], ◌∷◌, Str, str_eq, if◌then◌else◌}
use sqljson.Json.{Value, array, object, get_field}
use sqljson.Ast.{nil, to, Node, next_of, is_nil}
use sqljson.Exec.Error.{
  not_found, failed, Err, verbose, execution, Out, no_variable, no_key, not_an_object,
}
use sqljson.Exec.Env.{Env}
use sqljson.Exec.State.{M, ◌>>=◌, pure, gets, with_base, unless_existence, return_verbose_error}
use sqljson.Exec.Next.{Run, execute_next_item}
use sqljson.Exec.AnyItem.{execute_any_item}

-- exec.vars[name]
unfoldable pub find_var : Str → List (Str × Value) → Option Value
find_var name [] = none
find_var name ((k, v) ∷ vars) = if str_eq k name then some v else find_var name vars

-- the two tests of execKeyNode on ignoreStructuralErrors
unfoldable pub structural_error : Err → M Out
unfolding return_verbose_error
structural_error e = do
  ignored ← gets (λ s. s.ignore_structural_errors)
  if ignored then pure (not_found, none) else return_verbose_error e

module _ (E : Env) (run : Run) where
  unfoldable pub exec_literal : Node → Value → M Out
  unfolding execute_next_item unless_existence
  exec_literal n v =
      unless_existence (is_nil (next_of n)) (execute_next_item E run (to n) (next_of n) v)

  unfoldable pub variable_value : Node → Option Value → M Out
  variable_value n none = pure (failed, some (execution no_variable))
  variable_value n (some v) =
      with_base E.vars_address 1 (execute_next_item E run (to n) (next_of n) v)

  unfoldable pub exec_variable : Node → Str → M Out
  unfolding variable_value find_var
  exec_variable n name = variable_value n (find_var name E.vars)

  unfoldable pub key_value : Node → Option Value → M Out
  key_value n none = structural_error (verbose no_key)
  key_value n (some v) = execute_next_item E run (to n) nil v

  unfoldable pub exec_key_node : Node → Str → Value → Bool → M Out
  unfolding key_value structural_error execute_any_item get_field
  exec_key_node n key (object a fs) unwrap = key_value n (get_field key fs)
  exec_key_node n key (array a vs) unwrap =
      if unwrap
      then execute_any_item run (to n) 1 1 false false (array a vs) 1
      else structural_error (verbose not_an_object)
  exec_key_node n key _ unwrap = structural_error (verbose not_an_object)

-- ===== src/Exec/Query.antt =====
-- The entry points of path/exec/exec.go: Query, First, Exists and Match.
use sqljson.Prelude.{
  ℕ, suc, ◌*◌, Bool, true, false, ◌&&◌, not, Option, none, some, List, [], ◌∷◌, length, nat_eq,
  if◌then◌else◌,
}
use sqljson.Prelude.Int.{negsuc}
use sqljson.Json.{Value, null, bool}
use sqljson.Ast.{Ref}
use sqljson.Ast.Size.{size_ref}
use sqljson.Exec.Error.{ok, not_found, failed, is_failed, is_ok, Err, verbose, Out, single_boolean}
use sqljson.Exec.Env.{Env}
use sqljson.Exec.State.{State, M, Ran, ran, panicked, exhausted, ◌>>=◌, pure, with_list, list_of}
use sqljson.Exec.Next.{execute_item}
use sqljson.Exec.Dispatch.{exec}

-- newExec, and the fields that execute and exists set; `found` is the list of the caller, or nil
unfoldable pub new_exec : Env → Bool → Option (List Value) → State
new_exec E verbose_mode found = record {
  current = E.root;
  base_address = 0;
  base_id = 0;
  last_generated_object_id = 1;
  innermost_array_size = negsuc 0;
  ignore_structural_errors = E.lax;
  verbose = verbose_mode;
  polls = 0;
  found = found;
}

-- The fuel that is enough for a path: two units for each node, and one to report the end.
unfoldable pub enough : Ref → ℕ
unfolding size_ref
enough node = suc (suc (2 * size_ref node))

-- What an entry point returns: a value or an error (NULL is an error of its own), or it panics. The
-- fuel of the model may run out too.
pub data Answer (A : Type 0) : Type 0 where
  answer : A → Answer A
  null_error : Answer A
  fails : Err → Answer A
  crash no_fuel : Answer A

-- the values that were found, unless there is an error
abbrev pub list_answer : Ran Out → Answer (List Value)
list_answer (ran (st, none) s) = answer (list_of s.found)
list_answer (ran (st, some e) s) = fails e
list_answer panicked = crash
list_answer exhausted = no_fuel

abbrev pub status_answer : Ran Out → Answer Bool
status_answer (ran (st, some e) s) = fails e
status_answer (ran (failed, none) s) = null_error
status_answer (ran (st, none) s) = answer (is_ok st)
status_answer panicked = crash
status_answer exhausted = no_fuel

abbrev first_value : List Value → Value
first_value [] = null
first_value (v ∷ vs) = v

abbrev first_answer : Answer (List Value) → Answer Value
first_answer (answer l) = answer (first_value l)
first_answer null_error = null_error
first_answer (fails e) = fails e
first_answer crash = crash
first_answer no_fuel = no_fuel

-- the switch of Match on the values
abbrev match_values : Bool → List Value → Answer Bool
match_values verbose_mode (null ∷ []) = null_error
match_values verbose_mode (bool b ∷ []) = answer b
match_values verbose_mode _ = if verbose_mode then fails (verbose single_boolean) else null_error

abbrev match_answer : Bool → Answer (List Value) → Answer Bool
match_answer verbose_mode (answer l) = match_values verbose_mode l
match_answer verbose_mode null_error = null_error
match_answer verbose_mode (fails e) = fails e
match_answer verbose_mode crash = crash
match_answer verbose_mode no_fuel = no_fuel

module _ (E : Env) where
  -- the part of query that is for strict mode with no list
  unfoldable pub query_all : Ref → Value → M Out
  unfolding execute_item exec
  query_all node v = do
    (out, vals) ← with_list (execute_item E (exec E (enough node)) node v)
    pure (
        if is_failed out.0
        then out
        else if nat_eq (length vals) 0
        then (not_found, none)
        else (ok, none))

  -- (exec *Executor) query, with the list of the state
  unfoldable pub query : Bool → Ref → Value → M Out
  unfolding query_all
  query no_vals node v =
      if not E.lax && no_vals
      then query_all node v
      else execute_item E (exec E (enough node)) node v

  -- Query, by execute
  unfoldable pub query_values : Bool → Ref → Answer (List Value)
  unfolding query new_exec
  query_values verbose_mode path =
      list_answer (query false path E.root (new_exec E verbose_mode (some [])))

  -- First
  unfoldable pub first : Bool → Ref → Answer Value
  unfolding query_values
  first verbose_mode path = first_answer (query_values verbose_mode path)

  -- Exists, by exists
  unfoldable pub exists : Bool → Ref → Answer Bool
  unfolding query new_exec
  exists verbose_mode path = status_answer (query true path E.root (new_exec E verbose_mode none))

  -- Match
  unfoldable pub match : Bool → Ref → Answer Bool
  unfolding query_values
  match verbose_mode path = match_answer verbose_mode (query_values verbose_mode path)

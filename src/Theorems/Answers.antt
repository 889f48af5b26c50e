-- ===== src/Theorems/Answers.antt =====
-- The entry points of path/exec/exec.go as a whole.
use sqljson.Prelude.{Bool, true, false, ◌≡◌, not, nat_eq, length, ◌⊎◌, List, Option, none, some}
use sqljson.Json.{Value}
use sqljson.Ast.{Ref}
use sqljson.Exec.Error.{Out, ok, not_found, failed}
use sqljson.Exec.Env.{Env}
use sqljson.Exec.State.{State, Ran, ran, panicked, exhausted, list_of}
use sqljson.Exec.Query.{
  query, query_values, exists, new_exec, Answer, answer, null_error, fails, crash, no_fuel,
  list_answer, status_answer,
}
use sqljson.Logic.Query.{Related-query}
use sqljson.Theorems.Fuel.{HasEnded, Agree-Related}
use sqljson.Theorems.Frame.{Frame, Ends, Kept-Related}

-- An answer that the program gives, or a panic of it: not the end of the model's fuel.
abbrev pub IsSettled : {A : Type 0} → Answer A → Type 0
IsSettled no_fuel = ⊥
IsSettled _ = Unit

query-HasEnded :
    (E : Env) (no_vals : Bool) (path : Ref) (v : Value) (s : State)
    → HasEnded (query E no_vals path v s)
query-HasEnded E no_vals path v s = (Agree-Related (Related-query E no_vals path v) s).1

list_answer-IsSettled : (r : Ran Out) → HasEnded r → IsSettled (list_answer r)
list_answer-IsSettled (ran (st, none) s) h = tt
list_answer-IsSettled (ran (st, some e) s) h = tt
list_answer-IsSettled panicked h = tt
list_answer-IsSettled exhausted h = h

status_answer-IsSettled : (r : Ran Out) → HasEnded r → IsSettled (status_answer r)
status_answer-IsSettled (ran (ok, none) s) h = tt
status_answer-IsSettled (ran (not_found, none) s) h = tt
status_answer-IsSettled (ran (failed, none) s) h = tt
status_answer-IsSettled (ran (st, some e) s) h = tt
status_answer-IsSettled panicked h = tt
status_answer-IsSettled exhausted h = h

module _ (E : Env) (verbose_mode : Bool) (path : Ref) where
  -- Every run of Query ends: with values, with an error, or with a panic.
  pub query_values-IsSettled : IsSettled (query_values E verbose_mode path)
  unfolding query_values
  query_values-IsSettled = list_answer-IsSettled _ (query-HasEnded E false path E.root _)

  -- Every run of Exists ends: with a Boolean, with an error, or with a panic.
  pub exists-IsSettled : IsSettled (exists E verbose_mode path)
  unfolding exists
  exists-IsSettled = status_answer-IsSettled _ (query-HasEnded E true path E.root _)

  -- Query leaves the executor's own fields as newExec and execute set them: the mode, the base
  -- object, the current item, the size of the innermost array.
  pub query-Frame :
      (no_vals : Bool) (found : Option (List Value))
      → Ends
          (Frame (new_exec E verbose_mode found))
          (query E no_vals path E.root (new_exec E verbose_mode found))
  query-Frame no_vals found = Kept-Related (Related-query E no_vals path E.root) _

-- what the strict branch of query makes of the run for Exists
abbrev existence : Ran Out → Answer Bool
existence (ran (failed, none) s) = null_error
existence (ran (failed, some e) s) = fails e
existence (ran (ok, err) s) = answer (not (nat_eq (length (list_of s.found)) 0))
existence (ran (not_found, err) s) = answer (not (nat_eq (length (list_of s.found)) 0))
existence panicked = crash
existence exhausted = no_fuel

-- What Exists may return where Query returns an answer.
abbrev pub Follows : Answer (List Value) → Answer Bool → Type 0
Follows (answer vs) a = (a ≡ answer (not (nat_eq (length vs) 0))) ⊎ (a ≡ null_error)
Follows null_error a = ⊥
Follows (fails e) a = (a ≡ fails e) ⊎ (b : Bool) × (a ≡ answer b)
Follows crash a = a ≡ crash
Follows no_fuel a = a ≡ no_fuel

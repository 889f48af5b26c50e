-- ===== src/Theorems/Context.antt =====
-- A context that is done before a run begins (path/exec/execution.go, path/exec/exec.go).
use sqljson.Prelude.{suc, Bool, true, false, ◌≡◌, if◌then◌else◌, none, some, ◌&&◌, not, []}
use sqljson.Json.{Value}
use sqljson.Ast.{Ref}
use sqljson.Exec.Error.{execution, interrupted, failed, Out}
use sqljson.Exec.Env.{Env}
use sqljson.Exec.State.{State, M, Ran, ran, ◌>>=◌, pure, poll, with_list}
use sqljson.Exec.Next.{execute_item}
use sqljson.Exec.Dispatch.{exec, execute_item_opt_unwrap_target}
use sqljson.Exec.Query.{
  query, query_all, query_values, first, exists, match, new_exec, enough, fails,
}

exec_done :
    (E : Env) (path : Ref) (v : Value) (u : Bool) (s : State)
    → E.done s.polls ≡ true
    → exec E (enough path) path v u s
      ≡ ran (failed, some (execution interrupted)) (record s { polls = suc s.polls })
unfolding exec enough execute_item_opt_unwrap_target poll ◌>>=◌ pure
exec_done E path v u s h = rw h

all_done :
    (E : Env) (path : Ref) (v : Value) (s : State)
    → E.done s.polls ≡ true
    → query_all E path v s
      ≡ ran (failed, some (execution interrupted)) (record s { polls = suc s.polls })
unfolding query_all execute_item with_list ◌>>=◌ pure
all_done E path v s h = rw (exec_done E path v E.lax (record s { found = some [] }) h)

either_way :
    (c : Bool) (m n : M Out) (s : State) (r : Ran Out)
    → m s ≡ r
    → n s ≡ r
    → (if c then m else n) s ≡ r
either_way true m n s r h k = h
either_way false m n s r h k = k

query_done :
    (E : Env) (no_vals : Bool) (path : Ref) (v : Value) (s : State)
    → E.done s.polls ≡ true
    → query E no_vals path v s
      ≡ ran (failed, some (execution interrupted)) (record s { polls = suc s.polls })
unfolding query execute_item
query_done E no_vals path v s h =
    either_way (not E.lax && no_vals) (query_all E path v)
      (execute_item E (exec E (enough path)) path v) s _ (all_done E path v s h)
      (exec_done E path v E.lax s h)

-- If the context is done at the first question, Query, First, Exists and Match return the error that
-- says so, in verbose and in silent mode, whatever the path and the document.
pub done_context :
    (E : Env) (verbose_mode : Bool) (path : Ref)
    → E.done 0 ≡ true
    → (query_values E verbose_mode path ≡ fails (execution interrupted))
      × (first E verbose_mode path ≡ fails (execution interrupted))
      × (exists E verbose_mode path ≡ fails (execution interrupted))
      × (match E verbose_mode path ≡ fails (execution interrupted))
unfolding query_values first exists match
done_context E verbose_mode path h =
    let found = new_exec E verbose_mode (some []) in
    let run = query_done E false path E.root found h in
    let run' = query_done E true path E.root (new_exec E verbose_mode none) h in
    (rw run, rw run, rw run', rw run)

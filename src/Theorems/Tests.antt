-- ===== src/Theorems/Tests.antt =====
-- The theorems at concrete inputs: what the tests share.
mod Runs
mod Items
mod Syntax
mod Parsing
mod Clocks
use sqljson.Prelude.{true, some, [], ◌∷◌, bytes}
use sqljson.Prelude.Int.{pos}
use sqljson.Json.{Value, null, int, array, object, field, Fields}
use sqljson.Ast.{Ref, nil}
use sqljson.Exec.Env.{Env}
use sqljson.Exec.State.{State}
use sqljson.Exec.Query.{new_exec}
use sqljson.Exec.Sample.{env, root_then, key, index, number_node, items}

abbrev numbers : Value
numbers = array 200 (items (int (pos 5) ∷ null ∷ int (pos 7) ∷ []))

abbrev doc : Value
doc = object 100 (field (bytes "a") numbers Fields.end)

-- $.a[1]
abbrev path : Ref
path = root_then (key "a" (index (number_node 1) nil))

abbrev lax_env : Env
lax_env = env true doc

abbrev start : State
start = new_exec lax_env true (some [])

-- ===== src/Exec/AnyItem.antt =====
-- executeAnyItem of path/exec/op.go: the walk over the members of a container, level by level, and
-- executeItemUnwrapTargetArray of path/exec/array.go, which is one level of it.
use sqljson.Prelude.{
  ℕ, ◌+◌, Bool, false, ◌&&◌, ◌||◌, not, none, some, ltb, leb, nat_eq, is_none, if◌then◌else◌,
}
use sqljson.Json.{Value, array, object, Items, nil, cons, Fields, end, field}
use sqljson.Ast.{Ref, is_nil}
use sqljson.Exec.Error.{ok, not_found, failed, is_failed, is_ok, Out, invalid, invalid_array}
use sqljson.Exec.State.{M, ◌>>=◌, ◌>>◌, pure, append, no_list, found_size, ignoring}
use sqljson.Exec.Next.{Run}

abbrev pub max_uint32 : ℕ
max_uint32 = 4294967295

-- One round of the loop: it returns, or goes on with the values of `res` and `err`.
pub data Round : Type 0 where
  return continue : Out → Round

abbrev pub after_round : Round → (Out → M Round) → M Round
after_round (return out) k = pure (return out)
after_round (continue out) k = k out

-- what a loop returns in the end
abbrev pub round_out : Round → Out
round_out (return out) = out
round_out (continue out) = out

-- collection(v) == nil
abbrev pub is_leaf : Value → Bool
is_leaf (array _ _) = Bool.false
is_leaf (object _ _) = Bool.false
is_leaf _ = Bool.true

-- if res.failed() || (res == statusOK && found == nil) { return res, err }
unfoldable pub stop_or_go : Out → M Round
stop_or_go out = do
  none_wanted ← no_list
  pure (if is_failed out.0 || (is_ok out.0 && none_wanted) then return out else continue out)

-- The last lines: the result is OK if items were found.
unfoldable pub settle : ℕ → Round → M Out
settle size (return out) = pure out
settle size (continue out) = do
  none_wanted ← no_list
  size' ← found_size
  pure (
      if not none_wanted && not (is_failed out.0) && is_none out.1 && ltb size size'
      then (ok, out.1)
      else out)

-- found.append(v); res = statusOK
unfoldable pub keep : Value → M Round
keep v = do append v; pure (continue (ok, none))

module _ (run : Run) (node : Ref) (first last : ℕ) (ignore unwrap_next : Bool) where
  -- Go leaves ignoreStructuralErrors set until the walk returns; only `run` reads it.
  unfoldable pub call_node : Value → M Out
  call_node v = if ignore then ignoring (run node v unwrap_next) else run node v unwrap_next

  -- "check expression", for a member at a level that is wanted
  unfoldable pub check_member : Value → M Round
  unfolding call_node stop_or_go keep
  check_member v =
      if is_nil node
      then (do none_wanted ← no_list; if none_wanted then pure (return (ok, none)) else (keep v))
      else do out ← call_node v; stop_or_go out

  -- One member: `deeper` is the call on its own members, `rest` the loop over those behind it.
  unfoldable pub visit : Value → ℕ → M Out → (Out → M Round) → Out → M Round
  unfolding check_member stop_or_go
  visit v level deeper rest out = do
    round ←
        if leb first level || (nat_eq first max_uint32 && nat_eq last max_uint32 && is_leaf v)
        then check_member v
        else pure (continue out)
    round' ← after_round round λ out'.
        if ltb level last then (do below ← deeper; stop_or_go below) else pure (continue out')
    after_round round' rest

  -- executeAnyItem around its loop
  unfoldable pub enter : ℕ → (Out → M Round) → M Out
  unfolding settle
  enter level loop =
      if ltb last level
      then pure (not_found, none)
      else do size ← found_size; round ← loop (not_found, none); settle size round

  -- executeAnyItem on collection(v)
  unfoldable mutual
    unfolding visit enter

    pub execute_any_item : Value → ℕ → M Out
    execute_any_item (array a vs) level = enter level (items_loop vs level)
    execute_any_item (object a fs) level = enter level (fields_loop fs level)
    execute_any_item _ level = pure (not_found, none)

    pub items_loop : Items → ℕ → Out → M Round
    items_loop nil level out = pure (continue out)
    items_loop (cons v vs) level out =
        visit v level (execute_any_item v (level + 1)) (items_loop vs level) out

    pub fields_loop : Fields → ℕ → Out → M Round
    fields_loop end level out = pure (continue out)
    fields_loop (field k v fs) level out =
        visit v level (execute_any_item v (level + 1)) (fields_loop fs level) out

-- executeItemUnwrapTargetArray
unfoldable pub execute_item_unwrap_target_array : Run → Ref → Value → M Out
unfolding execute_any_item
execute_item_unwrap_target_array run node (array a vs) =
    execute_any_item run node 1 1 false false (array a vs) 1
execute_item_unwrap_target_array run node _ = pure (failed, some (invalid invalid_array))

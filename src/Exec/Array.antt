-- ===== src/Exec/Array.antt =====
-- path/exec/array.go: array subscripts.
use sqljson.Prelude.{
  ℕ, zero, suc, ◌+◌, Bool, true, false, ◌&&◌, ◌||◌, not, Option, none, some, List, [], ◌∷◌, length,
  get_elem?, if◌then◌else◌,
}
use sqljson.Prelude.Int.{ℤ, pos, ◌-ℤ◌, ltb_ℤ, leb_ℤ, pos_part}
use sqljson.Json.{Value, null, array, items_list}
use sqljson.Ast.{Ref, nil, to, Node, Nodes, end, more, next_of, is_nil, binary_node, subscript}
use sqljson.Exec.Error.{
  ok, not_found, is_failed, is_ok, Err, verbose, execution, Out, Result, value, error,
  subscript_not_numeric, subscript_out_of_bounds, not_an_array,
}
use sqljson.Exec.Env.{Env}
use sqljson.Exec.State.{
  M, ◌>>=◌, pure, panic, gets, with_list, with_array_size, no_list, return_error,
  return_verbose_error,
}
use sqljson.Exec.Next.{Run, execute_item, execute_next_item}
use sqljson.Exec.AnyItem.{Round, return, continue, after_round, round_out}
use sqljson.Exec.Util.{get_json_int32}

-- An error is passed on; a value goes on.
abbrev pub on_value : {A B : Type 0} → Result A → (A → M (Result B)) → M (Result B)
on_value (value a) k = k a
on_value (error e) k = pure (error e)

abbrev pub is_null : Value → Bool
is_null null = true
is_null _ = false

-- The end of execSubscript: the check of strict mode, and the clipping to the array.
unfoldable pub clip : Bool → ℤ → ℤ → ℤ → Result (ℤ × ℤ)
clip ignored size from upto =
    if not ignored && (ltb_ℤ from (pos 0) || ltb_ℤ upto from || leb_ℤ size upto)
    then error (verbose subscript_out_of_bounds)
    else value (
      (if ltb_ℤ from (pos 0) then pos 0 else from),
      (if leb_ℤ size upto then size -ℤ pos 1 else upto),
    )

-- for index := from; index <= to: the number of rounds
abbrev pub rounds : ℤ → ℤ → ℕ
rounds from upto = if ltb_ℤ upto from then 0 else suc (pos_part (upto -ℤ from))

unfoldable pub failed_index : Option Err → Result ℤ
failed_index none = value (pos 0)
failed_index (some e) = error e

module _ (E : Env) where
  unfoldable pub single_index : List Value → Result ℤ
  single_index (v ∷ []) = get_json_int32 E.floats v
  single_index _ = error (verbose subscript_not_numeric)

  -- The end of getArrayIndex. A failure that comes without an error gives the index 0.
  unfoldable pub index_of : Out → List Value → Result ℤ
  unfolding failed_index single_index get_json_int32
  index_of out seq = if is_failed out.0 then failed_index out.1 else single_index seq

  module _ (run : Run) where
    unfoldable pub get_array_index : Ref → Value → M (Result ℤ)
    unfolding execute_item index_of
    get_array_index node v = do
      (out, seq) ← with_list (execute_item E run node v)
      pure (index_of out seq)

    unfoldable pub upper_index : Ref → Value → ℤ → M (Result ℤ)
    unfolding get_array_index
    upper_index nil v from = pure (value from)
    upper_index (to n) v from = get_array_index (to n) v

    unfoldable pub exec_subscript : Ref → Value → ℤ → M (Result (ℤ × ℤ))
    unfolding upper_index clip
    exec_subscript (to (binary_node subscript left right _)) v size = do
      lower ← get_array_index left v
      on_value lower λ from. do
        upper ← upper_index right v from
        on_value upper λ upto. do
          ignored ← gets (λ s. s.ignore_structural_errors)
          pure (clip ignored size from upto)
    exec_subscript _ v size = pure (error (execution subscript_not_numeric))

    -- One round of the loop over the indexes; `rest` are the rounds behind it. A `break` leaves this
    -- loop alone, so it goes on with the next subscript.
    unfoldable pub index_member : Node → Value → (Out → M Round) → Out → M Round
    unfolding execute_next_item
    index_member n v rest out = if is_null v then rest out else do
      none_wanted ← no_list
      if is_nil (next_of n) && none_wanted then pure (return (ok, none)) else do
        out' ← execute_next_item E run (to n) (next_of n) v
        if is_failed out'.0 || (is_ok out'.0 && none_wanted)
            then pure (continue out')
            else rest out'

    -- array[index], which panics out of range
    unfoldable pub at_index : Node → Option Value → (Out → M Round) → Out → M Round
    unfolding index_member
    at_index n none rest out = panic
    at_index n (some v) rest out = index_member n v rest out

    unfoldable pub index_loop : Node → List Value → ℕ → ℕ → Out → M Round
    unfolding at_index
    index_loop n items zero i out = pure (continue out)
    index_loop n items (suc k) i out =
        at_index n (get_elem? items i) (index_loop n items k (i + 1)) out

    -- One round of the loop over the subscripts.
    unfoldable pub subscript_round :
        Node → List Value → Result (ℤ × ℤ) → (Out → M Round) → Out → M Round
    unfolding index_loop return_error
    subscript_round n items (error e) rest out = do out' ← return_error e; pure (return out')
    subscript_round n items (value (from, upto)) rest out = do
      round ← index_loop n items (rounds from upto) (pos_part from) out
      after_round round rest

    unfoldable pub subscripts_loop : Node → List Value → Value → Nodes → Out → M Round
    unfolding exec_subscript subscript_round
    subscripts_loop n items v end out = pure (continue out)
    subscripts_loop n items v (more sub subs) out = do
      found ← exec_subscript sub v (pos (length items))
      subscript_round n items found (subscripts_loop n items v subs) out

    -- execArrayIndex on the items of an array, or on a value that is wrapped
    unfoldable pub index_items : Node → List Value → Value → Nodes → M Out
    unfolding subscripts_loop
    index_items n items v subs = do
      round ←
          with_array_size (pos (length items)) (subscripts_loop n items v subs (not_found, none))
      pure (round_out round)

    unfoldable pub exec_array_index : Node → Nodes → Value → M Out
    unfolding index_items return_verbose_error items_list
    exec_array_index n subs (array a vs) = index_items n (items_list vs) (array a vs) subs
    exec_array_index n subs v =
        if E.lax then index_items n (v ∷ []) v subs else return_verbose_error (verbose not_an_array)

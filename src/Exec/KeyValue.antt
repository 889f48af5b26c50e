-- ===== src/Exec/KeyValue.antt =====
-- path/exec/keyvalue.go: the method .keyvalue() and the identifiers of its objects.
use sqljson.Prelude.{
  ℕ, ◌+◌, ◌-◌, ◌*◌, Bool, ◌&&◌, Option, none, some, List, [], ◌∷◌, Str, bytes, ltb, if◌then◌else◌,
}
use sqljson.Prelude.Int.{ℤ, pos, wrap64}
use sqljson.Json.{Value, null, int, string, array, object, Fields, end, field, get_field, keys}
use sqljson.Ast.{to, Node, next_of, is_nil}
use sqljson.Golang.Sort.{sort_keys}
use sqljson.Exec.Error.{ok, not_found, is_failed, is_ok, verbose, Out, not_an_object}
use sqljson.Exec.Env.{Env}
use sqljson.Exec.State.{
  M, ◌>>=◌, pure, gets, with_base, no_list, next_object_id, return_verbose_error, unless_existence,
}
use sqljson.Exec.Next.{Run, execute_next_item}
use sqljson.Exec.AnyItem.{
  Round, return, continue, after_round, round_out, execute_item_unwrap_target_array,
}

-- (bo kvBaseObject) OffsetOf(obj), for a container at the address `addr`
unfoldable pub offset_of : ℕ → ℕ → ℕ
offset_of base addr = if ltb base addr then addr - base else base - addr

abbrev pub ten_ten : ℕ
ten_ten = 10000000000

abbrev pub or_null : Option Value → Value
or_null none = null
or_null (some v) = v

-- map[string]any{"key": k, "value": obj[k], "id": id}
unfoldable pub pair_object : ℕ → Str → Value → ℤ → Value
pair_object address k v id =
    object address
      (field (bytes "key") (string k) (field (bytes "value") v (field (bytes "id") (int id) end)))

-- the identifier of an object: that of the base object, and the distance from it
unfoldable pub pair_id : ℕ → ℕ → ℕ → ℤ
unfolding offset_of wrap64
pair_id base_address base_id address =
    wrap64 (pos (offset_of base_address address + base_id * ten_ten))

module _ (E : Env) (run : Run) where
  -- One round of the loop over the sorted keys.
  unfoldable pub key_round : Node → Fields → ℤ → Str → M Round
  unfolding execute_next_item pair_object get_field
  key_round n fs id k = do
    number ← next_object_id
    let address = E.address number
    out ← with_base address number (
        execute_next_item E run (to n) (next_of n)
          (pair_object address k (or_null (get_field k fs)) id))
    none_wanted ← no_list
    pure (
        if is_failed out.0
        then return out
        else if is_ok out.0 && none_wanted
        then return (out.0, none)
        else continue (out.0, none))

  unfoldable pub keys_loop : Node → Fields → ℤ → List Str → Out → M Round
  unfolding key_round
  keys_loop n fs id [] out = pure (continue out)
  keys_loop n fs id (k ∷ ks) out = do
    round ← key_round n fs id k
    after_round round (keys_loop n fs id ks)

  unfoldable pub all_pairs : Node → ℕ → Fields → M Out
  unfolding keys_loop sort_keys keys pair_id
  all_pairs n address end = pure (not_found, none)
  all_pairs n address (field k v fs) = unless_existence (is_nil (next_of n)) do
    base_address ← gets (λ s. s.base_address)
    base_id ← gets (λ s. s.base_id)
    let id = pair_id base_address base_id address
    round ← keys_loop n (field k v fs) id (sort_keys (keys (field k v fs))) (ok, none)
    pure (round_out round)

  unfoldable pub execute_key_value_method : Node → Value → Bool → M Out
  unfolding all_pairs unless_existence return_verbose_error execute_item_unwrap_target_array
  execute_key_value_method n (array a vs) unwrap =
      if unwrap
      then execute_item_unwrap_target_array run (to n) (array a vs)
      else return_verbose_error (verbose not_an_object)
  execute_key_value_method n (object a fs) unwrap = all_pairs n a fs
  execute_key_value_method n _ unwrap = return_verbose_error (verbose not_an_object)

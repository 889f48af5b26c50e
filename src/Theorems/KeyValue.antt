-- ===== src/Theorems/KeyValue.antt =====
-- path/exec/keyvalue.go: the objects that .keyvalue() appends, and their order.
use sqljson.Prelude.{
  ap, ◌∙◌, ℕ, zero, suc, ◌+◌, Bool, true, false, ◌≡◌, refl, inl, inr, arith, List, [], ◌∷◌, ◌++◌,
  Str, Bool-cases, str_eq, if◌then◌else◌, length, bytes, none,
}
use mathlib.Core.List.{append-nil, append_assoc}
use sqljson.Prelude.Int.{ℤ, pos, negsuc, negate}
use sqljson.Golang.{compare_strings}
use sqljson.Golang.Sort.{sort_keys, insert_key, precedes}
use sqljson.Json.{Value, int, string, object, Fields, end, field, get_field, keys}
use sqljson.Ast.{Node, next_of, nil}
use sqljson.Exec.Error.{ok, not_found, Out}
use sqljson.Exec.Env.{Env}
use sqljson.Exec.State.{
  State, Ran, ran, after, ◌>>=◌, pure, gets, with_base, no_list, next_object_id, unless_existence,
}
use sqljson.Exec.Next.{Run}
use sqljson.Exec.AnyItem.{continue, round_out}
use sqljson.Exec.KeyValue.{
  pair_id, pair_object, or_null, key_round, keys_loop, all_pairs, execute_key_value_method,
}
use sqljson.Theorems.Ordering.{compare_strings_swap}
use sqljson.Theorems.Subscripts.{with_found, found_out, finish_lem}

abbrev IsBelow : Str → List Str → Type 0
IsBelow k [] = Unit
IsBelow k (j ∷ js) = precedes (compare_strings k j) ≡ true

-- every key precedes the next one, or is the same
abbrev pub IsSorted : List Str → Type 0
IsSorted [] = Unit
IsSorted (k ∷ ks) = IsBelow k ks × IsSorted ks

-- how often a key occurs
abbrev pub count : Str → List Str → ℕ
count k [] = 0
count k (j ∷ js) = (if str_eq k j then 1 else 0) + count k js

negated_precedes : (c : ℤ) → precedes c ≡ false → precedes (negate c) ≡ true
unfolding negate
negated_precedes (pos zero) h = cc
negated_precedes (pos (suc n)) h = ground arith
negated_precedes (negsuc n) h = cc

precedes_total :
    (j k : Str) → precedes (compare_strings k j) ≡ false → precedes (compare_strings j k) ≡ true
precedes_total j k h = rw (compare_strings_swap k j) (negated_precedes (compare_strings k j) h)

-- what is below the rest and below the new key is below both
insert_key-IsBelow :
    (i k : Str) (ks : List Str)
    → IsBelow i ks
    → precedes (compare_strings i k) ≡ true
    → IsBelow i (insert_key k ks)
unfolding insert_key
insert_key-IsBelow i k [] h e = e
insert_key-IsBelow i k (j ∷ js) h e = ground arith

insert_key-IsSorted : (k : Str) (ks : List Str) → IsSorted ks → IsSorted (insert_key k ks)
unfolding insert_key
insert_key-IsSorted k [] h = (tt, tt)
insert_key-IsSorted k (j ∷ js) (below, rest) = elim (Bool-cases (precedes (compare_strings k j))) [
  | inl e ↦ rw e (e, (below, rest))
  | inr e ↦
      rw e (insert_key-IsBelow j k js below (precedes_total j k e), insert_key-IsSorted k js rest)
]

insert_key-count : (i k : Str) (ks : List Str) → count i (insert_key k ks) ≡ count i (k ∷ ks)
unfolding insert_key
insert_key-count i k [] = refl
insert_key-count i k (j ∷ js) = ground (arith, insert_key-count i k js)

sort_keys-count : (i : Str) (ks : List Str) → count i (sort_keys ks) ≡ count i ks
unfolding sort_keys
sort_keys-count i [] = refl
sort_keys-count i (k ∷ ks) =
    omega (arith, insert_key-count i k (sort_keys ks), sort_keys-count i ks)

sort_keys-IsSorted : (ks : List Str) → IsSorted (sort_keys ks)
unfolding sort_keys
sort_keys-IsSorted [] = tt
sort_keys-IsSorted (k ∷ ks) = insert_key-IsSorted k (sort_keys ks) (sort_keys-IsSorted ks)

-- the state after some objects were given numbers
abbrev numbered : ℕ → State → State
numbered number s = record s { last_generated_object_id = number }

module _ (E : Env) (fs : Fields) (id : ℤ) where
  -- the object for a key, which is made at the place of the given number
  abbrev pub pair : ℕ → Str → Value
  pair number k = object (E.address number) (
      field (bytes "key") (string k)
        (field (bytes "value") (or_null (get_field k fs)) (field (bytes "id") (int id) end)))

  -- the objects for some keys, in their order, behind the last number that was given
  abbrev pub pairs : ℕ → List Str → List Value
  pairs last [] = []
  pairs last (k ∷ ks) = pair (suc last) k ∷ pairs (suc last) ks

  module _ (run : Run) (n : Node) (end_of_path : next_of n ≡ nil) where
    key_round_lem :
        (k : Str) (last : ℕ) (s : State) (l : List Value)
        → key_round E run n fs id k (with_found (numbered last s) l)
          ≡ ran
              (continue (ok, none))
              (with_found (numbered (suc last) s) (l ++ pair (suc last) k ∷ []))
    unfolding key_round pair_object next_object_id with_base no_list gets ◌>>=◌ pure
    key_round_lem k last s l = rw (
      end_of_path,
      finish_lem E run n (pair (suc last) k)
          (record s {
            last_generated_object_id = suc last;
            base_address = E.address (suc last);
            base_id = suc last;
          })
          l end_of_path,
    )

    keys_loop_lem :
        (ks : List Str) (last : ℕ) (s : State) (l : List Value)
        → keys_loop E run n fs id ks (ok, none) (with_found (numbered last s) l)
          ≡ ran
              (continue (ok, none))
              (with_found (numbered (last + length ks) s) (l ++ pairs last ks))
    unfolding keys_loop ◌>>=◌ pure
    keys_loop_lem [] last s l = let e : last + 0 ≡ last = omega arith in rw (e, append-nil)
    keys_loop_lem (k ∷ ks) last s l =
        let later = keys_loop_lem ks (suc last) s (l ++ pair (suc last) k ∷ []) in
        let e : suc last + length ks ≡ last + suc (length ks) = omega arith in
        rw (key_round_lem k last s l, later, e, append_assoc) refl

-- The run of `.keyvalue()` on an object that goes through the given keys.
abbrev pub keyed_run : Env → Fields → ℕ → State → List Value → List Str → Ran Out
keyed_run E fs address s l ks =
    let found =
      pairs E fs (pair_id s.base_address s.base_id address) s.last_generated_object_id ks in
    ran (found_out found (not_found, none)) (
      with_found (record s { last_generated_object_id = s.last_generated_object_id + length ks })
        (l ++ found))

length-insert_key : (k : Str) (ks : List Str) → length (insert_key k ks) ≡ suc (length ks)
unfolding insert_key
length-insert_key k [] = refl
length-insert_key k (j ∷ js) = ground (arith, length-insert_key k js)

length-sort_keys : (ks : List Str) → length (sort_keys ks) ≡ length ks
unfolding sort_keys
length-sort_keys [] = refl
length-sort_keys (k ∷ ks) = length-insert_key k (sort_keys ks) ∙ ap suc (length-sort_keys ks)

-- objects were found if there is a key
found_pairs :
    (E : Env) (fs : Fields) (id : ℤ) (last : ℕ) (ks : List Str) (m : ℕ)
    → length ks ≡ suc m
    → found_out (pairs E fs id last ks) (not_found, none) ≡ (ok, none)
found_pairs E fs id last [] m h = absurd (omega (arith, h))
found_pairs E fs id last (k ∷ ks) m h = refl

all_pairs_lem :
    (E : Env) (run : Run) (n : Node) (address : ℕ) (fs : Fields) (s : State) (l : List Value)
    → next_of n ≡ nil
    → all_pairs E run n address fs (with_found s l)
      ≡ keyed_run E fs address s l (sort_keys (keys fs))
unfolding all_pairs unless_existence no_list gets ◌>>=◌ pure keys
all_pairs_lem E run n address end s l h =
    let e : s.last_generated_object_id + 0 ≡ s.last_generated_object_id = omega arith in
    rw (sort_keys, e, append-nil)
all_pairs_lem E run n address (field k v fs) s l h =
    let id = pair_id s.base_address s.base_id address in
    let ks = sort_keys (k ∷ keys fs) in
    let looped = keys_loop_lem E (field k v fs) id run n h ks s.last_generated_object_id s l in
    let found =
      found_pairs E (field k v fs) id s.last_generated_object_id ks (length (keys fs))
        (length-sort_keys (k ∷ keys fs)) in
    rw (h, found) (ap (λ r. after r (λ round. pure (round_out round))) looped)

-- At the end of a path, `.keyvalue()` on an object appends one object for each key of it, with the key,
-- its value and the identifier of the object, in the order of the bytes of the keys, each key as often as
-- in the object; it gives each of them the next number, and the outcome is OK, or "not found" for an
-- object with no key.
pub execute_key_value_method-IsSorted :
    (E : Env) (run : Run) (n : Node) (address : ℕ) (fs : Fields) (unwrap : Bool)
    → next_of n ≡ nil
    → (s : State) (l : List Value)
    → (ks : List Str) × IsSorted ks
      × ((k : Str) → count k ks ≡ count k (keys fs))
      × (execute_key_value_method E run n (object address fs) unwrap (with_found s l)
          ≡ keyed_run E fs address s l ks)
unfolding execute_key_value_method
execute_key_value_method-IsSorted E run n address fs unwrap h s l = (
  sort_keys (keys fs),
  sort_keys-IsSorted (keys fs),
  (λ k. sort_keys-count k (keys fs)),
  all_pairs_lem E run n address fs s l h,
)

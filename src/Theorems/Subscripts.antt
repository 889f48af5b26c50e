-- ===== src/Theorems/Subscripts.antt =====
-- Array subscripts (path/exec/array.go): their indexes, and the loop over them.
use sqljson.Prelude.{
  ◌⊎◌, ℕ, zero, suc, ◌+◌, ◌≤◌, Bool, true, false, ◌≡◌, refl, none, some, List, [], ◌∷◌, ◌++◌,
  length, arith, inl, inr,
}
use sqljson.Prelude.Int.{pos_part, ℤ, pos, negsuc, ◌≤ℤ◌, ◌-ℤ◌}
use mathlib.Core.List.{append-nil, append_assoc}
use sqljson.Json.{Value, null}
use sqljson.Ast.{nil, to, Node, next_of}
use sqljson.Exec.Error.{Out, ok, Result, value, error}
use sqljson.Exec.Env.{Env}
use sqljson.Exec.State.{State, M, ran, ◌>>=◌, pure, append, gets, no_list}
use sqljson.Exec.Next.{Run, finish, execute_next_item}
use sqljson.Exec.AnyItem.{Round, continue}
use sqljson.Exec.Array.{clip, rounds, subscript_round, at_index, index_member, index_loop}
use sqljson.Theorems.Slices.{drop, take, drop_step, within, clip_slice}

abbrev pub IsValueIn : {A : Type 0} → (A → Type 0) → Result A → Type 0
IsValueIn P (value a) = P a
IsValueIn P (error e) = Unit

-- the indexes of a subscript: inside the array, and in strict mode in order
abbrev pub IsClipped : Bool → ℕ → ℤ × ℤ → Type 0
IsClipped ignored size (from, upto) =
    (pos 0 ≤ℤ from) × (upto ≤ℤ (pos size -ℤ pos 1)) × ((ignored ≡ true) ⊎ (from ≤ℤ upto))

-- The indexes that execSubscript returns lie inside the array: the first is not negative, the last is
-- below the size, and the first is not behind the last where structural errors are not ignored.
pub clip-IsClipped :
    (ignored : Bool) (size : ℕ) (from upto : ℤ)
    → IsValueIn (IsClipped ignored size) (clip ignored (pos size) from upto)
unfolding clip ◌-ℤ◌
clip-IsClipped true size (pos a) (pos b) = ground arith
clip-IsClipped true size (pos a) (negsuc b) = ground arith
clip-IsClipped true size (negsuc a) (pos b) = ground arith
clip-IsClipped true size (negsuc a) (negsuc b) = ground arith
clip-IsClipped false size (pos a) (pos b) = ground arith
clip-IsClipped false size (pos a) (negsuc b) = ground arith
clip-IsClipped false size (negsuc a) (pos b) = ground arith
clip-IsClipped false size (negsuc a) (negsuc b) = ground arith

abbrev pub non_null : List Value → List Value
non_null [] = []
non_null (null ∷ vs) = non_null vs
non_null (v ∷ vs) = v ∷ non_null vs

-- the outcome of the loop: that of before, if it finds nothing
abbrev pub found_out : List Value → Out → Out
found_out [] out = out
found_out (v ∷ vs) out = (ok, none)

abbrev pub with_found : State → List Value → State
with_found s l = record s { found = some l }

-- a value that is no null is the result, at the end of a path
pub finish_lem :
    (E : Env) (run : Run) (n : Node) (v : Value) (s : State) (l : List Value)
    → next_of n ≡ nil
    → execute_next_item E run (to n) nil v (with_found s l)
      ≡ ran (ok, none) (with_found s (l ++ v ∷ []))
unfolding execute_next_item ◌>>=◌ pure append finish
finish_lem E run n v s l h = rw h

non_null_cons : (v : Value) (vs : List Value) → non_null (v ∷ vs) ≡ non_null (v ∷ []) ++ non_null vs
non_null_cons null vs = refl
non_null_cons v vs = refl

found_out_append :
    (a b : List Value) (out : Out) → found_out b (found_out a out) ≡ found_out (a ++ b) out
found_out_append [] b out = refl
found_out_append (v ∷ a) [] out = refl
found_out_append (v ∷ a) (w ∷ b) out = refl

module _ (E : Env) (run : Run) (n : Node) (last : next_of n ≡ nil) where
  index_member_lem :
      (v : Value) (rest : Out → M Round) (out : Out) (s : State) (l : List Value)
      → index_member E run n v rest out (with_found s l)
        ≡ rest (found_out (non_null (v ∷ [])) out) (with_found s (l ++ non_null (v ∷ [])))
  unfolding index_member ◌>>=◌ pure gets no_list
  index_member_lem null rest out s l = rw append-nil
  index_member_lem v rest out s l = rw (last, finish_lem E run n v s l last)

  -- The loop over k indexes from i on, all of them in range.
  index_loop_lem :
      (items : List Value) (k i : ℕ) (out : Out) (s : State) (l : List Value)
      → (k ≡ 0) ⊎ (i + k ≤ length items)
      → index_loop E run n items k i out (with_found s l)
        ≡ ran
            (continue (found_out (non_null (take k (drop i items))) out))
            (with_found s (l ++ non_null (take k (drop i items))))
  unfolding index_loop at_index pure
  index_loop_lem items zero i out s l h = rw append-nil
  index_loop_lem items (suc k) i out s l (inl e) = cc
  index_loop_lem items (suc k) i out s l (inr h) =
      let (x, here, split) = drop_step i items (omega arith) in
      let next =
        index_loop_lem items k (i + 1) (found_out (non_null (x ∷ [])) out) s
          (l ++ non_null (x ∷ [])) (inr (omega arith)) in
      let one_more : (i + 1) ≡ suc i = omega arith in
      rw (
        here,
        split,
        index_member_lem x (index_loop E run n items k (i + 1)) out s l,
        next,
        one_more,
        non_null_cons x (take k (drop (suc i) items)),
        found_out_append,
        append_assoc,
      )

  -- Where execSubscript gives indexes for a subscript, the rounds of that subscript at the end of a path
  -- append exactly the items at the positions from the first bound up to the second, bounds outside the
  -- array included, less the JSON nulls, in their order; no index is out of range, and the outcome is OK if
  -- there is such an item and the one of before otherwise.
  pub subscript_round-within :
      (items : List Value) (ignored : Bool) (from upto : ℤ) (c : ℤ × ℤ)
      → clip ignored (pos (length items)) from upto ≡ value c
      → (rest : Out → M Round) (out : Out) (s : State) (l : List Value)
      → subscript_round E run n items (value c) rest out (with_found s l)
        ≡ rest
            (found_out (non_null (within from upto 0 items)) out)
            (with_found s (l ++ non_null (within from upto 0 items)))
  unfolding subscript_round ◌>>=◌
  subscript_round-within items ignored from upto (a, b) h rest out s l =
      let z = clip_slice items ignored from upto (a, b) h in
      rw (index_loop_lem items (rounds a b) (pos_part a) out s l z.0, z.1) refl

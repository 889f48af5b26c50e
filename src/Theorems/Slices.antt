-- ===== src/Theorems/Slices.antt =====
-- The items of an array that a subscript asks for (path/exec/array.go), and how many rounds of the loop
-- over the indexes reach them.
use sqljson.Prelude.{
  ◌⊎◌, ℕ, zero, suc, ◌+◌, ◌≤◌, ◌<◌, Bool, true, false, ◌||◌, ◌≡◌, refl, some, List, [], ◌∷◌, length,
  get_elem?, arith, inl, inr, leb, ◌&&◌, not, ◌-◌, sym, ap, ◌∙◌, Bool-cases, if◌then◌else◌,
}
use sqljson.Prelude.Int.{leb_ℤ, ltb_ℤ, pos_part, ℤ, pos, negsuc, ◌-ℤ◌}
use sqljson.Json.{Value}
use sqljson.Exec.Error.{value}
use sqljson.Exec.Array.{clip, rounds}

module _ {A : Type 0} where
  abbrev pub drop : ℕ → List A → List A
  drop zero xs = xs
  drop (suc i) [] = []
  drop (suc i) (x ∷ xs) = drop i xs

  abbrev pub take : ℕ → List A → List A
  take zero xs = []
  take (suc k) [] = []
  take (suc k) (x ∷ xs) = x ∷ take k xs

  pub drop_step :
      (i : ℕ) (xs : List A)
      → i < length xs
      → (x : A) × (get_elem? xs i ≡ some x) × (drop i xs ≡ x ∷ drop (suc i) xs)
  drop_step i [] h = absurd (omega arith)
  drop_step zero (x ∷ xs) h = (x, refl, refl)
  drop_step (suc i) (x ∷ xs) h = drop_step i xs (omega arith)

-- The items at the positions from `from` up to `upto`; the first item of the list has the position i.
abbrev pub within : ℤ → ℤ → ℕ → List Value → List Value
within from upto i [] = []
within from upto i (v ∷ vs) =
    let later = within from upto (i + 1) vs in
    if leb_ℤ from (pos i) && leb_ℤ (pos i) upto then v ∷ later else later

-- How many positions are not behind `upto`.
abbrev count_to : ℤ → ℕ
count_to (pos n) = n + 1
count_to (negsuc n) = 0

module _ {A : Type 0} where
  take-nil : (k : ℕ) → take {A = A} k [] ≡ []
  take-nil zero = refl
  take-nil (suc k) = refl

  take-all : (k : ℕ) (xs : List A) → length xs ≤ k → take k xs ≡ xs
  take-all k [] h = take-nil k
  take-all zero (x ∷ xs) h = absurd (omega arith)
  take-all (suc k) (x ∷ xs) h = ap (λ ys. x ∷ ys) (take-all k xs (omega arith))

  length-drop : (k : ℕ) (xs : List A) → length (drop k xs) ≡ length xs - k
  length-drop zero xs = omega arith
  length-drop (suc k) [] = omega arith
  length-drop (suc k) (x ∷ xs) = length-drop k xs ∙ omega arith

  -- taking no more than there is
  take-within :
      (f c : ℕ) (xs : List A)
      → take ((if leb (length xs) c then length xs else c) - f) (drop f xs)
        ≡ take (c - f) (drop f xs)
  take-within f c xs = elim (Bool-cases (leb (length xs) c)) [
    | inl e ↦
        let n = length-drop f xs in
        rw (
          e,
          take-all (length xs - f) (drop f xs) (omega arith),
          take-all (c - f) (drop f xs) (ground arith),
        )
    | inr e ↦ rw e
  ]

from_before : (from : ℤ) (i : ℕ) → pos_part from ≤ i → leb_ℤ from (pos i) ≡ true
from_before (pos n) i h = ground arith
from_before (negsuc n) i h = ground arith

from_behind : (from : ℤ) (i : ℕ) → i < pos_part from → leb_ℤ from (pos i) ≡ false
from_behind (pos n) i h = ground arith
from_behind (negsuc n) i h = ground arith

count_one :
    (upto : ℤ) (i : ℕ)
    → leb_ℤ (pos i) upto ≡ true
    → count_to upto - i ≡ suc (count_to upto - (i + 1))
count_one (pos n) i e = ground arith
count_one (negsuc n) i e = absurd (ground arith)

count_none :
    (upto : ℤ) (i : ℕ)
    → leb_ℤ (pos i) upto ≡ false
    → (count_to upto - i ≡ 0) × (count_to upto - (i + 1) ≡ 0)
count_none (pos n) i e = (ground arith, ground arith)
count_none (negsuc n) i e = (omega arith, omega arith)

within-take :
    (from upto : ℤ) (i : ℕ) (xs : List Value)
    → pos_part from ≤ i
    → within from upto i xs ≡ take (count_to upto - i) xs
within-take from upto i [] h = sym (take-nil _)
within-take from upto i (v ∷ vs) h =
    let later = within-take from upto (i + 1) vs (omega arith) in
    elim (Bool-cases (leb_ℤ (pos i) upto)) [
      | inl e ↦ rw (from_before from i h, e, count_one upto i e, later)
      | inr e ↦ let z = count_none upto i e in rw (from_before from i h, e, later, z.0, z.1)
    ]

within-drop :
    (from upto : ℤ) (i k : ℕ) (xs : List Value)
    → i + k ≡ pos_part from
    → within from upto i xs ≡ take (count_to upto - pos_part from) (drop k xs)
within-drop from upto i zero xs h =
    let e : i ≡ pos_part from = omega arith in
    within-take from upto i xs (omega arith) ∙ ap (λ j. take (count_to upto - j) xs) e
within-drop from upto i (suc k) [] h = sym (take-nil _)
within-drop from upto i (suc k) (v ∷ vs) h =
    rw (from_behind from i (omega arith)) (within-drop from upto (i + 1) k vs (omega arith))

abbrev clipped : ℕ → ℤ → ℤ → ℤ × ℤ
clipped size from upto = (
  (if ltb_ℤ from (pos 0) then pos 0 else from),
  (if leb_ℤ (pos size) upto then pos size -ℤ pos 1 else upto),
)

clip-clipped :
    (ignored : Bool) (size : ℕ) (from upto : ℤ) (c : ℤ × ℤ)
    → clip ignored (pos size) from upto ≡ value c
    → clipped size from upto ≡ c
unfolding clip
clip-clipped ignored size from upto c h =
    elim (Bool-cases
      (not ignored && (ltb_ℤ from (pos 0) || ltb_ℤ upto from || leb_ℤ (pos size) upto))) [
        | inl e ↦ absurd (cc (rw e at h))
        | inr e ↦ cc (rw e at h)
      ]

clipped_from : (size : ℕ) (from upto : ℤ) → (clipped size from upto).0 ≡ pos (pos_part from)
clipped_from size (pos n) upto = ground arith
clipped_from size (negsuc n) upto = ground arith

clipped_upto :
    (size : ℕ) (from upto : ℤ)
    → count_to (clipped size from upto).1
      ≡ (if leb size (count_to upto) then size else count_to upto)
unfolding ◌-ℤ◌
clipped_upto zero from (pos n) = ground arith
clipped_upto (suc size) from (pos n) = ground arith
clipped_upto zero from (negsuc n) = ground arith
clipped_upto (suc size) from (negsuc n) = ground arith

rounds_count : (n : ℕ) (upto : ℤ) → rounds (pos n) upto ≡ count_to upto - n
unfolding ◌-ℤ◌
rounds_count n (pos m) = ground arith
rounds_count n (negsuc m) = ground arith

rounds-clipped :
    (size : ℕ) (from upto : ℤ)
    → rounds (clipped size from upto).0 (clipped size from upto).1
      ≡ (if leb size (count_to upto) then size else count_to upto) - pos_part from
rounds-clipped size from upto =
    ap (λ a. rounds a (clipped size from upto).1) (clipped_from size from upto)
    ∙ rounds_count (pos_part from) (clipped size from upto).1
    ∙ ap (λ k. k - pos_part from) (clipped_upto size from upto)

pub clip_slice :
    (items : List Value) (ignored : Bool) (from upto : ℤ) (c : ℤ × ℤ)
    → clip ignored (pos (length items)) from upto ≡ value c
    → ((rounds c.0 c.1 ≡ 0) ⊎ (pos_part c.0 + rounds c.0 c.1 ≤ length items))
      × (take (rounds c.0 c.1) (drop (pos_part c.0) items) ≡ within from upto 0 items)
clip_slice items ignored from upto c h =
    let f : pos_part c.0 ≡ pos_part from =
      ap (λ z. pos_part z.0) (sym (clip-clipped ignored (length items) from upto c h))
      ∙ ap pos_part (clipped_from (length items) from upto) in
    let r : rounds c.0 c.1
        ≡ (if leb (length items) (count_to upto) then length items else count_to upto)
          - pos_part from =
      ap (λ z. rounds z.0 z.1) (sym (clip-clipped ignored (length items) from upto c h))
      ∙ rounds-clipped (length items) from upto in
    (
      ground arith,
      ap (λ k. take k (drop (pos_part c.0) items)) r
          ∙ ap
              (λ k.
                take
                  ((if leb (length items) (count_to upto) then length items else count_to upto)
                    - pos_part from)
                  (drop k items))
              f
          ∙ take-within (pos_part from) (count_to upto) items
          ∙ sym (within-drop from upto 0 (pos_part from) items (omega arith)),
    )

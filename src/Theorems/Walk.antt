-- ===== src/Theorems/Walk.antt =====
-- The walk of path/exec/op.go over the members of a container, where the path ends with it.
use sqljson.Prelude.{
  ℕ, ◌+◌, Bool, true, false, ◌&&◌, ◌||◌, not, ◌≡◌, refl, ◌⊎◌, inl, inr, none, List, [], ◌∷◌, ◌++◌,
  length, length-append, ltb, leb, nat_eq, lt→ltb, arith, Bool-cases, if◌then◌else◌,
}
use mathlib.Core.List.{append-nil, append_assoc}
use sqljson.Json.{Value, array, object, Items, nil as no_items, cons, Fields, end, field}
use sqljson.Ast.{nil}
use sqljson.Exec.Error.{Out, ok, not_found}
use sqljson.Exec.State.{State, M, ran, ◌>>=◌, pure, append, gets, no_list, found_size}
use sqljson.Exec.Next.{Run}
use sqljson.Exec.AnyItem.{
  Round, continue, is_leaf, max_uint32, stop_or_go, settle, keep, check_member, visit, enter,
  execute_any_item, items_loop, fields_loop,
}
use sqljson.Theorems.Subscripts.{with_found, found_out}

-- the outcomes of a walk that is not asked to stop
abbrev status_out : Bool → Out
status_out true = (ok, none)
status_out false = (not_found, none)

abbrev is_empty : List Value → Bool
is_empty [] = true
is_empty (v ∷ vs) = false

abbrev one_if : Bool → Value → List Value
one_if true v = v ∷ []
one_if false v = []

module _ (first last : ℕ) where
  -- whether a member at a level is one that is looked for
  abbrev wanted : Value → ℕ → Bool
  wanted v level =
      leb first level || (nat_eq first max_uint32 && nat_eq last max_uint32 && is_leaf v)

  -- The members of a value that are looked for, each before its own members. The members of the
  -- value itself are at the level `level`, and no level is above `last`.
  unfoldable mutual
    pub descendants : Value → ℕ → List Value
    descendants (array a vs) level = if ltb last level then [] else of_items vs level
    descendants (object a fs) level = if ltb last level then [] else of_fields fs level
    descendants v level = []

    pub of_items : Items → ℕ → List Value
    of_items no_items level = []
    of_items (cons v vs) level =
        let below = descendants v (level + 1) in
        one_if (wanted v level) v ++ ((if ltb level last then below else []) ++ of_items vs level)

    pub of_fields : Fields → ℕ → List Value
    of_fields end level = []
    of_fields (field k v fs) level =
        let below = descendants v (level + 1) in
        one_if (wanted v level) v ++ ((if ltb level last then below else []) ++ of_fields fs level)

-- A loop that finds `ds` from the outcome of before.
abbrev Finds : (Out → M Round) → List Value → Type 0
Finds loop ds =
    (b : Bool) (s : State) (l : List Value)
    → (c : Bool) × (loop (status_out b) (with_found s l)
        ≡ ran (continue (status_out c)) (with_found s (l ++ ds)))
      × (c ≡ true → (b ≡ true) ⊎ (is_empty ds ≡ false))

abbrev Walks : M Out → List Value → Type 0
Walks m ds =
    (s : State) (l : List Value)
    → m (with_found s l) ≡ ran (found_out ds (not_found, none)) (with_found s (l ++ ds))

true_not_false : true ≡ false → ⊥
true_not_false e = cc

same_length : (l : List Value) → ltb (length l) (length (l ++ [])) ≡ false
same_length l = rw append-nil (ground arith)

longer : (l ds : List Value) (d : Value) → ltb (length l) (length (l ++ d ∷ ds)) ≡ true
longer l ds d = lt→ltb _ _ (omega (arith, length-append l (d ∷ ds)))

settle_lem :
    (s : State) (l ds : List Value) (c : Bool)
    → (c ≡ true → is_empty ds ≡ false)
    → settle (length l) (continue (status_out c)) (with_found s (l ++ ds))
      ≡ ran (found_out ds (not_found, none)) (with_found s (l ++ ds))
unfolding settle ◌>>=◌ pure gets no_list found_size
settle_lem s l [] true h = absurd (true_not_false (h refl))
settle_lem s l [] false h = rw (same_length l)
settle_lem s l (d ∷ ds) true h = rw (longer l ds d)
settle_lem s l (d ∷ ds) false h = rw (longer l ds d)

found_out_status :
    (ds : List Value) → found_out ds (not_found, none) ≡ status_out (not (is_empty ds))
found_out_status [] = refl
found_out_status (d ∷ ds) = refl

is_empty-append : (a b : List Value) → is_empty (a ++ b) ≡ (is_empty a && is_empty b)
is_empty-append [] b = refl
is_empty-append (x ∷ a) b = refl

abbrev if_list : Bool → List Value → List Value
if_list d below = if d then below else []

-- the outcome behind the two calls of a round
abbrev next_status : Bool → Bool → Bool → Bool → Bool
next_status w d below_empty b = if d then not below_empty else (w || b)

-- an OK that comes out was there before or stands for a value that was found
explained :
    (w d b c be de : Bool)
    → (c ≡ true → (next_status w d be b ≡ true) ⊎ (de ≡ false))
    → c ≡ true
    → (b ≡ true) ⊎ ((not w && ((if d then be else true) && de)) ≡ false)
explained w d b false be de h e = cc
explained true d b true be de h e = inr refl
explained false true b true false de h e = inr refl
explained false true b true true true h e = elim (h refl) [ inl x ↦ cc | inr x ↦ cc ]
explained false true b true true false h e = inr refl
explained false false true true be de h e = inl refl
explained false false false true be de h e = elim (h refl) [ inl x ↦ cc | inr x ↦ inr x ]

empties :
    (w d : Bool) (v : Value) (below ds : List Value)
    → is_empty (one_if w v ++ (if_list d below ++ ds))
      ≡ (not w && ((if d then is_empty below else true) && is_empty ds))
empties true d v below ds = refl
empties false true v below ds = is_empty-append below ds
empties false false v below ds = refl

module _ (run : Run) (first last : ℕ) (ignore unwrap : Bool) where
  enter_lem :
      (level : ℕ) (loop : Out → M Round) (ds : List Value)
      → Finds loop ds
      → Walks
          (enter run nil first last ignore unwrap level loop)
          (if ltb last level then [] else ds)
  unfolding enter ◌>>=◌ pure gets found_size
  enter_lem level loop ds h s l = elim (Bool-cases (ltb last level)) [
    | inl e ↦ rw (e, append-nil)
    | inr e ↦
        let (c, p, q) = h false s l in
        rw (e, p, settle_lem s l ds c (λ x. elim (q x) [ inl y ↦ cc | inr y ↦ y ]))
  ]

  check_lem :
      (v : Value) (w b : Bool) (s : State) (l : List Value)
      → (if w
            then check_member run nil first last ignore unwrap v
            else pure (continue (status_out b)))
          (with_found s l)
        ≡ ran (continue (status_out (w || b))) (with_found s (l ++ one_if w v))
  unfolding ◌>>=◌ pure gets check_member keep append no_list
  check_lem v true b s l = refl
  check_lem v false b s l = rw append-nil

  stop_or_go_lem :
      (c : Bool) (s : State) (l : List Value)
      → stop_or_go (status_out c) (with_found s l) ≡ ran (continue (status_out c)) (with_found s l)
  unfolding stop_or_go ◌>>=◌ pure gets no_list
  stop_or_go_lem true s l = refl
  stop_or_go_lem false s l = refl

  deeper_lem :
      (deeper : M Out) (below : List Value)
      → Walks deeper below
      → (w d b : Bool) (s : State) (l : List Value)
      → (if d then (do o ← deeper; stop_or_go o) else pure (continue (status_out (w || b))))
          (with_found s l)
        ≡ ran
            (continue (status_out (next_status w d (is_empty below) b)))
            (with_found s (l ++ if_list d below))
  unfolding ◌>>=◌ pure
  deeper_lem deeper below h w true b s l = rw (h s l, found_out_status below, stop_or_go_lem)
  deeper_lem deeper below h w false b s l = rw append-nil

  visit_lem :
      (v : Value) (level : ℕ) (deeper : M Out) (rest : Out → M Round) (below ds : List Value)
      → Walks deeper below
      → Finds rest ds
      → Finds
          (visit run nil first last ignore unwrap v level deeper rest)
          (one_if (wanted first last v level) v ++ (if_list (ltb level last) below ++ ds))
  unfolding visit ◌>>=◌ pure
  visit_lem v level deeper rest below ds h k b s l =
      let w = wanted first last v level in
      let d = ltb level last in
      let here = l ++ one_if w v in
      let (c, p, q) = k (next_status w d (is_empty below) b) s (here ++ if_list d below) in
      (
        c,
        rw (
          check_lem v w b s l,
          deeper_lem deeper below h w d b s here,
          p,
          append_assoc,
          append_assoc,
          append_assoc,
        ),
        λ e. rw (empties w d v below ds) (explained w d b c (is_empty below) (is_empty ds) q e),
      )

  mutual
    unfolding execute_any_item descendants pure

    any_lem :
        (v : Value) (level : ℕ)
        → Walks
            (execute_any_item run nil first last ignore unwrap v level)
            (descendants first last v level)
    any_lem (array a vs) level s l =
        enter_lem level (items_loop run nil first last ignore unwrap vs level) _
          (items_lem vs level) s l
    any_lem (object a fs) level s l =
        enter_lem level (fields_loop run nil first last ignore unwrap fs level) _
          (fields_lem fs level) s l
    any_lem _ level s l = rw append-nil

    items_lem :
        (vs : Items) (level : ℕ)
        → Finds
            (items_loop run nil first last ignore unwrap vs level)
            (of_items first last vs level)
    items_lem no_items level b s l = (b, rw append-nil, λ e. inl e)
    items_lem (cons v vs) level b s l =
        visit_lem v level _ (items_loop run nil first last ignore unwrap vs level) _ _
          (any_lem v (level + 1)) (items_lem vs level) b s l

    fields_lem :
        (fs : Fields) (level : ℕ)
        → Finds
            (fields_loop run nil first last ignore unwrap fs level)
            (of_fields first last fs level)
    fields_lem end level b s l = (b, rw append-nil, λ e. inl e)
    fields_lem (field k v fs) level b s l =
        visit_lem v level _ (fields_loop run nil first last ignore unwrap fs level) _ _
          (any_lem v (level + 1)) (fields_lem fs level) b s l

-- executeAnyItem with no node behind it appends to the list, in the order of a walk from above, the
-- members at the levels from `first` to `last`, and all the leaves if both are the greatest number;
-- it returns OK if there is one and "not found" otherwise.
pub execute_any_item_lem :
    (run : Run) (first last : ℕ) (ignore unwrap : Bool) (v : Value) (level : ℕ) (s : State)
    (l : List Value)
    → execute_any_item run nil first last ignore unwrap v level (with_found s l)
      ≡ ran
          (found_out (descendants first last v level) (not_found, none))
          (with_found s (l ++ descendants first last v level))
execute_any_item_lem run first last ignore unwrap v level s l =
    any_lem run first last ignore unwrap v level s l

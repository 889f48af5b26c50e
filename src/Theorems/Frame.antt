-- ===== src/Theorems/Frame.antt =====
-- What an execution leaves as it was: an instance of the logic.
use sqljson.Prelude.{
  ℕ, ◌<◌, ◌≤◌, ◌≡◌, refl, ◌∙◌, Bool, true, false, Option, none, some, List, [], ◌∷◌, ◌++◌, arith,
}
use mathlib.Core.List.{append-nil, append_assoc}
use mathlib.Core.Option
use native.Mathlib.Nat.{le_refl}
use sqljson.Json.{Value}
use sqljson.Ast.{Ref}
use sqljson.Exec.Env.{Env}
use sqljson.Exec.State.{
  State, M, Ran, ran, panicked, exhausted, ◌>>=◌, pure, panic, gets, silently, with_current,
  with_base, with_array_size, ignoring, with_nil, with_list, append, next_object_id, poll, scope,
  after,
}
use sqljson.Exec.Dispatch.{exec}
use sqljson.Logic.{Logic, Related}
use sqljson.Logic.Next.{rank}
use sqljson.Logic.Dispatch.{Related-exec}

-- The list that a call is given only grows at its end, and nil stays nil.
abbrev pub Extends : Option (List Value) → Option (List Value) → Type 0
Extends none after_it = after_it ≡ none
Extends (some l) after_it = (added : List Value) × (after_it ≡ some (l ++ added))

Extends-refl : (o : Option (List Value)) → Extends o o
Extends-refl none = refl
Extends-refl (some l) = ([], rw append-nil)

some_injective : {A : Type 0} {a b : A} → some a ≡ some b → a ≡ b
some_injective h = cc

Extends-trans : (a b c : Option (List Value)) → Extends a b → Extends b c → Extends a c
Extends-trans none b c h k = rw h at k
Extends-trans (some l) none c (x, p) k = cc
Extends-trans (some l) (some l') c (x, p) (y, q) = (x ++ y, rw (q, some_injective p, append_assoc))

-- The fields that are set for a while are put back, and the counters do not go back.
pub record Frame (s t : State) : Type 0 where
  pub same_current : t.current ≡ s.current
  pub same_base_address : t.base_address ≡ s.base_address
  pub same_base_id : t.base_id ≡ s.base_id
  pub same_array_size : t.innermost_array_size ≡ s.innermost_array_size
  pub same_ignore : t.ignore_structural_errors ≡ s.ignore_structural_errors
  pub same_verbose : t.verbose ≡ s.verbose
  pub more_objects : s.last_generated_object_id ≤ t.last_generated_object_id
  pub more_polls : s.polls ≤ t.polls
  pub extended : Extends s.found t.found

Frame-refl : (s : State) → Frame s s
Frame-refl s = record {
  same_current = refl;
  same_base_address = refl;
  same_base_id = refl;
  same_array_size = refl;
  same_ignore = refl;
  same_verbose = refl;
  more_objects = le_refl _;
  more_polls = le_refl _;
  extended = Extends-refl s.found;
}

Frame-trans : (s t u : State) → Frame s t → Frame t u → Frame s u
Frame-trans s t u h k = record {
  same_current = k.same_current ∙ h.same_current;
  same_base_address = k.same_base_address ∙ h.same_base_address;
  same_base_id = k.same_base_id ∙ h.same_base_id;
  same_array_size = k.same_array_size ∙ h.same_array_size;
  same_ignore = k.same_ignore ∙ h.same_ignore;
  same_verbose = k.same_verbose ∙ h.same_verbose;
  more_objects = omega (arith, h.more_objects, k.more_objects);
  more_polls = omega (arith, h.more_polls, k.more_polls);
  extended = Extends-trans s.found t.found u.found h.extended k.extended;
}

Extends-append : (v : Value) (o : Option (List Value)) → Extends o (Option.map (λ l. l ++ v ∷ []) o)
Extends-append v none = refl
Extends-append v (some l) = (v ∷ [], refl)

-- What holds of the state that an action ends in, if it returns.
abbrev pub Ends : {A : Type 0} → (State → Type 0) → Ran A → Type 0
Ends P (ran a t) = P t
Ends P panicked = Unit
Ends P exhausted = Unit

abbrev pub Kept : (A : Type 0) → M A → M A → Type 0
Kept A m m' = (s : State) → Ends (Frame s) (m s)

Ends-after :
    {A B : Type 0} (P Q : State → Type 0) (r : Ran A) (k : A → State → Ran B)
    → Ends P r
    → ((a : A) (t : State) → P t → Ends Q (k a t))
    → Ends Q (after r k)
Ends-after P Q (ran a t) k h then = then a t h
Ends-after P Q panicked k h then = tt
Ends-after P Q exhausted k h then = tt

Ends-weaken :
    {A : Type 0} (P Q : State → Type 0) (r : Ran A)
    → ((t : State) → P t → Q t)
    → Ends P r
    → Ends Q r
Ends-weaken P Q (ran a t) w h = w t h
Ends-weaken P Q panicked w h = tt
Ends-weaken P Q exhausted w h = tt

Kept-scope :
    (A : Type 0) (enter : State → State) (leave : State → State → State)
    → ((s t : State) → Frame (enter s) t → Frame s (leave s t))
    → (m : M A) → Kept A m m
    → Kept A (scope enter leave m) (scope enter leave m)
unfolding scope
Kept-scope A enter leave back m h s =
    Ends-after (Frame (enter s)) (Frame s) (m (enter s)) _ (h (enter s)) (λ a t. back s t)

Frame-of :
    (s t : State)
    → t.current ≡ s.current
    → t.base_address ≡ s.base_address
    → t.base_id ≡ s.base_id
    → t.innermost_array_size ≡ s.innermost_array_size
    → t.ignore_structural_errors ≡ s.ignore_structural_errors
    → t.verbose ≡ s.verbose
    → s.last_generated_object_id ≤ t.last_generated_object_id
    → s.polls ≤ t.polls
    → Extends s.found t.found
    → Frame s t
Frame-of s t a b c d e f g h i = record {
  same_current = a;
  same_base_address = b;
  same_base_id = c;
  same_array_size = d;
  same_ignore = e;
  same_verbose = f;
  more_objects = g;
  more_polls = h;
  extended = i;
}

pub frame_logic : Logic
unfolding ◌>>=◌ pure panic gets silently with_current with_base with_array_size ignoring with_nil
    with_list append next_object_id poll
frame_logic = record {
  Rel = Kept;
  pures = λ A a s. Frame-refl s;
  panics = λ A s. tt;
  getters = λ A f s. Frame-refl s;
  binds = λ A B m m' f f' h k s.
      Ends-after (Frame s) (Frame s) (m s) f (h s)
        (λ a t b. Ends-weaken (Frame t) (Frame s) (f a t) (λ u. Frame-trans s t u b) (k a t));
  silent = λ A m m' h.
      Kept-scope A (λ s. record s { verbose = false }) (λ s t. record t { verbose = s.verbose })
        (λ s t k.
          Frame-of s _ k.same_current k.same_base_address k.same_base_id k.same_array_size
            k.same_ignore refl k.more_objects k.more_polls k.extended)
        m h;
  current = λ A v m m' h.
      Kept-scope A (λ s. record s { current = v }) (λ s t. record t { current = s.current })
        (λ s t k.
          Frame-of s _ refl k.same_base_address k.same_base_id k.same_array_size k.same_ignore
            k.same_verbose k.more_objects k.more_polls k.extended)
        m h;
  base = λ A a i m m' h.
      Kept-scope A (λ s. record s { base_address = a; base_id = i })
        (λ s t. record t { base_address = s.base_address; base_id = s.base_id })
        (λ s t k.
          Frame-of s _ k.same_current refl refl k.same_array_size k.same_ignore k.same_verbose
            k.more_objects k.more_polls k.extended)
        m h;
  array_size = λ A n m m' h.
      Kept-scope A (λ s. record s { innermost_array_size = n })
        (λ s t. record t { innermost_array_size = s.innermost_array_size })
        (λ s t k.
          Frame-of s _ k.same_current k.same_base_address k.same_base_id refl k.same_ignore
            k.same_verbose k.more_objects k.more_polls k.extended)
        m h;
  ignores = λ A m m' h.
      Kept-scope A (λ s. record s { ignore_structural_errors = true })
        (λ s t. record t { ignore_structural_errors = s.ignore_structural_errors })
        (λ s t k.
          Frame-of s _ k.same_current k.same_base_address k.same_base_id k.same_array_size refl
            k.same_verbose k.more_objects k.more_polls k.extended)
        m h;
  nils = λ A m m' h.
      Kept-scope A (λ s. record s { found = none }) (λ s t. record t { found = s.found })
        (λ s t k.
          Frame-of s _ k.same_current k.same_base_address k.same_base_id k.same_array_size
            k.same_ignore k.same_verbose k.more_objects k.more_polls (Extends-refl s.found))
        m h;
  lists = λ A m m' h s.
      Ends-after (Frame (record s { found = some [] })) (Frame s) (m (record s { found = some [] }))
        _ (h _)
        (λ a t k.
          Frame-of s _ k.same_current k.same_base_address k.same_base_id k.same_array_size
            k.same_ignore k.same_verbose k.more_objects k.more_polls (Extends-refl s.found));
  appends = λ v s.
      Frame-of s _ refl refl refl refl refl refl (le_refl _) (le_refl _) (Extends-append v s.found);
  object_ids = λ s.
      Frame-of s _ refl refl refl refl refl refl (omega arith) (le_refl _) (Extends-refl s.found);
  polling = λ E s.
      Frame-of s _ refl refl refl refl refl refl (le_refl _) (omega arith) (Extends-refl s.found);
}

pub Kept-Related : {A : Type 0} {m m' : M A} → Related frame_logic m m' → Kept A m m'
unfolding frame_logic
Kept-Related h = h.at

-- A call with enough fuel that returns leaves the fields that handlers set for a while as they were,
-- adds to the end of the list it was given or leaves nil, and never takes a counter back.
pub exec-Frame :
    (E : Env) (f : ℕ) (node : Ref) (v : Value) (u : Bool) (s : State)
    → rank node u < f
    → Ends (Frame s) (exec E f node v u s)
exec-Frame E f node v u s h = Kept-Related (Related-exec E f f node v u h (le_refl f)) s

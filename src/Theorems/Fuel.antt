-- ===== src/Theorems/Fuel.antt =====
-- The fuel of the model: an instance of the logic in which two actions agree and do not run out.
use sqljson.Prelude.{ℕ, ◌<◌, ◌≤◌, ◌≡◌, refl, Bool}
use sqljson.Json.{Value}
use sqljson.Ast.{Ref}
use sqljson.Exec.Env.{Env}
use sqljson.Exec.State.{
  State, M, Ran, ran, panicked, exhausted, ◌>>=◌, pure, panic, gets, silently, with_current,
  with_base, with_array_size, ignoring, with_nil, with_list, append, next_object_id, poll, scope,
  after,
}
use sqljson.Exec.Dispatch.{exec}
use sqljson.Logic.{Logic, Related}
use sqljson.Logic.Next.{rank}
use sqljson.Logic.Dispatch.{Related-exec}

-- The action came to an end: it returned, or it panicked.
abbrev pub HasEnded : {A : Type 0} → Ran A → Type 0
HasEnded (ran a s) = Unit
HasEnded panicked = Unit
HasEnded exhausted = ⊥

abbrev pub Agree : (A : Type 0) → M A → M A → Type 0
Agree A m m' = (s : State) → (m s ≡ m' s) × HasEnded (m s)

Agree-after :
    {A B : Type 0} (r r' : Ran A) (k k' : A → State → Ran B)
    → r ≡ r'
    → HasEnded r
    → ((a : A) (s : State) → (k a s ≡ k' a s) × HasEnded (k a s))
    → (after r k ≡ after r' k') × HasEnded (after r k)
Agree-after (ran a s) r' k k' e h both = (rw (← e) (both a s).0, (both a s).1)
Agree-after panicked r' k k' e h both = (rw (← e), tt)
Agree-after exhausted r' k k' e h both = absurd h

Agree-scope :
    (A : Type 0) (enter : State → State) (leave : State → State → State) (m m' : M A)
    → Agree A m m'
    → Agree A (scope enter leave m) (scope enter leave m')
unfolding scope
Agree-scope A enter leave m m' h s =
    Agree-after _ _ _ _ (h (enter s)).0 (h (enter s)).1 (λ a t. (refl, tt))

pub fuel_logic : Logic
unfolding ◌>>=◌ pure panic gets silently with_current with_base with_array_size ignoring with_nil
    with_list append next_object_id poll
fuel_logic = record {
  Rel = Agree;
  pures = λ A a s. (refl, tt);
  panics = λ A s. (refl, tt);
  getters = λ A f s. (refl, tt);
  binds = λ A B m m' f f' h k s. Agree-after _ _ _ _ (h s).0 (h s).1 (λ a t. k a t);
  silent = λ A m m'. Agree-scope A _ _ m m';
  current = λ A v m m'. Agree-scope A _ _ m m';
  base = λ A a i m m'. Agree-scope A _ _ m m';
  array_size = λ A n m m'. Agree-scope A _ _ m m';
  ignores = λ A m m'. Agree-scope A _ _ m m';
  nils = λ A m m'. Agree-scope A _ _ m m';
  lists = λ A m m' h s. Agree-after _ _ _ _ (h _).0 (h _).1 (λ a t. (refl, tt));
  appends = λ v s. (refl, tt);
  object_ids = λ s. (refl, tt);
  polling = λ E s. (refl, tt);
}

pub Agree-Related : {A : Type 0} {m m' : M A} → Related fuel_logic m m' → Agree A m m'
unfolding fuel_logic
Agree-Related h = h.at

-- A call of executeItemOptUnwrapTarget with fuel above the rank of its node ends, and more fuel
-- makes no difference to its result or to the state.
pub exec_agree :
    (E : Env) (f g : ℕ) (node : Ref) (v : Value) (u : Bool) (s : State)
    → rank node u < f
    → f ≤ g
    → (exec E f node v u s ≡ exec E g node v u s) × HasEnded (exec E f node v u s)
exec_agree E f g node v u s h le = Agree-Related (Related-exec E f g node v u h le) s

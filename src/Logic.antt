-- ===== src/Logic.antt =====
-- A logic of the actions of path/exec: a relation between two actions that every way of building
-- actions keeps. The lemmas below go through the handlers once, for every logic; an invariant of the
-- executor is an instance of them.
pub mod Next
pub mod Booleans
pub mod Dispatch
pub mod Items
pub mod Methods
pub mod Query
use sqljson.Prelude.{ℕ, Bool, true, false, List, if◌then◌else◌}
use sqljson.Prelude.Int.{ℤ}
use sqljson.Json.{Value}
use sqljson.Exec.Error.{Err, Out}
use sqljson.Exec.Env.{Env}
use sqljson.Exec.State.{
  State, M, ◌>>=◌, pure, panic, gets, silently, with_current, with_base, with_array_size, ignoring,
  with_nil, with_list, append, next_object_id, poll, no_list, found_size, return_verbose_error,
  return_error, unless_existence,
}

pub record Logic : Type 1 where
  pub Rel : (A : Type 0) → M A → M A → Type 0
  pub pures : (A : Type 0) (a : A) → Rel A (pure a) (pure a)
  pub panics : (A : Type 0) → Rel A panic panic
  pub getters : (A : Type 0) (f : State → A) → Rel A (gets f) (gets f)
  pub binds :
      (A B : Type 0) (m m' : M A) (f f' : A → M B)
      → Rel A m m'
      → ((a : A) → Rel B (f a) (f' a))
      → Rel B (m >>= f) (m' >>= f')
  pub silent : (A : Type 0) (m m' : M A) → Rel A m m' → Rel A (silently m) (silently m')
  pub current :
      (A : Type 0) (v : Value) (m m' : M A)
      → Rel A m m'
      → Rel A (with_current v m) (with_current v m')
  pub base :
      (A : Type 0) (a i : ℕ) (m m' : M A) → Rel A m m' → Rel A (with_base a i m) (with_base a i m')
  pub array_size :
      (A : Type 0) (n : ℤ) (m m' : M A)
      → Rel A m m'
      → Rel A (with_array_size n m) (with_array_size n m')
  pub ignores : (A : Type 0) (m m' : M A) → Rel A m m' → Rel A (ignoring m) (ignoring m')
  pub nils : (A : Type 0) (m m' : M A) → Rel A m m' → Rel A (with_nil m) (with_nil m')
  pub lists :
      (A : Type 0) (m m' : M A) → Rel A m m' → Rel (A × List Value) (with_list m) (with_list m')
  pub appends : (v : Value) → Rel (Unit {0}) (append v) (append v)
  pub object_ids : Rel ℕ next_object_id next_object_id
  pub polling : (E : Env) → Rel Bool (poll E) (poll E)

pub record Related (L : Logic) {A : Type 0} (m m' : M A) : Type 0 where
  pub at : L.Rel A m m'

module _ {L : Logic} where
  pub Related-pure : {A : Type 0} (a : A) → Related L (pure a) (pure a)
  Related-pure {A} a = record { at = L.pures A a }

  pub Related-panic : (A : Type 0) → Related L {A = A} panic panic
  Related-panic A = record { at = L.panics A }

  pub Related-gets : {A : Type 0} (f : State → A) → Related L (gets f) (gets f)
  Related-gets {A} f = record { at = L.getters A f }

  pub Related-bind :
      {A B : Type 0} {m m' : M A} {f f' : A → M B}
      → Related L m m'
      → ((a : A) → Related L (f a) (f' a))
      → Related L (m >>= f) (m' >>= f')
  Related-bind {A} {B} {m} {m'} {f} {f'} h k = record {
    at = L.binds A B m m' f f' h.at (λ a. (k a).at);
  }

  pub Related-silently :
      {A : Type 0} {m m' : M A} → Related L m m' → Related L (silently m) (silently m')
  Related-silently h = record { at = L.silent _ _ _ h.at }

  pub Related-with_current :
      {A : Type 0} (v : Value) {m m' : M A}
      → Related L m m'
      → Related L (with_current v m) (with_current v m')
  Related-with_current v h = record { at = L.current _ v _ _ h.at }

  pub Related-with_base :
      {A : Type 0} (a i : ℕ) {m m' : M A}
      → Related L m m'
      → Related L (with_base a i m) (with_base a i m')
  Related-with_base a i h = record { at = L.base _ a i _ _ h.at }

  pub Related-with_array_size :
      {A : Type 0} (n : ℤ) {m m' : M A}
      → Related L m m'
      → Related L (with_array_size n m) (with_array_size n m')
  Related-with_array_size n h = record { at = L.array_size _ n _ _ h.at }

  pub Related-ignoring :
      {A : Type 0} {m m' : M A} → Related L m m' → Related L (ignoring m) (ignoring m')
  Related-ignoring h = record { at = L.ignores _ _ _ h.at }

  pub Related-with_nil :
      {A : Type 0} {m m' : M A} → Related L m m' → Related L (with_nil m) (with_nil m')
  Related-with_nil h = record { at = L.nils _ _ _ h.at }

  pub Related-with_list :
      {A : Type 0} {m m' : M A} → Related L m m' → Related L (with_list m) (with_list m')
  Related-with_list h = record { at = L.lists _ _ _ h.at }

  pub Related-append : (v : Value) → Related L (append v) (append v)
  Related-append v = record { at = L.appends v }

  pub Related-next_object_id : Related L next_object_id next_object_id
  Related-next_object_id = record { at = L.object_ids }

  pub Related-poll : (E : Env) → Related L (poll E) (poll E)
  Related-poll E = record { at = L.polling E }

  pub Related-no_list : Related L no_list no_list
  unfolding no_list
  Related-no_list = Related-gets _

  pub Related-found_size : Related L found_size found_size
  unfolding found_size
  Related-found_size = Related-gets _

  pub Related-return_verbose_error :
      (e : Err) → Related L (return_verbose_error e) (return_verbose_error e)
  unfolding return_verbose_error
  Related-return_verbose_error e = Related-gets _

  pub Related-return_error : (e : Err) → Related L (return_error e) (return_error e)
  unfolding return_error
  Related-return_error e = Related-gets _

  pub Related-if :
      {A : Type 0} (b : Bool) {m m' n n' : M A}
      → Related L m m'
      → Related L n n'
      → Related L (if b then m else n) (if b then m' else n')
  Related-if true h k = h
  Related-if false h k = k

  pub Related-unless_existence :
      (b : Bool) {m m' : M Out}
      → Related L m m'
      → Related L (unless_existence b m) (unless_existence b m')
  unfolding unless_existence
  Related-unless_existence b h = Related-bind Related-no_list (λ w. Related-if _ (Related-pure _) h)

pub ruleset relations = (
  Related-pure, Related-panic, Related-gets, Related-bind, Related-silently, Related-with_current,
  Related-with_base, Related-with_array_size, Related-ignoring, Related-with_nil, Related-with_list,
  Related-append, Related-next_object_id, Related-poll, Related-no_list, Related-found_size,
  Related-return_verbose_error, Related-return_error, Related-if, Related-unless_existence,
)

-- ===== src/Exec/State.antt =====
-- The state that an execution changes: the assigned fields of `Executor` (path/exec/exec.go) and
-- the list `found` of the call at hand. An action may also panic; `exhausted` says that the fuel of
-- the model ran out.
use sqljson.Prelude.{
  ℕ, suc, Bool, true, false, ◌||◌, not, ◌&&◌, Option, none, some, List, [], ◌∷◌, ◌++◌, length,
  is_none, if◌then◌else◌,
}
use sqljson.Prelude.Int.{ℤ}
use mathlib.Core.Option
use sqljson.Json.{Value}
use sqljson.Exec.Error.{ok, failed, Err, is_verbose, Out}
use sqljson.Exec.Env.{Env}

pub record State : Type 0 where
  pub current : Value
  -- baseObject
  pub base_address : ℕ
  pub base_id : ℕ
  pub last_generated_object_id : ℕ
  pub innermost_array_size : ℤ
  pub ignore_structural_errors : Bool
  pub verbose : Bool
  -- how often the context was polled
  pub polls : ℕ
  -- the `found` parameter: nil, or a valueList
  pub found : Option (List Value)

pub data Ran (A : Type 0) : Type 0 where
  ran : A → State → Ran A
  panicked exhausted : Ran A

abbrev pub M : Type 0 → Type 0
M A = State → Ran A

abbrev pub after : {A B : Type 0} → Ran A → (A → State → Ran B) → Ran B
after (ran a s) k = k a s
after panicked k = panicked
after exhausted k = exhausted

infixl 5 ◌>>=◌ ◌>>◌
unfoldable pub ◌>>=◌ : {A B : Type 0} → M A → (A → M B) → M B
◌>>=◌ m f s = after (m s) f

abbrev pub ◌>>◌ : {A B : Type 0} → M A → M B → M B
m >> n = m >>= λ _. n

module _ {A : Type 0} where
  unfoldable pub pure : A → M A
  pure a s = ran a s

  unfoldable pub panic : M A
  panic s = panicked

  unfoldable pub out_of_fuel : M A
  out_of_fuel s = exhausted

  unfoldable pub gets : (State → A) → M A
  gets f s = ran (f s) s

  -- An action in a changed state; what it changed for the while is put back.
  unfoldable pub scope : (State → State) → (State → State → State) → M A → M A
  scope enter leave m s = after (m (enter s)) (λ a s'. ran a (leave s s'))

  -- exec.verbose = false, put back by a deferred call
  unfoldable pub silently : M A → M A
  unfolding scope
  silently = scope (λ s. record s { verbose = false }) (λ s s'. record s' { verbose = s.verbose })

  -- exec.current = value, put back by a deferred call
  unfoldable pub with_current : Value → M A → M A
  unfolding scope
  with_current v = scope (λ s. record s { current = v }) (λ s s'. record s' { current = s.current })

  -- defer exec.setTempBaseObject(obj, id)()
  unfoldable pub with_base : ℕ → ℕ → M A → M A
  unfolding scope
  with_base address id =
      scope (λ s. record s { base_address = address; base_id = id })
        (λ s s'. record s' { base_address = s.base_address; base_id = s.base_id })

  -- exec.innermostArraySize = size, put back by a deferred call
  unfoldable pub with_array_size : ℤ → M A → M A
  unfolding scope
  with_array_size size =
      scope (λ s. record s { innermost_array_size = size })
        (λ s s'. record s' { innermost_array_size = s.innermost_array_size })

  -- defer exec.tempSetIgnoreStructuralErrors(true)()
  unfoldable pub ignoring : M A → M A
  unfolding scope
  ignoring =
      scope (λ s. record s { ignore_structural_errors = true })
        (λ s s'. record s' { ignore_structural_errors = s.ignore_structural_errors })

  -- the call is given nil for `found`
  unfoldable pub with_nil : M A → M A
  unfolding scope
  with_nil = scope (λ s. record s { found = none }) (λ s s'. record s' { found = s.found })

abbrev pub list_of : Option (List Value) → List Value
list_of none = []
list_of (some l) = l

-- The call is given a new list, which comes back beside its result.
unfoldable pub with_list : {A : Type 0} → M A → M (A × List Value)
with_list m s =
    after (m (record s { found = some [] }))
      (λ a s'. ran (a, list_of s'.found) (record s' { found = s.found }))

-- if found != nil { found.append(v) }
unfoldable pub append : Value → M (Unit {0})
append v s = ran tt (record s { found = Option.map (λ l. l ++ v ∷ []) s.found })

-- exec.lastGeneratedObjectID++, and the new number
unfoldable pub next_object_id : M ℕ
next_object_id s =
    ran (suc s.last_generated_object_id)
      (record s { last_generated_object_id = suc s.last_generated_object_id })

-- found == nil
unfoldable pub no_list : M Bool
unfolding gets
no_list = gets (λ s. is_none s.found)

-- len(found.list), or 0
unfoldable pub found_size : M ℕ
unfolding gets
found_size = gets (λ s. length (list_of s.found))

-- whether the context is done
unfoldable pub poll : Env → M Bool
poll E s = ran (E.done s.polls) (record s { polls = suc s.polls })

unfoldable pub return_verbose_error : Err → M Out
unfolding gets
return_verbose_error e = gets (λ s. if s.verbose then (failed, some e) else (failed, none))

unfoldable pub return_error : Err → M Out
unfolding gets
return_error e =
    gets (λ s. if s.verbose || not (is_verbose e) then (failed, some e) else (failed, none))

-- if next == nil && found == nil { return statusOK, nil }: what follows is `m` otherwise
unfoldable pub unless_existence : Bool → M Out → M Out
unless_existence is_last m = do
  none_wanted ← no_list
  if is_last && none_wanted then pure (ok, none) else m

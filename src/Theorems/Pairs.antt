-- ===== src/Theorems/Pairs.antt =====
-- The loop of path/exec/predicate.go over the pairs of two sequences, and what it decides.
use sqljson.Prelude.{
  Bool, true, false, ◌||◌, ◌≡◌, refl, ap, ◌∙◌, none, List, [], ◌∷◌, if◌then◌else◌,
}
use sqljson.Json.{Value}
use sqljson.Exec.Error.{Pred, unknown}
use sqljson.Exec.State.{State, M, ran, ◌>>=◌, pure, after}
use sqljson.Exec.Predicate.{
  Callback, Search, return, continue, judge, verdict, right_loop, left_loop, check_pairs,
  after_search,
}
use sqljson.Exec.Boolean.{is_true, is_unknown_pred}

abbrev pub any_item : (Value → Bool) → List Value → Bool
any_item t [] = false
any_item t (v ∷ vs) = t v || any_item t vs

-- some pair of the two sequences passes the test
abbrev pub any_pair : (Value → Value → Bool) → List Value → List Value → Bool
any_pair t [] rs = false
any_pair t (l ∷ ls) rs = any_item (t l) rs || any_pair t ls rs

-- What the loop is to decide: in strict mode an unknown pair outweighs a true one, in lax mode a true
-- pair outweighs an unknown one.
abbrev pub decide : Bool → Bool → Bool → Pred
decide true some_true some_unknown =
    if some_unknown then unknown else if some_true then Pred.true else Pred.false
decide false some_true some_unknown =
    if some_true then Pred.true else if some_unknown then unknown else Pred.false

-- What a loop returns, from `hasErr` and `found` as they are and the tests of the pairs to come.
abbrev outcome : Bool → Bool → Bool → Bool → Bool → Search
outcome true has_err found some_true some_unknown =
    if some_unknown then return (unknown, none) else continue has_err (found || some_true)
outcome false has_err found some_true some_unknown =
    if some_true then return (Pred.true, none) else continue (has_err || some_unknown) found

or_true : (b : Bool) → (b || true) ≡ true
or_true true = refl
or_true false = refl

or_false : (b : Bool) → (b || false) ≡ b
or_false true = refl
or_false false = refl

or_assoc : (a b c : Bool) → ((a || b) || c) ≡ (a || (b || c))
or_assoc true b c = refl
or_assoc false b c = refl

outcome_end :
    (strict has_err found : Bool)
    → outcome strict has_err found false false ≡ continue has_err found
outcome_end true has_err found = rw (or_false found)
outcome_end false has_err found = rw (or_false has_err)

after_judge :
    (strict : Bool) (p : Pred) (k : Bool → Bool → M Search) (has_err found mt mu : Bool) (s : State)
    → ((he f : Bool) → k he f s ≡ ran (outcome strict he f mt mu) s)
    → after_search (judge strict (p, none) has_err found) k s
      ≡ ran (outcome strict has_err found (is_true p || mt) (is_unknown_pred p || mu)) s
unfolding judge pure
after_judge true Pred.true k he f mt mu s h = rw (h he true, or_true f)
after_judge true Pred.false k he f mt mu s h = h he f
after_judge true unknown k he f mt mu s h = refl
after_judge false Pred.true k he f mt mu s h = refl
after_judge false Pred.false k he f mt mu s h = h he f
after_judge false unknown k he f mt mu s h = rw (h true f, or_true he)

-- one loop behind another
after_loop :
    (strict he f t1 u1 t2 u2 : Bool) (k : Bool → Bool → M Search) (s : State)
    → ((he' f' : Bool) → k he' f' s ≡ ran (outcome strict he' f' t2 u2) s)
    → after_search (outcome strict he f t1 u1) k s
      ≡ ran (outcome strict he f (t1 || t2) (u1 || u2)) s
unfolding pure
after_loop true he f t1 true t2 u2 k s h = refl
after_loop true he f t1 false t2 u2 k s h = rw (h he (f || t1), or_assoc)
after_loop false he f true u1 t2 u2 k s h = refl
after_loop false he f false u1 t2 u2 k s h = rw (h (he || u1) f, or_assoc)

decided : (strict t u : Bool) → verdict (outcome strict false false t u) ≡ (decide strict t u, none)
unfolding verdict
decided true t true = refl
decided true true false = refl
decided true false false = refl
decided false true u = refl
decided false false true = refl
decided false false false = refl

module _ (strict : Bool) (callback : Callback) (c : Value → Value → Pred) where
  abbrev Pure : Type 0
  Pure = (l r : Value) (s : State) → callback l r s ≡ ran (c l r, none) s

  abbrev true_at : Value → Value → Bool
  true_at l r = is_true (c l r)

  abbrev unknown_at : Value → Value → Bool
  unknown_at l r = is_unknown_pred (c l r)

  right_loop_lem :
      Pure
      → (l : Value) (rs : List Value) (has_err found : Bool) (s : State)
      → right_loop strict callback l rs has_err found s
        ≡ ran
            (outcome strict has_err found (any_item (true_at l) rs) (any_item (unknown_at l) rs))
            s
  unfolding right_loop ◌>>=◌ pure
  right_loop_lem h l [] has_err found s = rw outcome_end
  right_loop_lem h l (r ∷ rs) has_err found s =
      ap
        (λ x.
          after x (λ out.
            after_search (judge strict out has_err found) (right_loop strict callback l rs)))
        (h l r s)
      ∙ after_judge strict (c l r) _ has_err found _ _ s (λ he f. right_loop_lem h l rs he f s)

  left_loop_lem :
      Pure
      → (ls rs : List Value) (has_err found : Bool) (s : State)
      → left_loop strict callback ls rs has_err found s
        ≡ ran (outcome strict has_err found (any_pair true_at ls rs) (any_pair unknown_at ls rs)) s
  unfolding left_loop ◌>>=◌ pure
  left_loop_lem h [] rs has_err found s = rw outcome_end
  left_loop_lem h (l ∷ ls) rs has_err found s =
      ap (λ x. after x (λ search. after_search search (left_loop strict callback ls rs)))
        (right_loop_lem h l rs has_err found s)
      ∙ after_loop strict has_err found _ _ _ _ _ s (λ he f. left_loop_lem h ls rs he f s)

-- With a callback that returns the outcome `c l r` without an error, the loop over the pairs returns
-- `unknown` or `true` by the rule of the mode: in strict mode an unknown pair outweighs the true
-- ones, in lax mode a true pair outweighs the unknown ones, and else the outcome is false.
pub check_pairs_lem :
    (strict : Bool) (callback : Callback) (c : Value → Value → Pred)
    → ((l r : Value) (s : State) → callback l r s ≡ ran (c l r, none) s)
    → (ls rs : List Value) (s : State)
    → check_pairs strict callback ls rs s
      ≡ ran
          (
            decide strict
                (any_pair (λ l r. is_true (c l r)) ls rs)
                (any_pair (λ l r. is_unknown_pred (c l r)) ls rs),
            none,
          )
          s
unfolding check_pairs ◌>>=◌ pure
check_pairs_lem strict callback c h ls rs s =
    rw (left_loop_lem strict callback c h ls rs false false s, decided)

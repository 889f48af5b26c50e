-- ===== src/Theorems/Kleene.antt =====
-- The connectives of path/exec/boolean.go are those of Kleene's three-valued logic.
use sqljson.Prelude.{ℕ, Bool, true, false, ◌≡◌, ◌||◌, is_some, refl, none, some, if◌then◌else◌, leb}
use sqljson.Exec.Error.{Pred, unknown, PredOut}
use sqljson.Exec.State.{State, M, Ran, ran, panicked, exhausted, ◌>>=◌, pure, after}
use sqljson.Exec.Boolean.{both, either, negation, is_true, is_false}

-- False below unknown below true: conjunction is the minimum, disjunction the maximum.
abbrev pub height : Pred → ℕ
height Pred.false = 0
height unknown = 1
height Pred.true = 2

abbrev pub lower : Pred → Pred → Pred
lower p q = if leb (height p) (height q) then p else q

abbrev pub higher : Pred → Pred → Pred
higher p q = if leb (height p) (height q) then q else p

abbrev pub is_pred_false : Pred → Bool
is_pred_false Pred.false = true
is_pred_false _ = false

abbrev pub is_pred_true : Pred → Bool
is_pred_true Pred.true = true
is_pred_true _ = false

-- Where the operands return without an error, `&&` is the minimum of their outcomes, and a false
-- left operand keeps the right one from running.
pub both_kleene :
    (left right : M PredOut) (p q : Pred) (s t u : State)
    → left s ≡ ran (p, none) t
    → right t ≡ ran (q, none) u
    → both left right s ≡ ran (lower p q, none) (if is_pred_false p then t else u)
unfolding both ◌>>=◌ pure
both_kleene left right Pred.false Pred.false s t u h k = rw h
both_kleene left right Pred.false unknown s t u h k = rw h
both_kleene left right Pred.false Pred.true s t u h k = rw h
both_kleene left right unknown Pred.false s t u h k = rw (h, k)
both_kleene left right unknown unknown s t u h k = rw (h, k)
both_kleene left right unknown Pred.true s t u h k = rw (h, k)
both_kleene left right Pred.true Pred.false s t u h k = rw (h, k)
both_kleene left right Pred.true unknown s t u h k = rw (h, k)
both_kleene left right Pred.true Pred.true s t u h k = rw (h, k)

-- Where the operands return without an error, `||` is the maximum of their outcomes, and a true left
-- operand keeps the right one from running.
pub either_kleene :
    (left right : M PredOut) (p q : Pred) (s t u : State)
    → left s ≡ ran (p, none) t
    → right t ≡ ran (q, none) u
    → either left right s ≡ ran (higher p q, none) (if is_pred_true p then t else u)
unfolding either ◌>>=◌ pure
either_kleene left right Pred.false Pred.false s t u h k = rw (h, k)
either_kleene left right Pred.false unknown s t u h k = rw (h, k)
either_kleene left right Pred.false Pred.true s t u h k = rw (h, k)
either_kleene left right unknown Pred.false s t u h k = rw (h, k)
either_kleene left right unknown unknown s t u h k = rw (h, k)
either_kleene left right unknown Pred.true s t u h k = rw (h, k)
either_kleene left right Pred.true Pred.false s t u h k = rw h
either_kleene left right Pred.true unknown s t u h k = rw h
either_kleene left right Pred.true Pred.true s t u h k = rw h

-- A run that returns comes without an error.
abbrev pub IsQuiet : Ran PredOut → Type 0
IsQuiet (ran (p, none) s) = Unit
IsQuiet (ran (p, some e) s) = ⊥
IsQuiet panicked = Unit
IsQuiet exhausted = Unit

abbrev pub negated : M PredOut → M PredOut
negated m = m >>= λ out. pure (negation out)

-- the second operand, behind a first one that does not decide
negated_right :
    (res : Pred) (r : Ran PredOut)
    → is_false res ≡ false
    → IsQuiet r
    → after
        (after r (λ out. pure (if is_true out.0 then (res, out.1) else out)))
        (λ out. pure (negation out))
      ≡ after
          (after r (λ out. pure (negation out)))
          (λ out. pure (if is_false out.0 then negation (res, none) else out))
unfolding pure negation
negated_right Pred.true (ran (Pred.true, none) s) d q = refl
negated_right Pred.true (ran (Pred.false, none) s) d q = refl
negated_right Pred.true (ran (unknown, none) s) d q = refl
negated_right unknown (ran (Pred.true, none) s) d q = refl
negated_right unknown (ran (Pred.false, none) s) d q = refl
negated_right unknown (ran (unknown, none) s) d q = refl
negated_right Pred.false r d q = cc
negated_right res (ran (p, some e) s) d q = absurd q
negated_right res panicked d q = refl
negated_right res exhausted d q = refl

negated_left :
    (r : Ran PredOut) (right : M PredOut)
    → IsQuiet r
    → ((s : State) → IsQuiet (right s))
    → after
        (after r λ out.
          if is_false out.0 || is_some out.1
          then pure out
          else right >>= λ out2. pure (if is_true out2.0 then (out.0, out2.1) else out2))
        (λ out. pure (negation out))
      ≡ after (after r (λ out. pure (negation out))) (λ out.
        if is_true out.0 || is_some out.1
        then pure out
        else (right >>= λ out2. pure (negation out2)) >>= λ out2.
            pure (if is_false out2.0 then out else out2))
unfolding pure negation ◌>>=◌
negated_left (ran (Pred.false, none) s) right q k = refl
negated_left (ran (Pred.true, none) s) right q k = negated_right Pred.true (right s) refl (k s)
negated_left (ran (unknown, none) s) right q k = negated_right unknown (right s) refl (k s)
negated_left (ran (p, some e) s) right q k = absurd q
negated_left panicked right q k = refl
negated_left exhausted right q k = refl

-- De Morgan's law for operands that never return an error: the negation of `l && r` runs and returns
-- as `!l || !r` does, the panics included.
pub both-negated :
    (left right : M PredOut)
    → ((s : State) → IsQuiet (left s))
    → ((s : State) → IsQuiet (right s))
    → (s : State) → negated (both left right) s ≡ either (negated left) (negated right) s
unfolding both either ◌>>=◌ pure negation
both-negated left right h k s = negated_left (left s) right (h s) k

-- ===== src/Theorems/Parsing/Reductions.antt =====
-- A reduction takes the measure down (Parse of path/parser/grammar.go).
use sqljson.Prelude.{
  ℕ, zero, suc, ◌+◌, ◌-◌, ◌*◌, ◌≤◌, ◌<◌, ◌≡◌, ◌⊎◌, refl, sym, ap, ◌∙◌, true, false, List, [], ◌∷◌,
  nat_eq, arith, if◌then◌else◌, Bool-cases, inl, inr, length,
}
use sqljson.Prelude.Int.{pos, negsuc}
use sqljson.Parser.Token.{Rune}
use sqljson.Parser.Lexer.{add_error, syntax_error}
use sqljson.Parser.Tables.{pact_at, r1_at, r2_at}
use sqljson.Parser.Symbol.{Outside, Sym, zero_sym, Acted, put, put_error, panics}
use sqljson.Parser.Actions.{act}
use sqljson.Parser.Driver.{
  Config, Step, running, returned, crashed, state_of, drop_stack, sym_at, tell_lexer, push_symbol,
  goto_state, reduced, reduce, recover, handle_error, reduce_or_fail, excepted,
}
use sqljson.Theorems.Reading.{IsWell}
use sqljson.Theorems.Reading.Lexing.{remaining}
use sqljson.Theorems.Parsing.Tables.{weight, act-is_shifted, fits, fits-goto}
use sqljson.Theorems.Parsing.Result.{Same-remaining, Same-IsWell, tell_lexer-valid, tell_lexer-Same}

-- A token in hand counts one.
abbrev pub held : Rune → ℕ
held (pos n) = 1
held (negsuc n) = 0

abbrev pub due : Config → ℕ
due c = remaining c.lexer + held c.char

abbrev pub measure : Config → ℕ
measure c = 128 * due c + 32 * length c.stack + weight (state_of c.stack)

pub record IsGoing (c : Config) : Type 0 where
  pub well : IsWell c.lexer
  pub no_error : c.errflag ≡ 0
  pub top : state_of c.stack < 181

-- The round returns, or goes on with less than n.
abbrev pub Down : ℕ → Step → Type 0
Down n (running c) = IsGoing c × (measure c < n)
Down n (returned l) = IsWell l
Down n (crashed l) = IsWell l

recover_lem : (st : List (ℕ × Sym)) (c : Config) → recover st c ≡ returned c.lexer
unfolding recover
recover_lem [] c = refl
recover_lem ((s, v) ∷ st) c =
    ground (arith, recover_lem st c, act-is_shifted (pact_at s + 2 - 1000))

handle_error-Down : (n : ℕ) (c : Config) → IsGoing c → Down n (handle_error c)
unfolding handle_error add_error
handle_error-Down n c h =
    let z : nat_eq c.errflag 0 ≡ true = ground (arith, h.no_error) in
    rw z (rw (recover_lem c.stack (record c { lexer = add_error syntax_error c.lexer })) h.well)

-- The stack is too short, or it loses k entries.
drop_stack-length :
    (k : ℕ) (st : List (ℕ × Sym))
    → (drop_stack k st ≡ []) ⊎ (length (drop_stack k st) + k ≡ length st)
unfolding drop_stack
drop_stack-length zero st = inr (omega arith)
drop_stack-length (suc k) [] = inl refl
drop_stack-length (suc k) (x ∷ st) = elim (drop_stack-length k st) [
  | inl e ↦ inl e
  | inr e ↦ inr (omega arith)
]

-- What a reduction takes down, for any action.
push_symbol-Down :
    (n next : ℕ) (rest : List (ℕ × Sym)) (c : Config) (a : Acted)
    → IsWell c.lexer
    → c.errflag ≡ 0
    → next < 181
    → 128 * due c + 32 * (length rest + 1) + weight next < n
    → Down n (push_symbol next rest c a)
unfolding add_error
push_symbol-Down n next rest c (put s) w e t m =
    (record { well = w; no_error = e; top = t }, omega arith)
push_symbol-Down n next rest c (put_error x s) w e t m = (
  record { well = w; no_error = e; top = t },
  omega (arith, Same-remaining c.lexer (add_error x c.lexer) (refl, refl, refl, refl, refl)),
)
push_symbol-Down n next rest c panics w e t m = w

reduced-Down :
    (o : Outside) (r : ℕ) (st : List (ℕ × Sym)) (c : Config)
    → IsGoing c
    → fits (state_of c.stack) r ≡ true
    → (st ≡ []) ⊎ (length st + r2_at r ≡ length c.stack)
    → Down (measure c) (reduced o r (r2_at r) st c)
unfolding reduced
reduced-Down o r [] c h f e = h.well
reduced-Down o r (x ∷ rest) c h f (inl e) = cc
reduced-Down o r ((below, v) ∷ rest) c h f (inr e) =
    let d : ℕ → Sym = λ i. sym_at c.stack (r2_at r - i) in
    let told = tell_lexer-Same r d c.lexer in
    let g = fits-goto (state_of c.stack) r below f in
    push_symbol-Down (measure c) (goto_state (r1_at r) below) ((below, v) ∷ rest)
      (record c { lexer = tell_lexer r d c.lexer })
      (act o r d (if nat_eq (r2_at r) 0 then zero_sym else d 1))
      (Same-IsWell c.lexer (tell_lexer r d c.lexer) told h.well
        (tell_lexer-valid r d c.lexer h.well.2))
      h.no_error g.0 (omega (arith, Same-remaining c.lexer (tell_lexer r d c.lexer) told))

reduce-Down :
    (o : Outside) (r : ℕ) (c : Config)
    → IsGoing c
    → fits (state_of c.stack) r ≡ true
    → Down (measure c) (reduce o r c)
unfolding reduce
reduce-Down o r c h f =
    reduced-Down o r (drop_stack (r2_at r) c.stack) c h f (drop_stack-length (r2_at r) c.stack)

pub reduce_or_fail-Down :
    (o : Outside) (r : ℕ) (c : Config)
    → IsGoing c
    → (r ≡ 0) ⊎ (fits (state_of c.stack) r ≡ true)
    → Down (measure c) (reduce_or_fail o r c)
reduce_or_fail-Down o r c h p = elim (Bool-cases (nat_eq r 0)) [
  | inl e ↦ rw e (handle_error-Down (measure c) c h)
  | inr e ↦ rw e (reduce-Down o r c h (found p e))
]
  where
    found :
        (r ≡ 0) ⊎ (fits (state_of c.stack) r ≡ true)
        → nat_eq r 0 ≡ false
        → fits (state_of c.stack) r ≡ true
    found (inl z) e = absurd (ground arith)
    found (inr f) e = f

pub excepted-Down :
    (o : Outside) (c : Config) (n : ℕ)
    → IsGoing c
    → (n ≤ 1) ⊎ (fits (state_of c.stack) (n - 1) ≡ true)
    → Down (measure c) (excepted o c n)
excepted-Down o c zero h p = h.well
excepted-Down o c (suc n) h (inl p) = reduce_or_fail-Down o n c h (inl (omega arith))
excepted-Down o c (suc n) h (inr p) =
    let e : suc n - 1 ≡ n = omega arith in
    reduce_or_fail-Down o n c h (inr (ap (fits (state_of c.stack)) (sym e) ∙ p))

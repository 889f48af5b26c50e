-- ===== src/Theorems/Parsing/Ends.antt =====
-- The loop of the generated parser ends (Parse of path/parser/grammar.go).
use sqljson.Prelude.{
  ℕ, zero, suc, ◌<◌, ◌≡◌, ◌≢◌, refl, sym, ap, ◌∙◌, false, List, [], ◌∷◌, Str, arith, none, some,
}
use sqljson.Ast.{Ast}
use sqljson.Ast.Validate.{validate_ref}
use sqljson.Parser.Lexer.{Lexer, LexError, new_lexer}
use sqljson.Parser.Symbol.{Outside}
use sqljson.Parser.Driver.{
  Config, Step, running, returned, crashed, step, Run, finished, run, initial, parse, Parsed,
  parsed, enough, outcome, going_on, first_error,
}
use sqljson.Theorems.Reading.{IsWell, fault_of}
use sqljson.Theorems.Parsing.Tables.{weight-le}
use sqljson.Theorems.Parsing.Reductions.{measure, IsGoing, Down}
use sqljson.Theorems.Parsing.Rounds.{step-Down}

-- The loop has returned, with a result that is valid if there is one, or it has panicked.
Settles : Run → Type 0
Settles (finished l) = IsWell l
Settles (Run.panicked l) = IsWell l
Settles Run.exhausted = ⊥

going_on-Settles :
    (next : Config → Run) (n : ℕ) (s : Step)
    → Down n s
    → ((c : Config) → IsGoing c → measure c < n → Settles (next c))
    → Settles (going_on next s)
unfolding Settles
going_on-Settles next n (running c) d f = f c d.0 d.1
going_on-Settles next n (returned l) d f = d
going_on-Settles next n (crashed l) d f = d

run-Settles : (o : Outside) (n : ℕ) (c : Config) → IsGoing c → measure c < n → Settles (run o n c)
unfolding run
run-Settles o zero c h lt = absurd (omega arith)
run-Settles o (suc n) c h lt =
    going_on-Settles (run o n) (measure c) (step o c) (step-Down o c h)
      (λ d g less. run-Settles o n d g (omega arith))

initial-IsGoing : (path : Str) → IsGoing (initial (new_lexer path))
unfolding new_lexer fault_of
initial-IsGoing path = record {
  well = (omega arith, refl, refl, refl);
  no_error = refl;
  top = omega arith;
}

initial-measure : (path : Str) → measure (initial (new_lexer path)) < enough path
unfolding new_lexer
initial-measure path = omega (arith, weight-le 0)

parse-Settles :
    (o : Outside) (path : Str) → Settles (run o (enough path) (initial (new_lexer path)))
parse-Settles o path =
    run-Settles o (enough path) (initial (new_lexer path)) (initial-IsGoing path)
      (initial-measure path)

outcome-ne-exhausted : (r : Run) → Settles r → outcome r ≢ Parsed.exhausted
unfolding Settles
outcome-ne-exhausted (finished l) h = rw h.3 (told l l.errors)
  where
    told : (l : Lexer) (es : List LexError) → first_error l es ≢ Parsed.exhausted
    told l [] = λ e. cc
    told l (x ∷ es) = λ e. cc
outcome-ne-exhausted (Run.panicked l) h = rw h.3 (λ e. cc)
outcome-ne-exhausted Run.exhausted h = absurd h

-- Parse ends on every path: it returns a syntax tree or an error, or it panics, and neither the loop of
-- the parser nor a loop of the lexer runs out of the fuel of the model.
pub parse-ne-exhausted : (o : Outside) (path : Str) → parse o path ≢ Parsed.exhausted
unfolding parse
parse-ne-exhausted o path =
    outcome-ne-exhausted (run o (enough path) (initial (new_lexer path))) (parse-Settles o path)

outcome-valid :
    (r : Run) {a : Ast} → Settles r → outcome r ≡ parsed (some a) → fault_of (some a) ≡ none
unfolding Settles
outcome-valid (finished l) {a} h = rw h.3 (told l l.errors h)
  where
    told :
        (l : Lexer) (es : List LexError)
        → IsWell l
        → first_error l es ≡ parsed (some a)
        → fault_of (some a) ≡ none
    told l [] w e = let r : l.result ≡ some a = cc in ap fault_of (sym r) ∙ w.2
    told l (x ∷ es) w e = cc
outcome-valid (Run.panicked l) h = rw h.3 (λ e. cc)
outcome-valid Run.exhausted h = λ e. cc

-- A path that Parse accepts has each `@` inside a filter and each `last` inside a subscript: validateNode
-- finds no fault in the tree.
pub parse-valid :
    (o : Outside) (path : Str) (a : Ast)
    → parse o path ≡ parsed (some a)
    → validate_ref a.root 0 false ≡ none
unfolding parse fault_of
parse-valid o path a e =
    outcome-valid (run o (enough path) (initial (new_lexer path))) (parse-Settles o path) e

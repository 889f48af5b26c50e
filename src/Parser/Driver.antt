-- ===== src/Parser/Driver.antt =====
-- The loop of the generated parser (Parse and pathlex1 of path/parser/grammar.go), and Parse of
-- path/parser/parser.go.
use sqljson.Prelude.{
  ℕ, zero, suc, ◌+◌, ◌-◌, ◌*◌, Bool, true, ◌&&◌, Str, List, [], ◌∷◌, ◌++◌, Option, none, some,
  nat_eq, leb, ltb, length, if◌then◌else◌,
}
use sqljson.Prelude.Int.{pos, negsuc}
use sqljson.Ast.{Ast}
use sqljson.Ast.Validate.{new, Made, made, refused}
use sqljson.Parser.Token.{Rune, stop}
use sqljson.Parser.Lexer.{
  Lexer, LexError, invalid_path, new_lexer, add_error, has_error, syntax_error,
}
use sqljson.Parser.Lex.{lex}
use sqljson.Parser.Tables.{
  act_at, pact_at, pgo_at, r1_at, r2_at, chk_at, def_at, tok1_at, tok2_at, path_exca,
}
use sqljson.Parser.Symbol.{Outside, Val, ref_of, Sym, zero_sym, Acted, put, put_error, panics}
use sqljson.Parser.Actions.{act}

-- The stack has its top first. `char` is -1 where no token is at hand; `token` is read only where
-- one is. `sym` is pathVAL, and `lval` the text of the token.
pub record Config : Type 0 where
  pub stack : List (ℕ × Sym)
  pub char : Rune
  pub token : ℕ
  pub errflag : ℕ
  pub lval : Str
  pub sym : Sym
  pub lexer : Lexer

-- The end of a round: another one, the return of 0 or 1, or a panic.
pub data Step : Type 0 where
  running : Config → Step
  returned : Lexer → Step
  crashed : Lexer → Step

-- The translation of pathlex1.
unfoldable pub token_number : Rune → ℕ
token_number (negsuc n) = tok1_at 0
token_number (pos c) =
    let t =
      if ltb c 126
      then tok1_at c
      else if leb 57344 c && ltb c 57395
      then tok2_at (c - 57344)
      else 0 in
    if nat_eq t 0 then tok2_at 1 else t

abbrev pub take_token : Config → (Rune × Str) × Lexer → Config
take_token c ((ch, text), l) = record c {
  char = ch;
  token = token_number ch;
  lval = text;
  lexer = l;
}

-- if char < 0 { char, token = pathlex1(lexer, &lval) }
unfoldable pub fetch : Outside → Rune → Config → Config
unfolding lex token_number
fetch o (pos n) c = c
fetch o (negsuc n) c = take_token c (lex o.xid c.lexer)

unfoldable pub with_token : Outside → Config → Config
unfolding fetch
with_token o c = fetch o c.char c

abbrev pub state_of : List (ℕ × Sym) → ℕ
state_of [] = 0
state_of ((s, v) ∷ st) = s

abbrev pub no_token : Config → Config
no_token c = record c { char = stop; token = 0 }

-- setResult
unfoldable pub set_made : Made → Lexer → Lexer
set_made (made a) l = record l { result = some a }
set_made (refused f) l = record l { result = none; errors = l.errors ++ (invalid_path f ∷ []) }

unfoldable pub set_result : Bool → Val → Lexer → Lexer
unfolding set_made new
set_result lax v l = if has_error l then l else set_made (new lax l.pred (ref_of v)) l

-- pathS without its upper n entries, and the entry with the number i from the lowest of the n on.
unfoldable pub drop_stack : ℕ → List (ℕ × Sym) → List (ℕ × Sym)
drop_stack zero st = st
drop_stack (suc n) [] = []
drop_stack (suc n) (x ∷ st) = drop_stack n st

unfoldable pub sym_at : List (ℕ × Sym) → ℕ → Sym
sym_at [] n = zero_sym
sym_at ((s, v) ∷ st) zero = v
sym_at (x ∷ st) (suc n) = sym_at st n

-- The calls of the lexer in the actions 1 and 3.
unfoldable pub tell_lexer : ℕ → (ℕ → Sym) → Lexer → Lexer
unfolding set_result
tell_lexer r d l =
    if nat_eq r 1
    then set_result (d 1).boolean (d 2).value l
    else if nat_eq r 3
    then record l { pred = true }
    else l

abbrev pub push_symbol : ℕ → List (ℕ × Sym) → Config → Acted → Step
push_symbol next rest c (put s) = running (record c { stack = (next, s) ∷ rest; sym = s })
push_symbol next rest c (put_error m s) =
    running (record c { stack = (next, s) ∷ rest; sym = s; lexer = add_error m c.lexer })
push_symbol next rest c panics = crashed c.lexer

-- The goto table: the state behind a reduction to the nonterminal `a`.
unfoldable pub goto_state : ℕ → ℕ → ℕ
goto_state a below =
    let g = pgo_at a in
    let j = g + below + 1 in
    if leb 251 j
    then act_at g
    else if nat_eq (chk_at (act_at j) + a) 1000
    then act_at j
    else act_at g

-- Behind the pop of a reduction by rule r with k symbols; Go panics where the stack is too short. An
-- empty rule finds an old value in pathVAL, of which it sets the only field that is read.
unfoldable pub reduced : Outside → ℕ → ℕ → List (ℕ × Sym) → Config → Step
unfolding goto_state act tell_lexer sym_at
reduced o r k [] c = crashed c.lexer
reduced o r k ((below, v) ∷ rest) c =
    let d : ℕ → Sym = λ i. sym_at c.stack (k - i) in
    let s : Sym = if nat_eq k 0 then zero_sym else d 1 in
    push_symbol (goto_state (r1_at r) below) ((below, v) ∷ rest)
      (record c { lexer = tell_lexer r d c.lexer }) (act o r d s)

unfoldable pub reduce : Outside → ℕ → Config → Step
unfolding reduced drop_stack
reduce o r c = reduced o r (r2_at r) (drop_stack (r2_at r) c.stack) c

-- The search for a state that shifts `error`, from the top of the stack.
unfoldable pub recover : List (ℕ × Sym) → Config → Step
recover [] c = returned c.lexer
recover ((s, v) ∷ st) c =
    let n = pact_at s + 2 in
    let next = act_at (n - 1000) in
    let rest = recover st c in
    if leb 1000 n && (ltb n 1251 && nat_eq (chk_at next) 1002)
    then running (record c { stack = (next, c.sym) ∷ (s, v) ∷ st; errflag = 3 })
    else rest

unfoldable pub handle_error : Config → Step
unfolding recover
handle_error c =
    if nat_eq c.errflag 0
    then recover c.stack (record c { lexer = add_error syntax_error c.lexer })
    else if leb c.errflag 2
    then recover c.stack c
    else if nat_eq c.token 1
    then returned c.lexer
    else running (no_token c)

abbrev pub reduce_or_fail : Outside → ℕ → Config → Step
reduce_or_fail o r c = if nat_eq r 0 then handle_error c else reduce o r c

-- The exception table: the action plus 1, for the state and the token.
unfoldable pub exception : ℕ → ℕ → List (ℕ × ℕ × ℕ × ℕ) → ℕ
exception state token [] = 1
exception state token ((s, t, one, other) ∷ rest) =
    let later = exception state token rest in
    if nat_eq s state then (if nat_eq t token then one else other) else later

abbrev pub excepted : Outside → Config → ℕ → Step
excepted o c zero = returned c.lexer
excepted o c (suc r) = reduce_or_fail o r c

-- From pathdefault on.
unfoldable pub default_action : Outside → Config → Step
unfolding exception handle_error reduce with_token
default_action o c =
    let n = def_at (state_of c.stack) in
    if nat_eq n 0
    then (let c' = with_token o c in
        excepted o c' (exception (state_of c'.stack) c'.token path_exca))
    else reduce_or_fail o (n - 2) c

abbrev pub shift : ℕ → Config → Config
shift next c =
    let s = record zero_sym { str = c.lval } in
    record c {
      stack = (next, s) ∷ c.stack;
      char = stop;
      token = 0;
      errflag = c.errflag - 1;
      sym = s;
    }

-- A valid shift, or the default action.
unfoldable pub try_shift : Outside → ℕ → Config → Step
unfolding default_action
try_shift o n c =
    let next = act_at (n - 1000) in
    if leb 1000 n && (ltb n 1251 && nat_eq (chk_at next) (c.token + 1000))
    then running (shift next c)
    else default_action o c

-- From pathnewstate on.
unfoldable pub step : Outside → Config → Step
unfolding try_shift default_action with_token
step o c =
    let n = pact_at (state_of c.stack) in
    if nat_eq n 0
    then default_action o c
    else (let c' = with_token o c in try_shift o (n + c'.token) c')

pub data Run : Type 0 where
  finished panicked : Lexer → Run
  exhausted : Run

abbrev pub going_on : (Config → Run) → Step → Run
going_on next (running c) = next c
going_on next (returned l) = finished l
going_on next (crashed l) = panicked l

unfoldable pub run : Outside → ℕ → Config → Run
run o zero c = exhausted
run o (suc n) c = going_on (run o n) (step o c)

abbrev pub initial : Lexer → Config
initial l = record {
  stack = (0, zero_sym) ∷ [];
  char = stop;
  token = 0;
  errflag = 0;
  lval = [];
  sym = zero_sym;
  lexer = l;
}

-- What Parse returns, or a panic.
pub data Parsed : Type 0 where
  parsed : Option Ast → Parsed
  parse_error : LexError → Parsed
  panicked exhausted : Parsed

abbrev pub first_error : Lexer → List LexError → Parsed
first_error l [] = parsed l.result
first_error l (e ∷ es) = parse_error e

abbrev pub outcome : Run → Parsed
outcome (finished l) = if l.starved then exhausted else first_error l l.errors
outcome (Run.panicked l) = if l.starved then exhausted else panicked
outcome Run.exhausted = exhausted

-- Enough rounds for a path of this length.
abbrev pub enough : Str → ℕ
enough path = (length path + 2) * 1000

-- Parse
unfoldable pub parse : Outside → Str → Parsed
unfolding run new_lexer step
parse o path = outcome (run o (enough path) (initial (new_lexer path)))

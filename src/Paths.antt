-- ===== src/Paths.antt =====
-- Package path (path/path.go): the parser and the executor behind one type, and its use as a column
-- of a database and as text.
use sqljson.Prelude.{Bool, Str, bytes, Option, none, some, List, [], ◌∷◌, if◌then◌else◌}
use sqljson.Json.{Value}
use sqljson.Ast.{Ast}
use sqljson.Ast.Printer.{Format, ast_string}
use sqljson.Parser.Lexer.{LexError}
use sqljson.Parser.Symbol.{Outside}
use sqljson.Parser.Driver.{parse, Parsed, parsed, parse_error}
use sqljson.Exec.Env.{Env}
use sqljson.Exec.Query.{Answer, answer, null_error, fails, query_values, first, exists, match}

-- Path: a pointer to a syntax tree, which may be nil.
abbrev pub Held : Type 0
Held = Option Ast

-- New
abbrev pub new_path : Ast → Held
new_path a = some a

-- newExec takes the mode of the executor from the tree.
abbrev pub on : Env → Ast → Env
on e a = record e { lax = a.lax }

-- A method of a nil tree panics.
abbrev pub of_ast : {A : Type 0} → Held → (Ast → Answer A) → Answer A
of_ast none k = Answer.crash
of_ast (some a) k = k a

-- The methods that run the path; the environment holds the document and the options.
unfoldable pub path_query : Env → Bool → Held → Answer (List Value)
path_query e v p = of_ast p (λ a. query_values (on e a) v a.root)

unfoldable pub path_first : Env → Bool → Held → Answer Value
path_first e v p = of_ast p (λ a. first (on e a) v a.root)

unfoldable pub path_exists : Env → Bool → Held → Answer Bool
path_exists e v p = of_ast p (λ a. exists (on e a) v a.root)

unfoldable pub path_match : Env → Bool → Held → Answer Bool
path_match e v p = of_ast p (λ a. match (on e a) v a.root)

unfoldable pub exists_or_match : Env → Bool → Held → Answer Bool
unfolding path_exists path_match
exists_or_match e v p =
    of_ast p (λ a. if a.pred then path_match e v (some a) else path_exists e v (some a))

-- if err != nil { panic(err) }
abbrev pub must : {A : Type 0} → Answer A → Answer A
must (answer x) = answer x
must null_error = Answer.crash
must (fails e) = Answer.crash
must Answer.crash = Answer.crash
must Answer.no_fuel = Answer.no_fuel

-- MustQuery, the method
unfoldable pub path_must_query : Env → Bool → Held → Answer (List Value)
unfolding path_query
path_must_query e v p = must (path_query e v p)

-- IsPredicate and PgIndexOperator; `none` is a panic
abbrev pub is_predicate : Held → Option Bool
is_predicate none = none
is_predicate (some a) = some a.pred

abbrev pub pg_index_operator : Held → Option Str
pg_index_operator none = none
pg_index_operator (some a) = some (if a.pred then bytes "@@" else bytes "@?")

-- String, and Value, MarshalBinary and MarshalText
unfoldable pub path_string : Format → Held → Option Str
path_string f none = none
path_string f (some a) = some (ast_string f a)

unfoldable pub marshal : Format → Held → Option Str
unfolding path_string
marshal f p = path_string f p

-- What Scan is given.
pub data Source : Type 0 where
  nothing anything_else : Source
  of_string of_bytes : Str → Source

-- The error of Scan or UnmarshalBinary, if any, or a panic.
pub data Report : Type 0 where
  fine unable crashed out_of_fuel : Report
  scan_error : LexError → Report

-- MustParse(text), and a method of its result
abbrev pub must_parse : {A : Type 0} → Parsed → (Held → Answer A) → Answer A
must_parse (parsed p) k = k p
must_parse (parse_error e) k = Answer.crash
must_parse Parsed.panicked k = Answer.crash
must_parse Parsed.exhausted k = Answer.no_fuel

-- The assignment to the receiver, behind the test of the error.
abbrev pub store : Held → Parsed → Report × Held
store p (parsed q) = (fine, q)
store p (parse_error e) = (scan_error e, p)
store p Parsed.panicked = (crashed, p)
store p Parsed.exhausted = (out_of_fuel, p)

module _ (o : Outside) where
  -- Parse; the error is wrapped
  unfoldable pub parse_path : Str → Parsed
  parse_path text = parse o text

  -- MustQuery, the function
  unfoldable pub must_query : Str → Env → Bool → Answer (List Value)
  unfolding path_must_query
  must_query text e v = must_parse (parse o text) (path_must_query e v)

  unfoldable pub scan_text : Str → Held → Report × Held
  scan_text [] p = (fine, p)
  scan_text (c ∷ s) p = store p (parse o (c ∷ s))

  -- Scan
  unfoldable pub scan : Source → Held → Report × Held
  unfolding scan_text
  scan nothing p = (fine, p)
  scan (of_string s) p = scan_text s p
  scan (of_bytes s) p = scan_text s p
  scan anything_else p = (unable, p)

  -- UnmarshalBinary and UnmarshalText
  unfoldable pub unmarshal : Str → Held → Report × Held
  unmarshal bs p = store p (parse o bs)

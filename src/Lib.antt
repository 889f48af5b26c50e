-- ===== src/Lib.antt =====
-- sqljson, SQL/JSON path expressions in Go: the lexer and the parser of package path/parser, the
-- syntax tree of package path/ast, the executor of package path/exec, and package path.
--
-- Parse (path/parser/parser.go) runs the automaton that goyacc generates (path/parser/grammar.go) on
-- the tokens of Lex (path/parser/lex.go). Its actions build the tree, and setResult validates it.
-- A path is a tree of nodes (path/ast/ast.go) that are linked by a `next` node. The executor
-- (path/exec) takes the tree and a decoded JSON document and runs it node by node. Each handler is
-- given an item, computes the values of its node and calls the next one with each of them, through
-- executeItemOptUnwrapTarget. A handler returns a status (ok, not found, failed) and an error, and the
-- last node of a path appends its values to the list `found`; where `found` is nil only existence is
-- asked and the run stops at the first value. Boolean items are evaluated in three-valued logic, on
-- pairs of items of two sequences.
--
-- The files, and the code that each is about:
--   Prelude, Prelude/Tests, Prelude/Lists, Prelude/Int: shared names, tests into Bool, lists and byte
--     strings over the native numbers, signed integers and the wrap-around of int64.
--   Prelude/Loops: a loop with a test in front, on fuel.
--   Golang, Golang/Decimal, Golang/ParseInt, Golang/Utf8, Golang/Quote, Golang/Sort: what is used of
--     the standard library: bit patterns of float64, prefixes and the order of strings, ParseInt,
--     Atoi and FormatInt, runes and their bytes, strconv.Quote, and slices.Sort on strings.
--   Json: the Go types that the executor tells apart in an `any`.
--   Ast, Ast/Size: the node types of path/ast/ast.go, and the number of nodes of a path.
--   Ast/Build, Ast/Validate: LinkNodes, NewAny, validateNode and New of path/ast/ast.go.
--   Ast/Number: NewInteger, NewNumeric and NewUnaryOrNumber of path/ast/ast.go.
--   Ast/Printer: the String and writeTo methods and the priorities of path/ast/ast.go.
--   Ast/Regex: the flags of regular expressions (path/ast/regex.go).
--   Parser/Token, Parser/Chars, Parser/Lexer, Parser/Escape, Parser/Text, Parser/Number, Parser/Lex:
--     path/parser/lex.go: tokens and key words, tests on characters, the state of the lexer and how it
--     reads and reports, escapes, strings with identifiers and variables, numbers, and Lex.
--   Parser/Tables, Parser/Symbol, Parser/Actions, Parser/Driver: path/parser/grammar.go: its tables,
--     the values of symbols, the action of each rule, and the loop of Parse, with setResult and with
--     Parse of path/parser/parser.go.
--   Parser/Tests: runs of the parser.
--   Exec/Error: statuses, outcomes and errors (path/exec/exec.go, path/exec/predicate.go).
--   Exec/Env: what an execution reads: options, target, and what lies outside the package.
--   Exec/State: the assigned fields of Executor and `found`, and actions on them.
--   Exec/Query: Query, First, Exists, Match, query (path/exec/exec.go, path/exec/execution.go).
--   Exec/Next: executeItem, executeItemOptUnwrapResult, executeItemOptUnwrapResultSilent and
--     executeNextItem (path/exec/execution.go).
--   Exec/Dispatch: executeItemOptUnwrapTarget, and execBinaryNode, execUnaryNode, execRegexNode and
--     execAnyNode (path/exec/op.go).
--   Exec/AnyItem: executeAnyItem (path/exec/op.go), executeItemUnwrapTargetArray.
--   Exec/Array (path/exec/array.go), Exec/Boolean (path/exec/boolean.go), Exec/Predicate
--     (path/exec/predicate.go), Exec/Compare (path/exec/compare.go), Exec/Const (path/exec/const.go),
--     Exec/Literal (path/exec/literal.go), Exec/Math (path/exec/math.go), Exec/Util
--     (path/exec/util.go), Exec/KeyValue (path/exec/keyvalue.go), Exec/Datetime and
--     Exec/Datetime/Compare (path/exec/datetime.go), Exec/Method, Exec/Method/Number and
--     Exec/Method/Text (path/exec/method.go): a definition for each function, in snake case, with
--     helpers for its branches.
--   Types, Types/Encoding: path/types: constructors, conversions, comparison and ParseTime, and the
--     JSON forms.
--   Paths: package path (path/path.go), which joins the parser to the executor.
--   Exec/Sample, Exec/Sample/Tests: parameters, paths and documents for tests, and runs of them.
--   Logic: relations between two actions that every way to build actions keeps, and, in its children,
--     a lemma for each handler: a relation of this kind holds of the whole executor.
--   Theorems: in Fuel and Frame, two instances of it; in Reading, how far each function of the lexer
--     reads; in Parsing, that a measure goes down in each round of the parser; in Quoting, how the
--     lexer reads a printed string; in Signs, number literals with signs; in Paths, the parser and the
--     executor together; in Clocks and Encoding, dates and times; in the others, what single
--     parts compute; in Tests, the theorems at concrete inputs.
--
-- State. A handler is an action on a record of the fields that the Go code assigns: `current`,
-- `baseObject` as an address and an identifier, `lastGeneratedObjectID`, `innermostArraySize`,
-- `ignoreStructuralErrors`, `verbose`, the list `found`, and how often the context was asked whether
-- it is done. What the code puts back by a deferred call is put back by a scope around an action. In
-- executeAnyItem and .keyvalue() the deferred call runs at the end of the function and not of the
-- round of the loop; nothing reads the fields between the two.
--
-- The lexer is a record of the fields of the Go struct and of `starved` (below), and its functions are actions on it that
-- always return; a token is a rune, as in Go. The tables of the parser hold the numbers of the Go
-- tables, some with a constant added so that none is negative. The stack of the parser is a list, and
-- a rule finds the value of an entry that is not there to be empty.
--
-- Panics are outcomes of an action. Errors carry a kind (verbose, execution, invalid) and a message
-- without the values that the Go code formats into it.
--
-- Fuel. A handler is given executeItemOptUnwrapTarget as `run`. The recursion spends one unit of fuel
-- for each call. The nodes of nested calls are smaller, or the node is the same and the flag
-- `unwrap` is cleared, so twice the number of nodes and two are enough (`enough` of Exec/Query).
-- A loop of the lexer has two units more than there are bytes left; where that does not suffice, the
-- lexer sets a field that the Go struct has not, `starved`, and never clears it, and the outcome of
-- the parser is then `exhausted`, as it is where its own loop runs out. The loop of the parser has a
-- thousand rounds for each byte and two thousand more (`enough` of Parser/Driver): each round takes a
-- token, shortens the stack, or goes down in a weight of the states.
--
-- Parameters. The tables of the package xid, whether regexp/syntax accepts a pattern, the tables of
-- unicode.IsPrint, and how json.Marshal writes a float64. For the executor, the arithmetic of
-- float64 and its conversions, the time zone of the context, and time.Parse and Format, the
-- operations of path/types on single values (Types gives them for a time zone; there, a date is the
-- number of days since 1970 and a time of day its hour, minute, second and nanosecond), the matching of
-- regular expressions, the state of the context at the n-th question, and the addresses of the
-- objects that .keyvalue() makes. The fields of a map are listed in the order in which Go iterates
-- over it.
--
-- Not modelled: the debug output and the verbose messages of path/parser/grammar.go; the methods that
-- only read a field; and the code that stringer generates (the names stand in Ast/Printer). The nodes
-- that LinkNodes changes are new, so the tree has no aliases.
pub mod Prelude
pub mod Golang
pub mod Ast
pub mod Json
pub mod Parser
pub mod Exec
pub mod Paths
pub mod Types
pub mod Logic
pub mod Theorems

-- ===== src/Theorems/Tests/Parsing.antt =====
-- The theorems on the lexer and the parser, at concrete inputs.
use sqljson.Prelude.{◌≡◌, ◌≢◌, ◌≤◌, ◌<◌, refl, arith, false, true, none, some, ◌++◌, bytes, Str}
use sqljson.Prelude.Int.{pos}
use sqljson.Golang.Decimal.{minus}
use sqljson.Golang.Quote.{quote_string}
use sqljson.Ast.{integer_node, nil, UnaryOperator}
use sqljson.Ast.Number.{new_unary_or_number}
use sqljson.Ast.Validate.{validate_ref}
use sqljson.Parser.Token.{string_p}
use sqljson.Parser.Chars.{is_negative}
use sqljson.Parser.Lexer.{new_lexer}
use sqljson.Parser.Lex.{lex}
use sqljson.Parser.Driver.{parse, Parsed}
use sqljson.Parser.Tests.{ascii, outside, filter_path, filter_ast, filter_tree}
use sqljson.Exec.Sample.{floats}
use sqljson.Golang.ParseInt.{parse_any_int, read_any_base, read_base}
use sqljson.Theorems.Reading.{IsWell, fault_of}
use sqljson.Theorems.Reading.Lexing.{lex_lem, remaining}
use sqljson.Theorems.Parsing.Ends.{parse-valid, parse-ne-exhausted}
use sqljson.Theorems.Quoting.Token.{lex-quote_string}
use sqljson.Paths.{scan, of_string, must_query}
use sqljson.Theorems.Answers.{IsSettled}
use sqljson.Theorems.Tests.{lax_env}
use sqljson.Theorems.Paths.{Assigns, scan-Assigns, must_query-IsSettled}
use sqljson.Theorems.Signs.{minus-integer}

parse-valid_example : validate_ref filter_ast.root 0 false ≡ none
parse-valid_example = parse-valid outside filter_path filter_ast filter_tree

parse-ne-exhausted_example : parse outside (bytes "$.a == ") ≢ Parsed.exhausted
parse-ne-exhausted_example = parse-ne-exhausted outside (bytes "$.a == ")

-- The lexer in front of a path.
fresh-IsWell : (path : Str) → IsWell (new_lexer path)
unfolding new_lexer fault_of
fresh-IsWell path = (omega arith, refl, refl, refl)

lex_lem_example :
    IsWell (lex ascii (new_lexer (bytes "/* a */ $"))).1
    × (remaining (lex ascii (new_lexer (bytes "/* a */ $"))).1
        ≤ remaining (new_lexer (bytes "/* a */ $")))
    × (is_negative (lex ascii (new_lexer (bytes "/* a */ $"))).0.0 ≡ false
        → remaining (lex ascii (new_lexer (bytes "/* a */ $"))).1
          < remaining (new_lexer (bytes "/* a */ $")))
lex_lem_example = lex_lem ascii (new_lexer (bytes "/* a */ $")) (fresh-IsWell (bytes "/* a */ $"))

lex-quote_string_example :
    (lex ascii (new_lexer (quote_string (λ r. true) (bytes "a\"\n") ++ bytes " == $"))).0
    ≡ (string_p, bytes "a\"\n")
lex-quote_string_example =
    lex-quote_string ascii refl (λ r. true) (bytes "a\"\n") (bytes " == $")
      (
        omega arith,
        omega arith,
        (λ e. omega (arith, e)),
        (
          omega arith,
          omega arith,
          (λ e. omega (arith, e)),
          (omega arith, omega arith, (λ e. omega (arith, e)), tt),
        ),
      )

minus-integer_example :
    (new_unary_or_number floats UnaryOperator.minus (integer_node (bytes "0x1F") (pos 31) nil)
      ≡ some (integer_node (bytes "-0x1F") (minus 31) nil))
    × (new_unary_or_number floats UnaryOperator.minus (integer_node (bytes "-0x1F") (minus 31) nil)
        ≡ none)
unfolding parse_any_int read_any_base read_base
minus-integer_example = minus-integer floats b'0' (bytes "x1F") 31 refl refl

scan-Assigns_example :
    Assigns (some filter_ast) (scan outside (of_string (bytes "@.b")) (some filter_ast))
scan-Assigns_example = scan-Assigns outside (of_string (bytes "@.b")) (some filter_ast)

must_query-IsSettled_example : IsSettled (must_query outside (bytes "$.a[1]") lax_env true)
must_query-IsSettled_example = must_query-IsSettled outside (bytes "$.a[1]") lax_env true

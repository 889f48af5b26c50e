-- ===== src/Parser/Tests.antt =====
-- Runs of the parser.
use sqljson.Prelude.{◌≡◌, refl, Str, bytes, ◌&&◌, ◌||◌, leb, nat_eq, true, false, some, str_eq}
use sqljson.Prelude.Int.{pos}
use sqljson.Ast.{
  Ast, to, nil, const_node, Constant, unary_node, binary_node, UnaryOperator, BinaryOperator,
  integer_node, any_node,
}
use sqljson.Ast.Validate.{current_in_root}
use sqljson.Parser.Lexer.{invalid_path, write_rune, peek}
use sqljson.Parser.Symbol.{Outside}
use sqljson.Parser.Driver.{parse, Parsed, parsed, parse_error}
use sqljson.Parser.Chars.{
  Xid, is_whitespace, lower, is_ident_start, is_ident_rune, is_variable_rune, separates,
}
use sqljson.Exec.Sample.{floats}
use sqljson.Golang.Utf8.{decode_rune, encode_rune}
use sqljson.Prelude.Loops.{while}
use sqljson.Parser.Token.{ident_token}
use sqljson.Parser.Lex.{start_token}
use sqljson.Parser.Number.{digits}
use sqljson.Parser.Tables.{
  act_at, pact_at, pgo_at, r1_at, r2_at, chk_at, def_at, tok1_at, tok2_at, path_exca,
}
use sqljson.Ast.Build.{link_nodes, new_any}

-- The tables of xid on ASCII.
abbrev pub ascii : Xid
ascii = record {
  start = λ c. (leb b'a' c && leb c b'z') || (leb b'A' c && leb c b'Z');
  continue = λ c.
      (leb b'a' c && leb c b'z')
      || ((leb b'A' c && leb c b'Z') || ((leb b'0' c && leb c b'9') || nat_eq c b'_'));
}

abbrev pub outside : Outside
outside = record { xid = ascii; floats = floats; regex_parses = λ p f. true }

abbrev pub filter_path : Str
filter_path = bytes "$?(@>1)"

abbrev pub filter_ast : Ast
filter_ast = record {
  root = to (
      const_node Constant.root (
        to (
          unary_node UnaryOperator.filter
            (to (
              binary_node BinaryOperator.greater (to (const_node Constant.current nil))
                (to (integer_node (bytes "1") (pos 1) nil)) nil))
            nil)));
  lax = true;
  pred = false;
}

-- A filter on the root.
pub filter_tree : parse outside filter_path ≡ parsed (some filter_ast)
unfolding decode_rune while is_whitespace lower is_ident_start is_variable_rune separates peek
    start_token digits act_at pact_at pgo_at r1_at r2_at chk_at def_at tok1_at tok2_at path_exca
    parse link_nodes
filter_tree = refl

-- Two signs in front of an integer.
double_minus_panics : parse outside (bytes "- -1") ≡ Parsed.panicked
unfolding decode_rune while is_whitespace lower is_ident_start separates peek start_token digits
    act_at pact_at pgo_at r1_at r2_at chk_at def_at tok1_at tok2_at parse
double_minus_panics = refl

-- A level in hexadecimal digits is read as 0.
hexadecimal_level :
    parse outside (bytes "$.**{0x1}")
    ≡ parsed (
        some (record {
          root = to (const_node Constant.root (to (any_node 0 0 nil)));
          lax = true;
          pred = false;
        }))
unfolding decode_rune while is_whitespace lower is_ident_start is_variable_rune separates peek
    start_token digits act_at pact_at pgo_at r1_at r2_at chk_at def_at tok1_at tok2_at path_exca
    parse link_nodes new_any
hexadecimal_level = refl

-- `@` outside a filter.
current_outside : parse outside (bytes "@.b") ≡ parse_error (invalid_path current_in_root)
unfolding decode_rune encode_rune while ident_token is_whitespace is_ident_start is_ident_rune
    separates write_rune peek start_token act_at pact_at pgo_at r1_at r2_at chk_at def_at tok1_at
    tok2_at path_exca parse link_nodes str_eq
current_outside = refl

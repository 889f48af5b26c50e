-- ===== src/Ast/Number.antt =====
-- Number nodes, and signs in front of them (NewInteger, NewNumeric and NewUnaryOrNumber of
-- path/ast/ast.go). `none` stands for a panic.
use sqljson.Prelude.{Str, ◌||◌, Option, none, some, ◌∷◌, if◌then◌else◌}
use sqljson.Golang.{Floats, is_inf, is_nan}
use sqljson.Golang.ParseInt.{parse_any_int}
use sqljson.Ast.{
  Node, nil, to, next_of, is_nil, numeric_node, integer_node, unary_node, UnaryOperator,
}

-- NewInteger
unfoldable pub new_integer : Str → Option Node
unfolding parse_any_int
new_integer s = elim (parse_any_int s) [ none ↦ none | some n ↦ some (integer_node s n nil) ]

-- NewNumeric, which panics where ParseFloat or json.Marshal fails
unfoldable pub new_numeric : Floats → Str → Option Node
unfolding is_inf is_nan
new_numeric fl s = elim (fl.parse s) [
  | none ↦ none
  | some f ↦ if is_inf f || is_nan f then none else some (numeric_node s f nil)
]

-- The cases for a number with nothing behind it.
unfoldable pub signed_number : Floats → UnaryOperator → Node → Option Node
unfolding new_integer new_numeric
signed_number fl UnaryOperator.plus (numeric_node s f x) = some (numeric_node s f x)
signed_number fl UnaryOperator.minus (numeric_node s f x) = new_numeric fl (b'-' ∷ s)
signed_number fl op (numeric_node s f x) = none
signed_number fl UnaryOperator.plus (integer_node s n x) = some (integer_node s n x)
signed_number fl UnaryOperator.minus (integer_node s n x) = new_integer (b'-' ∷ s)
signed_number fl op (integer_node s n x) = none
signed_number fl op n = some (unary_node op (to n) nil)

-- NewUnaryOrNumber
unfoldable pub new_unary_or_number : Floats → UnaryOperator → Node → Option Node
unfolding signed_number next_of
new_unary_or_number fl op n =
    if is_nil (next_of n) then signed_number fl op n else some (unary_node op (to n) nil)

-- ===== src/Parser/Actions.antt =====
-- The actions of the rules (the switch of Parse in path/parser/grammar.go). `d i` is pathDollar[i], and
-- `s` is pathVAL, whose other fields stay.
use sqljson.Prelude.{
  ℕ, ◌-◌, true, false, ◌||◌, Str, List, [], ◌∷◌, ◌++◌, Option, none, some, nat_eq, leb, get_elem?,
  if◌then◌else◌,
}
use sqljson.Prelude.Int.{pos, negsuc}
use sqljson.Golang.ParseInt.{atoi}
use sqljson.Ast.{
  Node, Ref, nil, to, Nodes, end, more, const_node, method_node, string_node, variable_node,
  key_node, binary_node, unary_node, regex_node, array_index_node, Constant, BinaryOperator,
  UnaryOperator, MethodName,
}
use sqljson.Ast.Build.{new_any}
use sqljson.Ast.Number.{new_integer, new_numeric, new_unary_or_number}
use sqljson.Ast.Regex.{new_regex_flags}
use sqljson.Parser.Lexer.{invalid_regex, decimal_arguments}
use sqljson.Parser.Symbol.{
  Outside, Val, val, broken, ref_of, Sym, Acted, put, put_error, panics, put_node, put_made,
  link_values, nodes_list,
}

abbrev pub Dollar : Type 0
Dollar = ℕ → Sym

abbrev text_of : Dollar → ℕ → Str
text_of d i = (d i).str

abbrev ref_at : Dollar → ℕ → Ref
ref_at d i = ref_of (d i).value

-- pathVAL.value = pathDollar[i].value
abbrev pass_on : Dollar → ℕ → Sym → Acted
pass_on d i s = put (record s { value = (d i).value })

abbrev constant : Constant → Sym → Acted
constant c = put_node (const_node c nil)

-- ast.NewBinary(op, pathDollar[i].value, pathDollar[j].value)
abbrev binary : BinaryOperator → Dollar → ℕ → ℕ → Sym → Acted
binary op d i j = put_node (binary_node op (ref_at d i) (ref_at d j) nil)

-- ast.NewUnary(op, pathDollar[i].value)
abbrev unary : UnaryOperator → Dollar → ℕ → Sym → Acted
unary op d i = put_node (unary_node op (ref_at d i) nil)

abbrev operator : BinaryOperator → Sym → Acted
operator op s = put (record s { optype = op })

-- Rules 2 and 4 to 19: the mode, the literals, and the operators that compare.
unfoldable pub scalar_rules : Outside → ℕ → Dollar → Sym → Acted
unfolding new_integer new_numeric
scalar_rules o r d s =
    if nat_eq r 4
    then put (record s { boolean = false })
    else if nat_eq r 5 || nat_eq r 6
    then put (record s { boolean = true })
    else if nat_eq r 7
    then put_node (string_node (text_of d 1) nil) s
    else if nat_eq r 8
    then constant Constant.null s
    else if nat_eq r 9
    then constant Constant.true s
    else if nat_eq r 10
    then constant Constant.false s
    else if nat_eq r 11
    then put_made (new_numeric o.floats (text_of d 1)) s
    else if nat_eq r 12
    then put_made (new_integer (text_of d 1)) s
    else if nat_eq r 13
    then put_node (variable_node (text_of d 1) nil) s
    else if nat_eq r 14
    then operator BinaryOperator.equal s
    else if nat_eq r 15
    then operator BinaryOperator.not_equal s
    else if nat_eq r 16
    then operator BinaryOperator.less s
    else if nat_eq r 17
    then operator BinaryOperator.greater s
    else if nat_eq r 18
    then operator BinaryOperator.less_or_equal s
    else if nat_eq r 19
    then operator BinaryOperator.greater_or_equal s
    else pass_on d 1 s

-- NewRegex, of an operand, a pattern and flags
unfoldable pub new_regex : Outside → Ref → Str → Str → Option Node
new_regex o operand pattern flags = elim (new_regex_flags flags) [
  | none ↦ none
  | some f ↦ if o.regex_parses pattern f then some (regex_node operand pattern f nil) else none
]

abbrev put_regex : Option Node → Sym → Acted
put_regex none s = put_error invalid_regex (record s { value = broken })
put_regex (some n) s = put_node n s

-- Rules 20 to 32: predicates.
unfoldable pub predicate_rules : Outside → ℕ → Dollar → Sym → Acted
unfolding new_regex
predicate_rules o r d s =
    if nat_eq r 20
    then pass_on d 2 s
    else if nat_eq r 21
    then unary UnaryOperator.exists d 3 s
    else if nat_eq r 22
    then pass_on d 1 s
    else if nat_eq r 23
    then binary (d 2).optype d 1 3 s
    else if nat_eq r 24
    then binary BinaryOperator.and d 1 3 s
    else if nat_eq r 25
    then binary BinaryOperator.or d 1 3 s
    else if nat_eq r 26
    then unary UnaryOperator.not d 2 s
    else if nat_eq r 27
    then unary UnaryOperator.is_unknown d 2 s
    else if nat_eq r 28
    then binary BinaryOperator.starts_with d 1 4 s
    else if nat_eq r 29
    then put_regex (new_regex o (ref_at d 1) (text_of d 3) []) s
    else if nat_eq r 30
    then put_regex (new_regex o (ref_at d 1) (text_of d 3) (text_of d 5)) s
    else if nat_eq r 31
    then put_node (string_node (text_of d 1) nil) s
    else put_node (variable_node (text_of d 1) nil) s

-- ast.NewUnaryOrNumber(op, v), which calls v.Next
abbrev signed : Outside → UnaryOperator → Val → Sym → Acted
signed o op (val (to n)) s = put_made (new_unary_or_number o.floats op n) s
signed o op (val nil) s = panics
signed o op broken s = panics

abbrev put_value : Option Val → Sym → Acted
put_value none s = panics
put_value (some v) s = put (record s { value = v })

-- Rules 33 to 49: primaries, accessors and arithmetic.
unfoldable pub expression_rules : Outside → ℕ → Dollar → Sym → Acted
unfolding link_values new_unary_or_number
expression_rules o r d s =
    if nat_eq r 34
    then constant Constant.root s
    else if nat_eq r 35
    then constant Constant.current s
    else if nat_eq r 36
    then constant Constant.last s
    else if nat_eq r 37
    then put (record s { elems = (d 1).value ∷ [] })
    else if nat_eq r 38 || nat_eq r 39
    then put (record s { elems = (d 2).value ∷ (d 4).value ∷ [] })
    else if nat_eq r 40
    then put (record s { elems = s.elems ++ ((d 2).value ∷ []) })
    else if nat_eq r 41
    then put_value (link_values (d 1).elems) s
    else if nat_eq r 42
    then pass_on d 2 s
    else if nat_eq r 43
    then signed o UnaryOperator.plus (d 2).value s
    else if nat_eq r 44
    then signed o UnaryOperator.minus (d 2).value s
    else if nat_eq r 45
    then binary BinaryOperator.add d 1 3 s
    else if nat_eq r 46
    then binary BinaryOperator.sub d 1 3 s
    else if nat_eq r 47
    then binary BinaryOperator.mul d 1 3 s
    else if nat_eq r 48
    then binary BinaryOperator.div d 1 3 s
    else if nat_eq r 49
    then binary BinaryOperator.mod_of d 1 3 s
    else pass_on d 1 s

abbrev nodes : List Ref → Nodes
nodes [] = end
nodes (r ∷ rs) = more r (nodes rs)

-- Rules 50 to 63: subscripts, `.**` and accessors.
unfoldable pub accessor_rules : ℕ → Dollar → Sym → Acted
unfolding nodes_list atoi
accessor_rules r d s =
    if nat_eq r 50
    then put_node (binary_node BinaryOperator.subscript (ref_at d 1) nil nil) s
    else if nat_eq r 51
    then binary BinaryOperator.subscript d 1 3 s
    else if nat_eq r 52
    then put (record s { indexs = (d 1).value ∷ [] })
    else if nat_eq r 53
    then put (record s { indexs = s.indexs ++ ((d 3).value ∷ []) })
    else if nat_eq r 54
    then constant Constant.any_array s
    else if nat_eq r 55
    then put_node (array_index_node (nodes (nodes_list (d 2).indexs)) nil) s
    else if nat_eq r 56
    then put (record s { integer = atoi (text_of d 1) })
    else if nat_eq r 57
    then put (record s { integer = negsuc 0 })
    else if nat_eq r 58
    then put_node (new_any (pos 0) (negsuc 0)) s
    else if nat_eq r 59
    then put_node (new_any (d 3).integer (d 3).integer) s
    else if nat_eq r 60
    then put_node (new_any (d 3).integer (d 5).integer) s
    else if nat_eq r 61
    then pass_on d 2 s
    else if nat_eq r 62
    then constant Constant.any_key s
    else pass_on d 1 s

-- pathVAL.value = pathDollar[2].method, a nil pointer for `none`
abbrev put_method : Option MethodName → Sym → Acted
put_method none s = put (record s { value = broken })
put_method (some m) s = put_node (method_node m nil) s

-- The arguments of .decimal()
abbrev put_decimal : List Val → Sym → Acted
put_decimal [] s = put_node (binary_node BinaryOperator.decimal nil nil nil) s
put_decimal (a ∷ []) s = put_node (binary_node BinaryOperator.decimal (ref_of a) nil nil) s
put_decimal (a ∷ b ∷ []) s =
    put_node (binary_node BinaryOperator.decimal (ref_of a) (ref_of b) nil) s
put_decimal (a ∷ b ∷ c ∷ vs) s = put_error decimal_arguments s

abbrev signed_integer : Outside → UnaryOperator → Option Node → Sym → Acted
signed_integer o op none s = panics
signed_integer o op (some n) s = put_made (new_unary_or_number o.floats op n) s

-- Rules 64 to 87: filters, methods and their arguments.
unfoldable pub method_rules : Outside → ℕ → Dollar → Sym → Acted
unfolding new_integer new_unary_or_number
method_rules o r d s =
    if nat_eq r 64
    then pass_on d 2 s
    else if nat_eq r 65
    then put_method (d 2).method s
    else if nat_eq r 66
    then unary UnaryOperator.filter d 3 s
    else if nat_eq r 67
    then put_decimal (d 4).elems s
    else if nat_eq r 68
    then put_node (unary_node UnaryOperator.date nil nil) s
    else if nat_eq r 69
    then unary UnaryOperator.date_time d 4 s
    else if nat_eq r 70
    then unary UnaryOperator.time d 4 s
    else if nat_eq r 71
    then unary UnaryOperator.time_tz d 4 s
    else if nat_eq r 72
    then unary UnaryOperator.timestamp d 4 s
    else if nat_eq r 73
    then unary UnaryOperator.timestamp_tz d 4 s
    else if nat_eq r 74 || nat_eq r 81
    then put_made (new_integer (text_of d 1)) s
    else if nat_eq r 75
    then signed_integer o UnaryOperator.plus (new_integer (text_of d 2)) s
    else if nat_eq r 76
    then signed_integer o UnaryOperator.minus (new_integer (text_of d 2)) s
    else if nat_eq r 77
    then put (record s { elems = (d 1).value ∷ [] })
    else if nat_eq r 78
    then put (record s { elems = s.elems ++ ((d 3).value ∷ []) })
    else if nat_eq r 79
    then put (record s { elems = (d 1).elems })
    else if nat_eq r 80
    then put (record s { elems = [] })
    else if nat_eq r 83 || nat_eq r 86
    then put (record s { value = val nil })
    else if nat_eq r 84
    then put_node (string_node (text_of d 1) nil) s
    else if nat_eq r 87
    then put_node (key_node (text_of d 1) nil) s
    else pass_on d 1 s

-- Rules 123 to 134, in the order of the switch.
abbrev method_names : List MethodName
method_names =
    MethodName.abs ∷ MethodName.size ∷ MethodName.type ∷ MethodName.floor ∷ MethodName.double
    ∷ MethodName.ceiling ∷ MethodName.key_value ∷ MethodName.big_int ∷ MethodName.boolean
    ∷ MethodName.integer ∷ MethodName.number ∷ MethodName.string ∷ []

-- The action of rule r, which is none of 1 and 3 but for its value; rules 88 to 122 have no action.
unfoldable pub act : Outside → ℕ → Dollar → Sym → Acted
unfolding scalar_rules predicate_rules expression_rules accessor_rules method_rules
act o r d s =
    if leb r 1
    then put s
    else if leb r 19
    then scalar_rules o r d s
    else if leb r 32
    then predicate_rules o r d s
    else if leb r 49
    then expression_rules o r d s
    else if leb r 63
    then accessor_rules r d s
    else if leb r 87
    then method_rules o r d s
    else if leb r 122
    then put s
    else put (record s { method = get_elem? method_names (r - 123) })

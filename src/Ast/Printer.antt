-- ===== src/Ast/Printer.antt =====
-- The printed form of a path (String, writeTo and priority of path/ast/ast.go). The text that a call
-- of writeTo adds to the buffer is the value of a function.
use sqljson.Prelude.{ℕ, Bool, ◌&&◌, [], ◌∷◌, ◌++◌, Str, bytes, nat_eq, leb, if◌then◌else◌}
use sqljson.Golang.{Float64}
use sqljson.Golang.Decimal.{format_int}
use sqljson.Golang.Decimal as Decimal
use sqljson.Golang.Quote as Quote
use sqljson.Ast.{
  Node, Ref, nil, to, Nodes, end, more, const_node, method_node, string_node, variable_node,
  key_node, numeric_node, integer_node, any_node, binary_node, unary_node, regex_node,
  array_index_node, Constant, BinaryOperator, UnaryOperator, MethodName, Ast,
}
use sqljson.Ast.Build.{unbounded}
use sqljson.Ast.Regex.{flags_string}

-- The table of unicode.IsPrint, and json.Marshal of a `float64`.
pub record Format : Type 0 where
  pub is_print : ℕ → Bool
  pub float_json : Float64 → Str

abbrev constant_name : Constant → Str
constant_name Constant.root = bytes "$"
constant_name Constant.current = bytes "@"
constant_name Constant.last = bytes "last"
constant_name Constant.any_array = bytes "[*]"
constant_name Constant.any_key = bytes "*"
constant_name Constant.true = bytes "true"
constant_name Constant.false = bytes "false"
constant_name Constant.null = bytes "null"

abbrev binary_name : BinaryOperator → Str
binary_name BinaryOperator.and = bytes "&&"
binary_name BinaryOperator.or = bytes "||"
binary_name BinaryOperator.equal = bytes "=="
binary_name BinaryOperator.not_equal = bytes "!="
binary_name BinaryOperator.less = bytes "<"
binary_name BinaryOperator.greater = bytes ">"
binary_name BinaryOperator.less_or_equal = bytes "<="
binary_name BinaryOperator.greater_or_equal = bytes ">="
binary_name BinaryOperator.starts_with = bytes "starts with"
binary_name BinaryOperator.add = bytes "+"
binary_name BinaryOperator.sub = bytes "-"
binary_name BinaryOperator.mul = bytes "*"
binary_name BinaryOperator.div = bytes "/"
binary_name BinaryOperator.mod_of = bytes "%"
binary_name BinaryOperator.subscript = bytes "to"
binary_name BinaryOperator.decimal = bytes ".decimal()"

abbrev unary_name : UnaryOperator → Str
unary_name UnaryOperator.exists = bytes "exists"
unary_name UnaryOperator.not = bytes "!"
unary_name UnaryOperator.is_unknown = bytes "is unknown"
unary_name UnaryOperator.plus = bytes "+"
unary_name UnaryOperator.minus = bytes "-"
unary_name UnaryOperator.filter = bytes "?"
unary_name UnaryOperator.date_time = bytes ".datetime"
unary_name UnaryOperator.date = bytes ".date"
unary_name UnaryOperator.time = bytes ".time"
unary_name UnaryOperator.time_tz = bytes ".time_tz"
unary_name UnaryOperator.timestamp = bytes ".timestamp"
unary_name UnaryOperator.timestamp_tz = bytes ".timestamp_tz"

abbrev method_text : MethodName → Str
method_text MethodName.abs = bytes ".abs()"
method_text MethodName.size = bytes ".size()"
method_text MethodName.type = bytes ".type()"
method_text MethodName.floor = bytes ".floor()"
method_text MethodName.ceiling = bytes ".ceiling()"
method_text MethodName.double = bytes ".double()"
method_text MethodName.key_value = bytes ".keyvalue()"
method_text MethodName.big_int = bytes ".bigint()"
method_text MethodName.boolean = bytes ".boolean()"
method_text MethodName.integer = bytes ".integer()"
method_text MethodName.number = bytes ".number()"
method_text MethodName.string = bytes ".string()"

unfoldable pub binary_priority : BinaryOperator → ℕ
binary_priority BinaryOperator.or = 0
binary_priority BinaryOperator.and = 1
binary_priority BinaryOperator.equal = 2
binary_priority BinaryOperator.not_equal = 2
binary_priority BinaryOperator.less = 2
binary_priority BinaryOperator.greater = 2
binary_priority BinaryOperator.less_or_equal = 2
binary_priority BinaryOperator.greater_or_equal = 2
binary_priority BinaryOperator.starts_with = 2
binary_priority BinaryOperator.add = 3
binary_priority BinaryOperator.sub = 3
binary_priority BinaryOperator.mul = 4
binary_priority BinaryOperator.div = 4
binary_priority BinaryOperator.mod_of = 4
binary_priority BinaryOperator.subscript = 6
binary_priority BinaryOperator.decimal = 6

unfoldable pub unary_priority : UnaryOperator → ℕ
unary_priority UnaryOperator.plus = 5
unary_priority UnaryOperator.minus = 5
unary_priority _ = 6

unfoldable pub priority : Node → ℕ
unfolding binary_priority unary_priority
priority (binary_node op l r x) = binary_priority op
priority (unary_node op o x) = unary_priority op
priority _ = 6

unfoldable pub ref_priority : Ref → ℕ
unfolding priority
ref_priority nil = 6
ref_priority (to n) = priority n

abbrev paren : Bool → ℕ → Str
paren parens c = if parens then c ∷ [] else []

-- The bounds of `.**`, by the switch of AnyNode.writeTo.
unfoldable pub any_text : ℕ → ℕ → Str
any_text first last =
    if nat_eq first 0 && nat_eq last unbounded
    then bytes "**"
    else if nat_eq first last
    then (if nat_eq first unbounded
        then bytes "**{last}"
        else bytes "**{" ++ (Decimal.digits first ++ bytes "}"))
    else if nat_eq first unbounded
    then bytes "**{last to " ++ (Decimal.digits last ++ bytes "}")
    else if nat_eq last unbounded
    then bytes "**{" ++ (Decimal.digits first ++ bytes " to last}")
    else bytes "**{"
      ++ (Decimal.digits first ++ (bytes " to " ++ (Decimal.digits last ++ bytes "}")))

abbrev dot_if : Bool → Str
dot_if in_key = if in_key then b'.' ∷ [] else []

-- A number is in parentheses where something stands behind it.
abbrev number_text : Str → Ref → Str → Str
number_text s nil next = s
number_text s (to n) next = b'(' ∷ (s ++ (b')' ∷ next))

-- `l op r`, and the second parts of `to` and of .decimal()
abbrev infix_text : Bool → Str → BinaryOperator → Str → Str
infix_text parens l op r =
    paren parens b'('
    ++ (l ++ ((b' ' ∷ (binary_name op ++ (b' ' ∷ []))) ++ (r ++ paren parens b')')))

abbrev second_text : Str → Ref → Str → Str
second_text sep nil r = []
second_text sep (to n) r = sep ++ r

abbrev is_any_key : Constant → Bool
is_any_key Constant.any_key = Bool.true
is_any_key _ = Bool.false

abbrev signed_text : Bool → UnaryOperator → Str → Str
signed_text parens op s = paren parens b'(' ++ (unary_name op ++ (s ++ paren parens b')'))

-- The operand is weaker than the operator, or as strong.
abbrev weak : Ref → ℕ → Bool
weak r p = leb (ref_priority r) p

module _ (f : Format) where
  -- n.writeTo(buf, inKey, withParens), or n.String() where `own` is true; the two differ for nodes that
  -- String writes without what is behind them. A nil operand, which Go panics at, writes nothing.
  unfoldable mutual
    unfolding ref_priority any_text

    pub write_node : Node → Bool → Bool → Bool → Str
    write_node (const_node c x) own in_key parens =
        if own
        then constant_name c
        else dot_if (is_any_key c && in_key) ++ (constant_name c ++ write_next x)
    write_node (method_node m x) own in_key parens =
        if own then method_text m else method_text m ++ write_next x
    write_node (string_node s x) own in_key parens =
        if own
        then Quote.quote_string f.is_print s
        else Quote.quote_string f.is_print s ++ write_next x
    write_node (variable_node s x) own in_key parens =
        if own
        then b'$' ∷ Quote.quote_string f.is_print s
        else b'$' ∷ (Quote.quote_string f.is_print s ++ write_next x)
    write_node (key_node s x) own in_key parens =
        if own
        then Quote.quote_string f.is_print s
        else dot_if in_key ++ (Quote.quote_string f.is_print s ++ write_next x)
    write_node (numeric_node s d x) own in_key parens =
        if own then f.float_json d else number_text (f.float_json d) x (write_next x)
    write_node (integer_node s n x) own in_key parens =
        if own then format_int n else number_text (format_int n) x (write_next x)
    write_node (any_node first last x) own in_key parens =
        dot_if in_key ++ (any_text first last ++ write_next x)
    write_node (binary_node BinaryOperator.decimal l r x) own in_key parens =
        bytes ".decimal("
        ++ (write_ref l Bool.true Bool.false Bool.false
            ++ (second_text (bytes ",") r (write_ref r Bool.true Bool.false Bool.false)
                ++ (b')' ∷ write_next x)))
    write_node (binary_node BinaryOperator.subscript l r x) own in_key parens =
        write_ref l Bool.false Bool.false Bool.false
        ++ (second_text (bytes " to ") r (write_ref r Bool.false Bool.false Bool.false)
            ++ write_next x)
    write_node (binary_node op l r x) own in_key parens =
        infix_text parens (write_ref l Bool.false Bool.false (weak l (binary_priority op))) op
          (write_ref r Bool.false Bool.false (weak r (binary_priority op)))
        ++ write_next x
    write_node (unary_node UnaryOperator.exists o x) own in_key parens =
        bytes "exists (" ++ (write_ref o Bool.false Bool.false Bool.false ++ (b')' ∷ write_next x))
    write_node (unary_node UnaryOperator.not o x) own in_key parens =
        bytes "!(" ++ (write_ref o Bool.false Bool.false Bool.false ++ (b')' ∷ write_next x))
    write_node (unary_node UnaryOperator.filter o x) own in_key parens =
        bytes "?(" ++ (write_ref o Bool.false Bool.false Bool.false ++ (b')' ∷ write_next x))
    write_node (unary_node UnaryOperator.is_unknown o x) own in_key parens =
        b'('
        ∷ (write_ref o Bool.false Bool.false Bool.false ++ (bytes ") is unknown" ++ write_next x))
    write_node (unary_node UnaryOperator.plus o x) own in_key parens =
        signed_text parens UnaryOperator.plus (write_ref o Bool.false Bool.false (weak o 5))
        ++ write_next x
    write_node (unary_node UnaryOperator.minus o x) own in_key parens =
        signed_text parens UnaryOperator.minus (write_ref o Bool.false Bool.false (weak o 5))
        ++ write_next x
    write_node (unary_node op o x) own in_key parens =
        unary_name op
        ++ (b'(' ∷ (write_ref o Bool.true Bool.false Bool.false ++ (b')' ∷ write_next x)))
    write_node (regex_node o p flags x) own in_key parens =
        paren parens b'('
        ++ (write_ref o Bool.false Bool.false (weak o 6)
            ++ ((bytes " like_regex " ++ (Quote.quote_string f.is_print p ++ flags_string flags))
                ++ (paren parens b')' ++ write_next x)))
    write_node (array_index_node subs x) own in_key parens =
        b'[' ∷ (write_list subs ++ (b']' ∷ write_next x))

    pub write_ref : Ref → Bool → Bool → Bool → Str
    write_ref nil own in_key parens = []
    write_ref (to n) own in_key parens = write_node n own in_key parens

    -- if next := n.Next(); next != nil { next.writeTo(buf, true, true) }
    pub write_next : Ref → Str
    write_next nil = []
    write_next (to n) = write_node n Bool.false Bool.true Bool.true

    pub write_list : Nodes → Str
    write_list end = []
    write_list (more r end) = write_ref r Bool.false Bool.false Bool.false
    write_list (more r (more q ns)) =
        write_ref r Bool.false Bool.false Bool.false ++ (b',' ∷ write_list (more q ns))

  -- AST.String
  unfoldable pub ast_string : Ast → Str
  unfolding write_node
  ast_string a =
      (if a.lax then [] else bytes "strict ") ++ write_ref a.root Bool.false Bool.false Bool.true

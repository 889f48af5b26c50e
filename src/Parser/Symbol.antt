-- ===== src/Parser/Symbol.antt =====
-- The values on the parser's stack (pathSymType of path/parser/grammar.go), and what lies outside the
-- program.
use sqljson.Prelude.{ℕ, Bool, false, Str, List, [], ◌∷◌, Option, none, some}
use sqljson.Prelude.Int.{ℤ, pos}
use sqljson.Golang.{Floats}
use sqljson.Ast.{Node, Ref, nil, to, BinaryOperator, and, MethodName}
use sqljson.Ast.Build.{link_nodes}
use sqljson.Parser.Chars.{Xid}
use sqljson.Parser.Lexer.{Message}

-- The tables of xid, the conversions of `float64`, and whether regexp/syntax.Parse accepts a pattern
-- with the flags of a mask.
pub record Outside : Type 0 where
  pub xid : Xid
  pub floats : Floats
  pub regex_parses : Str → ℕ → Bool

-- A value of type ast.Node; `broken` is the nil *ast.RegexNode that NewRegex returns with an error.
pub data Val : Type 0 where
  val : Ref → Val
  broken : Val

-- The operand of a node; a path with a broken one has an error and is dropped.
abbrev pub ref_of : Val → Ref
ref_of (val r) = r
ref_of broken = nil

pub record Sym : Type 0 where
  pub str : Str
  pub elems : List Val
  pub indexs : List Val
  pub value : Val
  pub optype : BinaryOperator
  pub method : Option MethodName
  pub boolean : Bool
  pub integer : ℤ

abbrev pub zero_sym : Sym
zero_sym = record {
  str = [];
  elems = [];
  indexs = [];
  value = val nil;
  optype = and;
  method = none;
  boolean = false;
  integer = pos 0;
}

-- What an action does: it sets the value of the rule, it reports an error besides, or it panics.
pub data Acted : Type 0 where
  put : Sym → Acted
  put_error : Message → Sym → Acted
  panics : Acted

abbrev pub put_node : Node → Sym → Acted
put_node n s = put (record s { value = val (to n) })

-- A node whose constructor panics on `none`.
abbrev pub put_made : Option Node → Sym → Acted
put_made none s = panics
put_made (some n) s = put_node n s

-- The nodes behind the first of a list. A nil at the end leaves the list as it is, and one before the
-- end is the receiver of the next call, which panics. No rule gives a broken value to this part of a list.
unfoldable pub nodes_of : List Val → Option (List Node)
nodes_of [] = some []
nodes_of (val (to n) ∷ vs) = elim (nodes_of vs) [ none ↦ none | some ns ↦ some (n ∷ ns) ]
nodes_of (val nil ∷ []) = some []
nodes_of (val nil ∷ w ∷ vs) = none
nodes_of (broken ∷ vs) = none

-- ast.LinkNodes on values: the call of Next on a nil pointer panics.
unfoldable pub link_values : List Val → Option Val
unfolding nodes_of
link_values [] = none
link_values (v ∷ []) = some v
link_values (val (to n) ∷ w ∷ vs) = elim (nodes_of (w ∷ vs)) [
  | none ↦ none
  | some ns ↦ some (val (to (link_nodes n ns)))
]
link_values (val nil ∷ w ∷ vs) = none
link_values (broken ∷ w ∷ vs) = none

unfoldable pub nodes_list : List Val → List Ref
nodes_list [] = []
nodes_list (v ∷ vs) = ref_of v ∷ nodes_list vs

-- ===== src/Ast/Validate.antt =====
-- validateNode of path/ast/ast.go, and New.
use sqljson.Prelude.{ℕ, ◌+◌, Bool, true, false, Option, none, some, if◌then◌else◌, leb}
use sqljson.Ast.{
  Node, Ref, nil, to, Nodes, end, more, Constant, const_node, method_node, string_node,
  variable_node, key_node, numeric_node, integer_node, any_node, binary_node, unary_node,
  regex_node, array_index_node, UnaryOperator, Ast,
}

-- the texts of the two errors
pub data Fault : Type 0 where
  current_in_root last_outside_subscript : Fault

-- if err := ...; err != nil { return err }, and what follows
abbrev pub or_then : Option Fault → Option Fault → Option Fault
or_then (some e) rest = some e
or_then none rest = rest

-- the case *ConstNode
unfoldable pub validate_constant : Constant → ℕ → Bool → Option Fault
validate_constant Constant.current depth in_subscript =
    if leb depth 0 then some current_in_root else none
validate_constant Constant.last depth in_subscript =
    if in_subscript then none else some last_outside_subscript
validate_constant _ depth in_subscript = none

-- depth + argDepth for the operand of an operator
abbrev pub operand_depth : UnaryOperator → ℕ → ℕ
operand_depth UnaryOperator.filter depth = depth + 1
operand_depth _ depth = depth

unfoldable mutual
  unfolding validate_constant

  pub validate_node : Node → ℕ → Bool → Option Fault
  validate_node (const_node c x) d s = or_then (validate_constant c d s) (validate_ref x d s)
  validate_node (method_node m x) d s = validate_ref x d s
  validate_node (string_node t x) d s = validate_ref x d s
  validate_node (variable_node t x) d s = validate_ref x d s
  validate_node (key_node t x) d s = validate_ref x d s
  validate_node (numeric_node t f x) d s = validate_ref x d s
  validate_node (integer_node t i x) d s = validate_ref x d s
  validate_node (any_node a b x) d s = validate_ref x d s
  validate_node (binary_node op l r x) d s =
      or_then (validate_ref l d s) (or_then (validate_ref r d s) (validate_ref x d s))
  validate_node (unary_node op o x) d s =
      or_then (validate_ref o (operand_depth op d) s) (validate_ref x d s)
  validate_node (regex_node o p f x) d s = or_then (validate_ref o d s) (validate_ref x d s)
  validate_node (array_index_node subs x) d s =
      or_then (validate_subscripts subs d) (validate_ref x d s)

  pub validate_ref : Ref → ℕ → Bool → Option Fault
  validate_ref nil d s = none
  validate_ref (to n) d s = validate_node n d s

  -- the loop over the subscripts
  pub validate_subscripts : Nodes → ℕ → Option Fault
  validate_subscripts end d = none
  validate_subscripts (more n ns) d = or_then (validate_ref n d true) (validate_subscripts ns d)

-- New: a syntax tree or an error
pub data Made : Type 0 where
  made : Ast → Made
  refused : Fault → Made

abbrev pub make : Bool → Bool → Ref → Option Fault → Made
make lax pred n (some e) = refused e
make lax pred n none = made (record { root = n; lax = lax; pred = pred })

unfoldable pub new : Bool → Bool → Ref → Made
unfolding validate_node
new lax pred n = make lax pred n (validate_ref n 0 false)

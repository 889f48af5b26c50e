-- ===== src/Theorems/Syntax.antt =====
-- Syntax trees (path/ast/ast.go): what LinkNodes and validateNode do.
use sqljson.Prelude.{
  ℕ, Bool, true, false, ◌≡◌, refl, ap, Option, none, some, List, [], ◌∷◌, ◌++◌, if◌then◌else◌, ltb,
  arith,
}
use mathlib.Core.List.{append-nil}
use sqljson.Ast.{
  Node, Ref, nil, to, Nodes, end, more, Constant, next_of, const_node, method_node, string_node,
  variable_node, key_node, numeric_node, integer_node, any_node, binary_node, unary_node,
  regex_node, array_index_node, UnaryOperator,
}
use sqljson.Ast.Build.{set_next, link_rest, append_node, append_ref, link_nodes}
use sqljson.Ast.Validate.{
  Fault, current_in_root, last_outside_subscript, or_then, validate_constant, operand_depth,
  validate_node, validate_ref, validate_subscripts,
}

-- an occurrence of `@` or `last`: whether a filter and whether a subscript is around it
pub data Use : Type 0 where
  use_current use_last : Bool → Bool → Use

abbrev constant_uses : Constant → Bool → Bool → List Use
constant_uses Constant.current f s = use_current f s ∷ []
constant_uses Constant.last f s = use_last f s ∷ []
constant_uses _ f s = []

-- whether a filter is around the operand
abbrev in_filter : UnaryOperator → Bool → Bool
in_filter UnaryOperator.filter f = true
in_filter _ f = f

-- All the occurrences, in the order of the text. A list of accessors behind a filter or a subscript
-- is outside it.
unfoldable mutual
  pub uses : Node → Bool → Bool → List Use
  uses (const_node c x) f s = constant_uses c f s ++ ref_uses x f s
  uses (method_node m x) f s = ref_uses x f s
  uses (string_node t x) f s = ref_uses x f s
  uses (variable_node t x) f s = ref_uses x f s
  uses (key_node t x) f s = ref_uses x f s
  uses (numeric_node t g x) f s = ref_uses x f s
  uses (integer_node t i x) f s = ref_uses x f s
  uses (any_node a b x) f s = ref_uses x f s
  uses (binary_node op l r x) f s = ref_uses l f s ++ (ref_uses r f s ++ ref_uses x f s)
  uses (unary_node op o x) f s = ref_uses o (in_filter op f) s ++ ref_uses x f s
  uses (regex_node o p g x) f s = ref_uses o f s ++ ref_uses x f s
  uses (array_index_node subs x) f s = subscript_uses subs f ++ ref_uses x f s

  pub ref_uses : Ref → Bool → Bool → List Use
  ref_uses nil f s = []
  ref_uses (to n) f s = uses n f s

  pub subscript_uses : Nodes → Bool → List Use
  subscript_uses end f = []
  subscript_uses (more n ns) f = ref_uses n f true ++ subscript_uses ns f

-- `@` wants a filter around it, `last` a subscript.
abbrev pub fault_of : Use → Option Fault
fault_of (use_current f s) = if f then none else some current_in_root
fault_of (use_last f s) = if s then none else some last_outside_subscript

abbrev pub first_fault : List Use → Option Fault
first_fault [] = none
first_fault (u ∷ us) = or_then (fault_of u) (first_fault us)

or_then_assoc : (a b c : Option Fault) → or_then (or_then a b) c ≡ or_then a (or_then b c)
or_then_assoc (some e) b c = refl
or_then_assoc none b c = refl

first_fault-append :
    (us vs : List Use) → first_fault (us ++ vs) ≡ or_then (first_fault us) (first_fault vs)
first_fault-append [] vs = refl
first_fault-append (u ∷ us) vs = rw (first_fault-append us vs, or_then_assoc)

-- the depth counts the filters around a node
abbrev is_inside : ℕ → Bool
is_inside d = ltb 0 d

constant_lem :
    (c : Constant) (d : ℕ) (s : Bool)
    → validate_constant c d s ≡ first_fault (constant_uses c (is_inside d) s)
unfolding validate_constant
constant_lem Constant.current d s = ground arith
constant_lem Constant.last d true = refl
constant_lem Constant.last d false = refl
constant_lem _ d s = refl

operand_lem :
    (op : UnaryOperator) (d : ℕ) → in_filter op (is_inside d) ≡ is_inside (operand_depth op d)
operand_lem UnaryOperator.filter d = ground arith
operand_lem _ d = refl

mutual
  unfolding uses validate_node

  node_lem :
      (n : Node) (d : ℕ) (s : Bool) → validate_node n d s ≡ first_fault (uses n (is_inside d) s)
  node_lem (const_node c x) d s = rw (constant_lem c d s, ref_lem x d s, first_fault-append)
  node_lem (method_node m x) d s = ref_lem x d s
  node_lem (string_node t x) d s = ref_lem x d s
  node_lem (variable_node t x) d s = ref_lem x d s
  node_lem (key_node t x) d s = ref_lem x d s
  node_lem (numeric_node t g x) d s = ref_lem x d s
  node_lem (integer_node t i x) d s = ref_lem x d s
  node_lem (any_node a b x) d s = ref_lem x d s
  node_lem (binary_node op l r x) d s =
      rw (ref_lem l d s, ref_lem r d s, ref_lem x d s, first_fault-append, first_fault-append)
  node_lem (unary_node op o x) d s =
      rw (ref_lem o (operand_depth op d) s, ref_lem x d s, first_fault-append, operand_lem op d)
  node_lem (regex_node o p g x) d s = rw (ref_lem o d s, ref_lem x d s, first_fault-append)
  node_lem (array_index_node subs x) d s =
      rw (subscripts_lem subs d, ref_lem x d s, first_fault-append)

  ref_lem :
      (n : Ref) (d : ℕ) (s : Bool) → validate_ref n d s ≡ first_fault (ref_uses n (is_inside d) s)
  ref_lem nil d s = refl
  ref_lem (to n) d s = node_lem n d s

  subscripts_lem :
      (ns : Nodes) (d : ℕ)
      → validate_subscripts ns d ≡ first_fault (subscript_uses ns (is_inside d))
  subscripts_lem end d = refl
  subscripts_lem (more n ns) d = rw (ref_lem n d true, subscripts_lem ns d, first_fault-append)

-- validateNode finds the first `@` outside every filter or `last` outside every subscript, and
-- nothing if there is none.
pub validate_ref_lem : (n : Ref) → validate_ref n 0 false ≡ first_fault (ref_uses n false false)
validate_ref_lem n = ref_lem n 0 false

-- The nodes of a list of accessors, each with nothing behind it.
unfoldable mutual
  pub chain : Node → List Node
  chain (const_node c x) = const_node c nil ∷ ref_chain x
  chain (method_node m x) = method_node m nil ∷ ref_chain x
  chain (string_node s x) = string_node s nil ∷ ref_chain x
  chain (variable_node s x) = variable_node s nil ∷ ref_chain x
  chain (key_node s x) = key_node s nil ∷ ref_chain x
  chain (numeric_node s f x) = numeric_node s f nil ∷ ref_chain x
  chain (integer_node s i x) = integer_node s i nil ∷ ref_chain x
  chain (any_node a b x) = any_node a b nil ∷ ref_chain x
  chain (binary_node op l r x) = binary_node op l r nil ∷ ref_chain x
  chain (unary_node op o x) = unary_node op o nil ∷ ref_chain x
  chain (regex_node o p f x) = regex_node o p f nil ∷ ref_chain x
  chain (array_index_node subs x) = array_index_node subs nil ∷ ref_chain x

  pub ref_chain : Ref → List Node
  ref_chain nil = []
  ref_chain (to n) = chain n

abbrev pub bare : List Node → List Node
bare [] = []
bare (n ∷ ns) = set_next n nil ∷ bare ns

-- nodes with nothing behind them
abbrev pub AreSingle : List Node → Type 0
AreSingle [] = Unit
AreSingle (n ∷ ns) = (next_of n ≡ nil) × AreSingle ns

chain-set_next : (n : Node) (x : Ref) → chain (set_next n x) ≡ set_next n nil ∷ ref_chain x
unfolding chain set_next
chain-set_next (const_node c _) x = refl
chain-set_next (method_node m _) x = refl
chain-set_next (string_node s _) x = refl
chain-set_next (variable_node s _) x = refl
chain-set_next (key_node s _) x = refl
chain-set_next (numeric_node s f _) x = refl
chain-set_next (integer_node s i _) x = refl
chain-set_next (any_node a b _) x = refl
chain-set_next (binary_node op l r _) x = refl
chain-set_next (unary_node op o _) x = refl
chain-set_next (regex_node o p f _) x = refl
chain-set_next (array_index_node subs _) x = refl

single_chain : (n : Node) → chain n ≡ set_next n nil ∷ ref_chain (next_of n)
unfolding chain set_next next_of
single_chain (const_node c _) = refl
single_chain (method_node m _) = refl
single_chain (string_node s _) = refl
single_chain (variable_node s _) = refl
single_chain (key_node s _) = refl
single_chain (numeric_node s f _) = refl
single_chain (integer_node s i _) = refl
single_chain (any_node a b _) = refl
single_chain (binary_node op l r _) = refl
single_chain (unary_node op o _) = refl
single_chain (regex_node o p f _) = refl
single_chain (array_index_node subs _) = refl

link_rest_lem : (ns : List Node) → AreSingle ns → ref_chain (link_rest ns) ≡ bare ns
unfolding link_rest chain
link_rest_lem [] h = refl
link_rest_lem (n ∷ []) (e, h) = rw (single_chain n, e)
link_rest_lem (n ∷ m ∷ ms) (e, h) =
    rw (chain-set_next n (link_rest (m ∷ ms)), link_rest_lem (m ∷ ms) h)

mutual
  unfolding chain append_node

  append_lem : (n : Node) (x : Ref) → chain (append_node n x) ≡ chain n ++ ref_chain x
  append_lem (const_node c y) x = ap (λ tail. const_node c nil ∷ tail) (append_ref_lem y x)
  append_lem (method_node m y) x = ap (λ tail. method_node m nil ∷ tail) (append_ref_lem y x)
  append_lem (string_node s y) x = ap (λ tail. string_node s nil ∷ tail) (append_ref_lem y x)
  append_lem (variable_node s y) x = ap (λ tail. variable_node s nil ∷ tail) (append_ref_lem y x)
  append_lem (key_node s y) x = ap (λ tail. key_node s nil ∷ tail) (append_ref_lem y x)
  append_lem (numeric_node s f y) x = ap (λ tail. numeric_node s f nil ∷ tail) (append_ref_lem y x)
  append_lem (integer_node s i y) x = ap (λ tail. integer_node s i nil ∷ tail) (append_ref_lem y x)
  append_lem (any_node a b y) x = ap (λ tail. any_node a b nil ∷ tail) (append_ref_lem y x)
  append_lem (binary_node op l r y) x =
      ap (λ tail. binary_node op l r nil ∷ tail) (append_ref_lem y x)
  append_lem (unary_node op o y) x = ap (λ tail. unary_node op o nil ∷ tail) (append_ref_lem y x)
  append_lem (regex_node o p f y) x = ap (λ tail. regex_node o p f nil ∷ tail) (append_ref_lem y x)
  append_lem (array_index_node subs y) x =
      ap (λ tail. array_index_node subs nil ∷ tail) (append_ref_lem y x)

  append_ref_lem : (y x : Ref) → ref_chain (append_ref y x) ≡ ref_chain y ++ ref_chain x
  append_ref_lem nil x = refl
  append_ref_lem (to n) x = append_lem n x

-- LinkNodes gives the list of the head's nodes and then the others, if each of the others has nothing
-- behind it.
pub link_nodes_lem :
    (head : Node) (ns : List Node)
    → AreSingle ns
    → chain (link_nodes head ns) ≡ chain head ++ bare ns
unfolding link_nodes
link_nodes_lem head [] h = rw append-nil
link_nodes_lem head (n ∷ ns) h = rw (append_lem head (link_rest (n ∷ ns)), link_rest_lem (n ∷ ns) h)

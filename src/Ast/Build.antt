-- ===== src/Ast/Build.antt =====
-- Building syntax trees (path/ast/ast.go): lists of accessors and the bounds of `.**`.
use sqljson.Prelude.{ℕ, ◌&&◌, List, [], ◌∷◌, if◌then◌else◌}
use sqljson.Prelude.Int.{ℤ, pos, leb_ℤ, ltb_ℤ, pos_part}
use sqljson.Ast.{
  Node, Ref, nil, to, const_node, method_node, string_node, variable_node, key_node, numeric_node,
  integer_node, any_node, binary_node, unary_node, regex_node, array_index_node,
}

-- setNext: the node is new, so nothing else refers to it
unfoldable pub set_next : Node → Ref → Node
set_next (const_node c _) next = const_node c next
set_next (method_node m _) next = method_node m next
set_next (string_node s _) next = string_node s next
set_next (variable_node s _) next = variable_node s next
set_next (key_node s _) next = key_node s next
set_next (numeric_node s f _) next = numeric_node s f next
set_next (integer_node s i _) next = integer_node s i next
set_next (any_node a b _) next = any_node a b next
set_next (binary_node op l r _) next = binary_node op l r next
set_next (unary_node op o _) next = unary_node op o next
set_next (regex_node o p f _) next = regex_node o p f next
set_next (array_index_node subs _) next = array_index_node subs next

-- The loop over nodes[1:]: each node becomes the next one of that before it. What a node had behind
-- it is lost, unless it is the last one.
unfoldable pub link_rest : List Node → Ref
unfolding set_next
link_rest [] = nil
link_rest (n ∷ []) = to n
link_rest (n ∷ m ∷ ms) = to (set_next n (link_rest (m ∷ ms)))

-- The head with the rest behind the end of its list.
unfoldable mutual
  pub append_node : Node → Ref → Node
  append_node (const_node c x) rest = const_node c (append_ref x rest)
  append_node (method_node m x) rest = method_node m (append_ref x rest)
  append_node (string_node s x) rest = string_node s (append_ref x rest)
  append_node (variable_node s x) rest = variable_node s (append_ref x rest)
  append_node (key_node s x) rest = key_node s (append_ref x rest)
  append_node (numeric_node s f x) rest = numeric_node s f (append_ref x rest)
  append_node (integer_node s i x) rest = integer_node s i (append_ref x rest)
  append_node (any_node a b x) rest = any_node a b (append_ref x rest)
  append_node (binary_node op l r x) rest = binary_node op l r (append_ref x rest)
  append_node (unary_node op o x) rest = unary_node op o (append_ref x rest)
  append_node (regex_node o p f x) rest = regex_node o p f (append_ref x rest)
  append_node (array_index_node subs x) rest = array_index_node subs (append_ref x rest)

  pub append_ref : Ref → Ref → Ref
  append_ref nil rest = rest
  append_ref (to n) rest = to (append_node n rest)

-- LinkNodes, which panics on an empty list
unfoldable pub link_nodes : Node → List Node → Node
unfolding append_node link_rest
link_nodes head [] = head
link_nodes head (n ∷ ns) = append_node head (link_rest (n ∷ ns))

abbrev pub unbounded : ℕ
unbounded = 4294967295

unfoldable pub clamp : ℤ → ℕ
clamp n = if leb_ℤ (pos 0) n && ltb_ℤ n (pos unbounded) then pos_part n else unbounded

-- NewAny
unfoldable pub new_any : ℤ → ℤ → Node
unfolding clamp
new_any first last = any_node (clamp first) (clamp last) nil

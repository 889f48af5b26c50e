-- ===== src/Ast/Size.antt =====
-- The number of nodes of a path, by which the depth of the executor's calls is bounded.
use sqljson.Prelude.{ℕ, suc, ◌+◌}
use sqljson.Ast.{
  Node, Ref, nil, to, Nodes, end, more, const_node, method_node, string_node, variable_node,
  key_node, numeric_node, integer_node, any_node, binary_node, unary_node, regex_node,
  array_index_node,
}

unfoldable mutual
  pub size : Node → ℕ
  size (const_node _ x) = suc (size_ref x)
  size (method_node _ x) = suc (size_ref x)
  size (string_node _ x) = suc (size_ref x)
  size (variable_node _ x) = suc (size_ref x)
  size (key_node _ x) = suc (size_ref x)
  size (numeric_node _ _ x) = suc (size_ref x)
  size (integer_node _ _ x) = suc (size_ref x)
  size (any_node _ _ x) = suc (size_ref x)
  size (binary_node _ l r x) = suc (size_ref l + size_ref r + size_ref x)
  size (unary_node _ o x) = suc (size_ref o + size_ref x)
  size (regex_node o _ _ x) = suc (size_ref o + size_ref x)
  size (array_index_node subs x) = suc (size_nodes subs + size_ref x)

  pub size_ref : Ref → ℕ
  size_ref nil = 0
  size_ref (to n) = size n

  pub size_nodes : Nodes → ℕ
  size_nodes end = 0
  size_nodes (more n ns) = size_ref n + size_nodes ns

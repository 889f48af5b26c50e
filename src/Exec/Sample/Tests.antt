-- ===== src/Exec/Sample/Tests.antt =====
-- Runs of the entry points on small inputs.
use sqljson.Prelude.{true, false, ◌≡◌, refl, [], ◌∷◌, bytes}
use sqljson.Prelude.Int.{pos}
use sqljson.Json.{Value, null, int, array, object, field, Fields}
use sqljson.Ast.{
  nil, to, binary_node, const_node, variable_node, Ref, unary_node, BinaryOperator, UnaryOperator,
  Constant,
}
use sqljson.Exec.Error.{execution, no_variable}
use sqljson.Exec.Query.{answer, fails, query_values, exists}
use sqljson.Exec.Sample.{opened, env, root_then, key, index, number_node, items}

abbrev doc : Value
doc =
    object 100
      (field (bytes "a") (array 200 (items (int (pos 5) ∷ int (pos 7) ∷ null ∷ []))) Fields.end)

-- $.a[1]
second_item :
    query_values (env true doc) true (root_then (key "a" (index (number_node 1) nil)))
    ≡ answer (int (pos 7) ∷ [])
unfolding opened
second_item = refl

-- $.a ? (@ > 5)
filtered :
    query_values (env true doc) true (
      root_then (
        key "a" (
          to (
            unary_node UnaryOperator.filter
              (to (
                binary_node BinaryOperator.greater
                  (to (const_node Constant.current nil))
                  (number_node 5)
                  nil))
              nil))))
    ≡ answer (int (pos 7) ∷ [])
unfolding opened
filtered = refl

-- $[0] on an array that begins with null
null_item :
    query_values
      (env false (array 200 (items (null ∷ []))))
      true
      (root_then (index (number_node 0) nil))
    ≡ answer []
unfolding opened
null_item = refl

-- strict $[$.a], silent: the index fails without an error
bad_index :
    query_values
      (env false (array 200 (items (int (pos 5) ∷ []))))
      false
      (root_then (index (root_then (key "a" nil)) nil))
    ≡ answer (int (pos 5) ∷ [])
unfolding opened
bad_index = refl

-- ($x == 1) is unknown, with no variable of that name
swallowed :
    query_values (env false doc) true (
      to (
        unary_node UnaryOperator.is_unknown
          (to (
            binary_node BinaryOperator.equal
              (to (variable_node (bytes "x") nil))
              (number_node 1)
              nil))
          nil))
    ≡ answer (Value.bool true ∷ [])
unfolding opened
swallowed = refl

-- $ ? ($x == 1), with no variable of that name: Query returns the error, Exists does not
abbrev missing : Ref
missing = root_then (
    to (
      unary_node UnaryOperator.filter
        (to (
          binary_node BinaryOperator.equal (to (variable_node (bytes "x") nil)) (number_node 1)
            nil))
        nil))

query_fails : query_values (env false doc) true missing ≡ fails (execution no_variable)
unfolding opened
query_fails = refl

exists_answers : exists (env false doc) true missing ≡ answer false
unfolding opened
exists_answers = refl

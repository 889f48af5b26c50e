-- ===== src/Theorems/Tests/Syntax.antt =====
-- The theorems on syntax trees, at concrete inputs.
use sqljson.Prelude.{true, false, ◌≡◌, refl, some, [], ◌∷◌, ◌++◌, bytes, not}
use sqljson.Ast.{nil, to, const_node, Constant, next_of}
use sqljson.Ast.Build.{link_nodes}
use sqljson.Ast.Validate.{validate_ref}
use sqljson.Ast.Regex.{new_regex_flags, letters, syntax_flags, go_flags, should_quote_meta}
use sqljson.Theorems.Syntax.{validate_ref_lem, link_nodes_lem, first_fault, ref_uses, chain, bare}
use sqljson.Theorems.Flags.{
  new_regex_flags_lem, new_regex_flags-letters, syntax_flags_lem, expected_flags, mask_of, mem,
}

validate_ref_lem_example :
    validate_ref (to (const_node Constant.last nil)) 0 false
    ≡ first_fault (ref_uses (to (const_node Constant.last nil)) false false)
validate_ref_lem_example = validate_ref_lem (to (const_node Constant.last nil))

link_nodes_lem_example :
    chain (link_nodes (const_node Constant.root nil) (const_node Constant.any_key nil ∷ []))
    ≡ chain (const_node Constant.root nil) ++ bare (const_node Constant.any_key nil ∷ [])
unfolding next_of
link_nodes_lem_example =
    link_nodes_lem (const_node Constant.root nil) (const_node Constant.any_key nil ∷ []) (refl, tt)

new_regex_flags_lem_example : new_regex_flags (bytes "iqx") ≡ expected_flags (bytes "iqx")
new_regex_flags_lem_example = new_regex_flags_lem (bytes "iqx")

new_regex_flags-letters_example :
    new_regex_flags (letters (mask_of true false true false false))
    ≡ some (mask_of true false true false false)
new_regex_flags-letters_example = new_regex_flags-letters true false true false false refl

syntax_flags_lem_example :
    syntax_flags (mask_of true true false true true)
    ≡ some (record {
      fold_case = mem b'i' (go_flags (mask_of true true false true true));
      literal = should_quote_meta (mask_of true true false true true);
      one_line = not (mem b'm' (go_flags (mask_of true true false true true)));
      dot_nl = mem b's' (go_flags (mask_of true true false true true));
    })
syntax_flags_lem_example = syntax_flags_lem true true false true true refl

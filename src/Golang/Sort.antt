-- ===== src/Golang/Sort.antt =====
-- slices.Sort of Go's standard library, on strings, as path/exec/keyvalue.go uses it.
use sqljson.Prelude.{zero, suc, Bool, true, false, List, [], ◌∷◌, Str, if◌then◌else◌}
use sqljson.Prelude.Int.{ℤ, pos}
use sqljson.Golang.{compare_strings}

-- s <= t, by bytes
abbrev pub precedes : ℤ → Bool
precedes (pos zero) = true
precedes (pos (suc _)) = false
precedes _ = true

unfoldable pub insert_key : Str → List Str → List Str
unfolding compare_strings
insert_key k [] = k ∷ []
insert_key k (j ∷ js) =
    let later = insert_key k js in if precedes (compare_strings k j) then k ∷ j ∷ js else j ∷ later

-- slices.Sort(keys)
unfoldable pub sort_keys : List Str → List Str
unfolding insert_key
sort_keys [] = []
sort_keys (k ∷ ks) = insert_key k (sort_keys ks)

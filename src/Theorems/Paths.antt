-- ===== src/Theorems/Paths.antt =====
-- The parser and the executor together (path/path.go).
use sqljson.Prelude.{◌≡◌, ◌≢◌, refl, Bool, false, Str, none, some, [], ◌∷◌}
use sqljson.Ast.Validate.{validate_ref}
use sqljson.Parser.Symbol.{Outside}
use sqljson.Parser.Driver.{parse, Parsed, parsed, parse_error}
use sqljson.Exec.Env.{Env}
use sqljson.Exec.Query.{Answer, answer, null_error, fails}
use sqljson.Paths.{
  Held, Source, nothing, anything_else, of_string, of_bytes, Report, fine, unable, out_of_fuel,
  store, scan, scan_text, must_query, path_must_query, path_query, must_parse, must, on,
}
use sqljson.Theorems.Parsing.Ends.{parse-valid, parse-ne-exhausted}
use sqljson.Theorems.Answers.{IsSettled, query_values-IsSettled}

-- Each `@` is inside a filter and each `last` inside a subscript.
abbrev pub IsValid : Held → Type 0
IsValid none = Unit
IsValid (some a) = validate_ref a.root 0 false ≡ none

-- The path is replaced only without an error, and stays valid.
abbrev pub Assigns : Held → Report × Held → Type 0
Assigns p r = (r.0 ≢ out_of_fuel) × (r.0 ≢ fine → r.1 ≡ p) × (IsValid p → IsValid r.1)

store-Assigns :
    (p : Held) (r : Parsed)
    → r ≢ Parsed.exhausted
    → ((q : Held) → r ≡ parsed q → IsValid q)
    → Assigns p (store p r)
store-Assigns p (parsed q) e v = ((λ h. cc), (λ h. absurd (h refl)), (λ w. v q refl))
store-Assigns p (parse_error x) e v = ((λ h. cc), (λ h. refl), (λ w. w))
store-Assigns p Parsed.panicked e v = ((λ h. cc), (λ h. refl), (λ w. w))
store-Assigns p Parsed.exhausted e v = absurd (e refl)

kept : (p : Held) (r : Report) → r ≢ out_of_fuel → Assigns p (r, p)
kept p r e = (e, (λ h. refl), (λ w. w))

module _ (o : Outside) where
  parsed-IsValid : (s : Str) (q : Held) → parse o s ≡ parsed q → IsValid q
  parsed-IsValid s none e = tt
  parsed-IsValid s (some a) e = parse-valid o s a e

  scan_text-Assigns : (s : Str) (p : Held) → Assigns p (scan_text o s p)
  unfolding scan_text
  scan_text-Assigns [] p = kept p fine (λ h. cc)
  scan_text-Assigns (c ∷ s) p =
      store-Assigns p (parse o (c ∷ s)) (parse-ne-exhausted o (c ∷ s)) (parsed-IsValid (c ∷ s))

  -- Scan ends on every source. With an error, or a panic, the path stays what it was; and a path that
  -- has each `@` inside a filter and each `last` inside a subscript is one again afterwards.
  pub scan-Assigns : (s : Source) (p : Held) → Assigns p (scan o s p)
  unfolding scan
  scan-Assigns nothing p = kept p fine (λ h. cc)
  scan-Assigns (of_string s) p = scan_text-Assigns s p
  scan-Assigns (of_bytes s) p = scan_text-Assigns s p
  scan-Assigns anything_else p = kept p unable (λ h. cc)

must-IsSettled : {A : Type 0} (r : Answer A) → IsSettled r → IsSettled (must r)
must-IsSettled (answer x) h = tt
must-IsSettled null_error h = tt
must-IsSettled (fails e) h = tt
must-IsSettled Answer.crash h = tt
must-IsSettled Answer.no_fuel h = h

path_must_query-IsSettled : (e : Env) (v : Bool) (p : Held) → IsSettled (path_must_query e v p)
unfolding path_must_query path_query
path_must_query-IsSettled e v none = tt
path_must_query-IsSettled e v (some a) = must-IsSettled _ (query_values-IsSettled (on e a) v a.root)

must_parse-IsSettled :
    {A : Type 0} (r : Parsed) (k : Held → Answer A)
    → r ≢ Parsed.exhausted
    → ((p : Held) → IsSettled (k p))
    → IsSettled (must_parse r k)
must_parse-IsSettled (parsed p) k e h = h p
must_parse-IsSettled (parse_error x) k e h = tt
must_parse-IsSettled Parsed.panicked k e h = tt
must_parse-IsSettled Parsed.exhausted k e h = absurd (e refl)

-- MustQuery ends on every text and every document: parsing the text and running its path give values or
-- a panic, and the fuel of the two is enough.
pub must_query-IsSettled :
    (o : Outside) (s : Str) (e : Env) (v : Bool) → IsSettled (must_query o s e v)
unfolding must_query
must_query-IsSettled o s e v =
    must_parse-IsSettled (parse o s) (path_must_query e v) (parse-ne-exhausted o s)
      (path_must_query-IsSettled e v)

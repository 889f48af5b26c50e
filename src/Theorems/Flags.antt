-- ===== src/Theorems/Flags.antt =====
-- The flags of regular expressions (path/ast/regex.go).
use sqljson.Prelude.{
  ℕ, ◌+◌, ◌*◌, Bool, true, false, ◌&&◌, ◌||◌, not, ◌≡◌, refl, Bool-cases, inl, inr, ap, ◌∙◌, Option,
  none, some, [], ◌∷◌, Str, nat_eq, arith, if◌then◌else◌,
}
use sqljson.Ast.Regex.{
  has_flag, add_flag, parse_flags, syntax_flags, new_regex_flags, letters, go_flags,
  should_quote_meta, check_flags, i_case, dot_all, m_line, w_space, quote,
}

abbrev bit : Bool → ℕ
bit true = 1
bit false = 0

-- the mask of the five flags
abbrev pub mask_of : Bool → Bool → Bool → Bool → Bool → ℕ
mask_of i s m x q = bit i + 2 * bit s + 4 * bit m + 8 * bit x + 16 * bit q

abbrev pub mem : ℕ → Str → Bool
mem c [] = false
mem c (d ∷ s) = nat_eq d c || mem c s

-- every letter is one of the five
abbrev pub is_known : Str → Bool
is_known [] = true
is_known (c ∷ s) =
    (nat_eq c b'i' || nat_eq c b's' || nat_eq c b'm' || nat_eq c b'x' || nat_eq c b'q')
    && is_known s

module _ (i s m x q : Bool) where
  add_i : add_flag (mask_of i s m x q) i_case ≡ mask_of true s m x q
  unfolding add_flag
  add_i = ground arith

  add_s : add_flag (mask_of i s m x q) dot_all ≡ mask_of i true m x q
  unfolding add_flag
  add_s = ground arith

  add_m : add_flag (mask_of i s m x q) m_line ≡ mask_of i s true x q
  unfolding add_flag
  add_m = ground arith

  add_x : add_flag (mask_of i s m x q) w_space ≡ mask_of i s m true q
  unfolding add_flag
  add_x = ground arith

  add_q : add_flag (mask_of i s m x q) quote ≡ mask_of i s m x true
  unfolding add_flag
  add_q = ground arith

  has_i : has_flag (mask_of i s m x q) i_case ≡ i
  unfolding has_flag
  has_i = ground arith

  has_s : has_flag (mask_of i s m x q) dot_all ≡ s
  unfolding has_flag
  has_s = ground arith

  has_m : has_flag (mask_of i s m x q) m_line ≡ m
  unfolding has_flag
  has_m = ground arith

  has_x : has_flag (mask_of i s m x q) w_space ≡ x
  unfolding has_flag
  has_x = ground arith

  has_q : has_flag (mask_of i s m x q) quote ≡ q
  unfolding has_flag
  has_q = ground arith

-- the flags that are set and those that occur in the text
abbrev parsed : Bool → Bool → Bool → Bool → Bool → Str → Option ℕ
parsed i s m x q t =
    if is_known t
    then some (
        mask_of (i || mem b'i' t) (s || mem b's' t) (m || mem b'm' t) (x || mem b'x' t)
          (q || mem b'q' t))
    else none

abbrev Parses : Str → Type 0
Parses t = (i s m x q : Bool) → parse_flags (mask_of i s m x q) t ≡ parsed i s m x q t

or_true : (b c : Bool) → (b || (true || c)) ≡ true
or_true true c = refl
or_true false c = refl

eq_of : (c d : ℕ) → nat_eq c d ≡ true → c ≡ d
eq_of c d h = ground arith

step_i : (t : Str) → Parses t → Parses (b'i' ∷ t)
unfolding parse_flags
step_i t h i s m x q = rw (add_i i s m x q, h true s m x q, or_true i (mem b'i' t))

step_s : (t : Str) → Parses t → Parses (b's' ∷ t)
unfolding parse_flags
step_s t h i s m x q = rw (add_s i s m x q, h i true m x q, or_true s (mem b's' t))

step_m : (t : Str) → Parses t → Parses (b'm' ∷ t)
unfolding parse_flags
step_m t h i s m x q = rw (add_m i s m x q, h i s true x q, or_true m (mem b'm' t))

step_x : (t : Str) → Parses t → Parses (b'x' ∷ t)
unfolding parse_flags
step_x t h i s m x q = rw (add_x i s m x q, h i s m true q, or_true x (mem b'x' t))

step_q : (t : Str) → Parses t → Parses (b'q' ∷ t)
unfolding parse_flags
step_q t h i s m x q = rw (add_q i s m x q, h i s m x true, or_true q (mem b'q' t))

or_false : (b : Bool) → (b || false) ≡ b
or_false true = refl
or_false false = refl

parse_flags_lem : (t : Str) → Parses t
unfolding parse_flags
parse_flags_lem [] i s m x q = rw (or_false i, or_false s, or_false m, or_false x, or_false q)
parse_flags_lem (c ∷ t) i s m x q = elim (Bool-cases (nat_eq c b'i')) [
  | inl e ↦ (let same = eq_of c b'i' e in rw same (step_i t (parse_flags_lem t) i s m x q))
  | inr e0 ↦ elim (Bool-cases (nat_eq c b's')) [
    | inl e ↦ (let same = eq_of c b's' e in rw same (step_s t (parse_flags_lem t) i s m x q))
    | inr e1 ↦ elim (Bool-cases (nat_eq c b'm')) [
      | inl e ↦ (let same = eq_of c b'm' e in rw same (step_m t (parse_flags_lem t) i s m x q))
      | inr e2 ↦ elim (Bool-cases (nat_eq c b'x')) [
        | inl e ↦ (let same = eq_of c b'x' e in rw same (step_x t (parse_flags_lem t) i s m x q))
        | inr e3 ↦ elim (Bool-cases (nat_eq c b'q')) [
          | inl e ↦ (let same = eq_of c b'q' e in rw same (step_q t (parse_flags_lem t) i s m x q))
          | inr e4 ↦ rw (e0, e1, e2, e3, e4)
        ]
      ]
    ]
  ]
]

-- what newRegexFlags is to give
abbrev pub expected_flags : Str → Option ℕ
expected_flags t =
    if is_known t
    then if mem b'x' t && not (mem b'q' t)
      then none
      else some (mask_of (mem b'i' t) (mem b's' t) (mem b'm' t) (mem b'x' t) (mem b'q' t))
    else none

checked :
    (i s m x q : Bool)
    → check_flags (some (mask_of i s m x q))
      ≡ (if x && not q then none else some (mask_of i s m x q))
unfolding syntax_flags
checked i s m true true = rw (has_q i s m true true)
checked i s m true false = rw (has_q i s m true false, has_x i s m true false)
checked i s m false true = rw (has_q i s m false true)
checked i s m false false = rw (has_q i s m false false, has_x i s m false false)

through_check :
    (k x q : Bool) (o : Option ℕ)
    → check_flags o ≡ (if x && not q then none else o)
    → check_flags (if k then o else none) ≡ (if k then (if x && not q then none else o) else none)
through_check true x q o h = h
through_check false x q o h = refl

-- newRegexFlags gives the mask of the letters that occur, whatever their order and how often; it
-- fails for any letter but i, s, m, x and q, and for x without q.
pub new_regex_flags_lem : (t : Str) → new_regex_flags t ≡ expected_flags t
unfolding new_regex_flags
new_regex_flags_lem t =
    ap check_flags (parse_flags_lem t false false false false false)
    ∙ through_check (is_known t) (mem b'x' t) (mem b'q' t) _
        (checked _ _ _ (mem b'x' t) (mem b'q' t))

-- The letters that String writes for the flags give the same flags again, if x comes with q.
pub new_regex_flags-letters :
    (i s m x q : Bool)
    → (x && not q) ≡ false
    → new_regex_flags (letters (mask_of i s m x q)) ≡ some (mask_of i s m x q)
unfolding new_regex_flags letters parse_flags syntax_flags has_flag add_flag
new_regex_flags-letters true true true true true h = refl
new_regex_flags-letters true true true false true h = refl
new_regex_flags-letters true true true false false h = refl
new_regex_flags-letters true true false true true h = refl
new_regex_flags-letters true true false false true h = refl
new_regex_flags-letters true true false false false h = refl
new_regex_flags-letters true false true true true h = refl
new_regex_flags-letters true false true false true h = refl
new_regex_flags-letters true false true false false h = refl
new_regex_flags-letters true false false true true h = refl
new_regex_flags-letters true false false false true h = refl
new_regex_flags-letters true false false false false h = refl
new_regex_flags-letters false true true true true h = refl
new_regex_flags-letters false true true false true h = refl
new_regex_flags-letters false true true false false h = refl
new_regex_flags-letters false true false true true h = refl
new_regex_flags-letters false true false false true h = refl
new_regex_flags-letters false true false false false h = refl
new_regex_flags-letters false false true true true h = refl
new_regex_flags-letters false false true false true h = refl
new_regex_flags-letters false false true false false h = refl
new_regex_flags-letters false false false true true h = refl
new_regex_flags-letters false false false false true h = refl
new_regex_flags-letters false false false false false h = refl
new_regex_flags-letters i s m true false h = cc

-- The flags with which the pattern is compiled say the same as those with which it was checked: the
-- letters i, m and s of goFlags, and shouldQuoteMeta, are those of syntaxFlags, if x comes with q.
pub syntax_flags_lem :
    (i s m x q : Bool)
    → (x && not q) ≡ false
    → syntax_flags (mask_of i s m x q)
      ≡ some (record {
        fold_case = mem b'i' (go_flags (mask_of i s m x q));
        literal = should_quote_meta (mask_of i s m x q);
        one_line = not (mem b'm' (go_flags (mask_of i s m x q)));
        dot_nl = mem b's' (go_flags (mask_of i s m x q));
      })
unfolding syntax_flags go_flags should_quote_meta has_flag
syntax_flags_lem true true true true true h = refl
syntax_flags_lem true true true false true h = refl
syntax_flags_lem true true true false false h = refl
syntax_flags_lem true true false true true h = refl
syntax_flags_lem true true false false true h = refl
syntax_flags_lem true true false false false h = refl
syntax_flags_lem true false true true true h = refl
syntax_flags_lem true false true false true h = refl
syntax_flags_lem true false true false false h = refl
syntax_flags_lem true false false true true h = refl
syntax_flags_lem true false false false true h = refl
syntax_flags_lem true false false false false h = refl
syntax_flags_lem false true true true true h = refl
syntax_flags_lem false true true false true h = refl
syntax_flags_lem false true true false false h = refl
syntax_flags_lem false true false true true h = refl
syntax_flags_lem false true false false true h = refl
syntax_flags_lem false true false false false h = refl
syntax_flags_lem false false true true true h = refl
syntax_flags_lem false false true false true h = refl
syntax_flags_lem false false true false false h = refl
syntax_flags_lem false false false true true h = refl
syntax_flags_lem false false false false true h = refl
syntax_flags_lem false false false false false h = refl
syntax_flags_lem i s m true false h = cc

-- ===== src/Theorems/Parsing/Tables.antt =====
-- Facts about the tables of the generated parser (path/parser/grammar.go), by evaluation. A weight for
-- each state shows that every reduction takes something down: a rule with k symbols takes k states off
-- the stack, each of which counts 32, and puts one on it.
use sqljson.Prelude.{
  ℕ, zero, suc, ◌+◌, ◌-◌, ◌*◌, ◌≤◌, ◌<◌, ◌≡◌, refl, Bool, true, false, ◌&&◌, ◌||◌, List, [], ◌∷◌,
  nat_eq, ltb, leb, not, arith, if◌then◌else◌, ◌⊎◌, Bool-cases, inl, inr, leb→le,
}
use sqljson.Parser.Tables.{entry, path_act, act_at, pgo_at, r1_at, r2_at, chk_at, def_at, path_exca}
use sqljson.Parser.Driver.{goto_state, exception}

-- The weight of a state.
unfoldable pub weights : List ℕ
weights =
    33 ∷ 0 ∷ 0 ∷ 1 ∷ 1 ∷ 0 ∷ 2 ∷ 1 ∷ 3 ∷ 0 ∷ 0 ∷ 0 ∷ 2 ∷ 0 ∷ 4 ∷ 0 ∷ 5 ∷ 5 ∷ 5 ∷ 5 ∷ 6 ∷ 6 ∷ 6 ∷ 6
    ∷ 6 ∷ 6 ∷ 6 ∷ 0 ∷ 0 ∷ 0 ∷ 0 ∷ 0 ∷ 0 ∷ 0 ∷ 0 ∷ 1 ∷ 1 ∷ 1 ∷ 1 ∷ 1 ∷ 1 ∷ 0 ∷ 0 ∷ 0 ∷ 0 ∷ 1 ∷ 0 ∷ 0
    ∷ 1 ∷ 2 ∷ 2 ∷ 0 ∷ 2 ∷ 2 ∷ 0 ∷ 0 ∷ 2 ∷ 0 ∷ 0 ∷ 2 ∷ 2 ∷ 2 ∷ 2 ∷ 2 ∷ 1 ∷ 2 ∷ 1 ∷ 0 ∷ 0 ∷ 0 ∷ 0 ∷ 2
    ∷ 2 ∷ 2 ∷ 2 ∷ 2 ∷ 2 ∷ 2 ∷ 1 ∷ 1 ∷ 2 ∷ 2 ∷ 2 ∷ 2 ∷ 2 ∷ 2 ∷ 2 ∷ 2 ∷ 2 ∷ 2 ∷ 2 ∷ 2 ∷ 2 ∷ 2 ∷ 2 ∷ 2
    ∷ 2 ∷ 2 ∷ 2 ∷ 2 ∷ 2 ∷ 2 ∷ 2 ∷ 2 ∷ 2 ∷ 2 ∷ 2 ∷ 2 ∷ 0 ∷ 0 ∷ 0 ∷ 1 ∷ 2 ∷ 0 ∷ 0 ∷ 1 ∷ 1 ∷ 2 ∷ 0 ∷ 1
    ∷ 1 ∷ 0 ∷ 0 ∷ 33 ∷ 0 ∷ 33 ∷ 33 ∷ 33 ∷ 33 ∷ 33 ∷ 0 ∷ 1 ∷ 0 ∷ 0 ∷ 0 ∷ 0 ∷ 0 ∷ 0 ∷ 0 ∷ 0 ∷ 0 ∷ 0
    ∷ 0 ∷ 0 ∷ 0 ∷ 1 ∷ 2 ∷ 3 ∷ 0 ∷ 0 ∷ 0 ∷ 0 ∷ 1 ∷ 2 ∷ 0 ∷ 1 ∷ 2 ∷ 0 ∷ 0 ∷ 0 ∷ 0 ∷ 1 ∷ 1 ∷ 0 ∷ 1 ∷ 2
    ∷ 0 ∷ 0 ∷ 0 ∷ 0 ∷ 0 ∷ 0 ∷ 0 ∷ 0 ∷ 0 ∷ 0 ∷ 0 ∷ 0 ∷ 2 ∷ 0 ∷ 0 ∷ []

-- The greatest weight of a state that a nonterminal leads to.
unfoldable ranks : List ℕ
ranks =
    0 ∷ 0 ∷ 5 ∷ 4 ∷ 2 ∷ 1 ∷ 0 ∷ 0 ∷ 0 ∷ 1 ∷ 2 ∷ 1 ∷ 0 ∷ 0 ∷ 1 ∷ 0 ∷ 2 ∷ 1 ∷ 0 ∷ 3 ∷ 1 ∷ 0 ∷ 0 ∷ 0
    ∷ 0 ∷ 0 ∷ 1 ∷ 0 ∷ []

unfoldable pub weight : ℕ → ℕ
unfolding entry weights
weight s = entry weights s

unfoldable rank : ℕ → ℕ
unfolding entry ranks
rank a = entry ranks a

-- A test of all numbers below n, and of all members of a list.
all_below : ℕ → (ℕ → Bool) → Bool
all_below zero p = true
all_below (suc n) p = p n && all_below n p

all_below-true : (n : ℕ) (p : ℕ → Bool) (x : ℕ) → all_below n p ≡ true → x < n → p x ≡ true
unfolding all_below
all_below-true zero p x h lt = elim lt [ ]
all_below-true (suc n) p x h lt = ground (arith, all_below-true n p x)

all_entries : (ℕ → Bool) → List ℕ → Bool
all_entries p [] = true
all_entries p (x ∷ xs) = p x && all_entries p xs

-- What holds of all members and of 0 holds of every entry.
entry-true :
    (p : ℕ → Bool) (xs : List ℕ) (n : ℕ)
    → all_entries p xs ≡ true
    → p 0 ≡ true
    → p (entry xs n) ≡ true
unfolding all_entries entry
entry-true p [] n h z = z
entry-true p (x ∷ xs) zero h z = ground arith
entry-true p (x ∷ xs) (suc n) h z = ground (arith, entry-true p xs n)

-- A member of path_act is a state that is entered neither by the end of the source nor by `error`.
is_shifted : ℕ → Bool
is_shifted s = ltb s 181 && (not (nat_eq (chk_at s) 1001) && not (nat_eq (chk_at s) 1002))

act_entries : all_entries is_shifted path_act ≡ true
unfolding all_entries is_shifted path_act chk_at
act_entries = refl

act_zero : is_shifted 0 ≡ true
unfolding is_shifted chk_at
act_zero = refl

act_at-is_shifted : (n : ℕ) → is_shifted (act_at n) ≡ true
unfolding act_at
act_at-is_shifted n = entry-true is_shifted path_act n act_entries act_zero

pub act-is_shifted :
    (n : ℕ)
    → (act_at n < 181)
      × (nat_eq (chk_at (act_at n)) 1001 ≡ false)
      × (nat_eq (chk_at (act_at n)) 1002 ≡ false)
unfolding is_shifted
act-is_shifted n = ground (arith, act_at-is_shifted n)

-- A state that a nonterminal leads to weighs no more than its rank.
is_ranked : ℕ → Bool
is_ranked s = let c = chk_at s in nat_eq c 0 || (leb 1001 c || leb (weight s) (rank (1000 - c)))

ranked_states : all_below 181 is_ranked ≡ true
unfolding all_below is_ranked weight rank chk_at
ranked_states = refl

-- The default of the goto table leads to a state of its nonterminal.
has_goto : ℕ → Bool
has_goto a = nat_eq (chk_at (act_at (pgo_at a)) + a) 1000 && (leb 1 a && leb a 27)

goto_state-chk :
    (a below : ℕ)
    → has_goto a ≡ true
    → (goto_state a below < 181) × (chk_at (goto_state a below) + a ≡ 1000)
unfolding goto_state has_goto
goto_state-chk a below h =
    ground (arith, act-is_shifted (pgo_at a), act-is_shifted (pgo_at a + below + 1))

goto_state-weight : (a below : ℕ) → has_goto a ≡ true → weight (goto_state a below) ≤ rank a
unfolding is_ranked has_goto
goto_state-weight a below h =
    let c = goto_state-chk a below h in
    let r = all_below-true 181 is_ranked (goto_state a below) ranked_states c.0 in
    let e : 1000 - chk_at (goto_state a below) ≡ a = omega arith in ground arith

-- Rule r takes something down in state s.
pub fits : ℕ → ℕ → Bool
fits s r = has_goto (r1_at r) && ltb (32 + rank (r1_at r)) (32 * r2_at r + weight s)

-- The actions of pathExca in a state, each plus 1: 0 accepts, and 1 is an error.
exca_fits : ℕ → List (ℕ × ℕ × ℕ × ℕ) → Bool
exca_fits s [] = true
exca_fits s ((t, k, one, other) ∷ rest) =
    (not (nat_eq t s) || ((leb one 1 || fits s (one - 1)) && (leb other 1 || fits s (other - 1))))
    && exca_fits s rest

state_fits : ℕ → Bool
state_fits s =
    let n = def_at s in
    if nat_eq n 0 then exca_fits s path_exca else nat_eq (n - 2) 0 || fits s (n - 2)

all_fit : all_below 181 state_fits ≡ true
unfolding all_below state_fits exca_fits fits has_goto weight rank act_at pgo_at r1_at r2_at chk_at
    def_at path_exca
all_fit = refl

exception-fits :
    (s token : ℕ) (table : List (ℕ × ℕ × ℕ × ℕ))
    → exca_fits s table ≡ true
    → (exception s token table ≤ 1) ⊎ (fits s (exception s token table - 1) ≡ true)
unfolding exca_fits exception
exception-fits s token [] h = inl (omega arith)
exception-fits s token ((t, k, one, other) ∷ rest) h = elim (Bool-cases (nat_eq t s)) [
  | inl e ↦ elim (Bool-cases (nat_eq k token)) [
    | inl f ↦
        rw (e, f)
          (elim (Bool-cases (leb one 1)) [
            | inl g ↦ inl (ground arith)
            | inr g ↦ inr (ground arith)
          ])
    | inr f ↦
        rw (e, f)
          (elim (Bool-cases (leb other 1)) [
            | inl g ↦ inl (ground arith)
            | inr g ↦ inr (ground arith)
          ])
  ]
  | inr e ↦ rw e (exception-fits s token rest (ground arith))
]

pub fits-goto :
    (s r below : ℕ)
    → fits s r ≡ true
    → (goto_state (r1_at r) below < 181)
      × (32 + weight (goto_state (r1_at r) below) < 32 * r2_at r + weight s)
unfolding fits
fits-goto s r below h =
    ground (arith, goto_state-chk (r1_at r) below, goto_state-weight (r1_at r) below)

-- What a state does by default, and what it does by pathExca.
pub default-fits :
    (s : ℕ)
    → s < 181
    → nat_eq (def_at s) 0 ≡ false
    → (def_at s - 2 ≡ 0) ⊎ (fits s (def_at s - 2) ≡ true)
unfolding state_fits
default-fits s lt e =
    let h = all_below-true 181 state_fits s all_fit lt in
    elim (Bool-cases (nat_eq (def_at s - 2) 0)) [
      | inl z ↦ inl (ground arith)
      | inr z ↦ inr (ground arith)
    ]

pub exca-fits :
    (s token : ℕ)
    → s < 181
    → nat_eq (def_at s) 0 ≡ true
    → (exception s token path_exca ≤ 1) ⊎ (fits s (exception s token path_exca - 1) ≡ true)
unfolding state_fits
exca-fits s token lt e =
    let h = all_below-true 181 state_fits s all_fit lt in
    exception-fits s token path_exca (ground arith)

pub weight-le : (s : ℕ) → weight s ≤ 33
unfolding weight all_entries
weight-le s = leb→le (entry weights s) 33 (entry-true (λ w. leb w 33) weights s light refl)
  where
    light : all_entries (λ w. leb w 33) weights ≡ true
    light = refl

-- ===== src/Theorems/Parsing/Rounds.antt =====
-- Each round of the parser takes the measure down (Parse of path/parser/grammar.go).
use sqljson.Prelude.{
  ℕ, ◌+◌, ◌-◌, ◌≤◌, ◌<◌, ◌≡◌, ◌⊎◌, refl, ap, ◌∙◌, true, false, ◌&&◌, Str, nat_eq, ltb, leb, arith,
  Bool-cases, inl, inr, length,
}
use sqljson.Prelude.Int.{pos, negsuc}
use sqljson.Parser.Token.{Rune}
use sqljson.Parser.Chars.{is_negative}
use sqljson.Parser.Lexer.{Lexer}
use sqljson.Parser.Lex.{lex}
use sqljson.Parser.Tables.{act_at, pact_at, chk_at, def_at, tok1_at, path_exca}
use sqljson.Parser.Symbol.{Outside, Sym}
use sqljson.Parser.Driver.{
  Config, Step, running, returned, crashed, token_number, fetch, take_token, with_token, state_of,
  exception, excepted, default_action, shift, try_shift, step,
}
use sqljson.Theorems.Reading.{IsWell}
use sqljson.Theorems.Reading.Lexing.{remaining, lex_lem}
use sqljson.Theorems.Parsing.Tables.{weight, act-is_shifted, default-fits, exca-fits, weight-le}
use sqljson.Theorems.Parsing.Reductions.{
  held, due, measure, IsGoing, Down, reduce_or_fail-Down, excepted-Down,
}

-- Reading a token keeps the stack, and does not make more of what is left; what is read is a token in
-- hand, or the end.
record Fetched (c d : Config) : Type 0 where
  going : IsGoing d
  stack : d.stack ≡ c.stack
  less : due d ≤ due c
  kind : (held d.char ≡ 1) ⊎ (d.token ≡ 1)

end_token : (n : ℕ) → token_number (negsuc n) ≡ 1
unfolding token_number tok1_at
end_token n = refl

take_token-Fetched :
    (o : Outside) (c : Config) (r : (Rune × Str) × Lexer)
    → IsGoing c
    → held c.char ≡ 0
    → IsWell r.1
    → remaining r.1 ≤ remaining c.lexer
    → (is_negative r.0.0 ≡ false → remaining r.1 < remaining c.lexer)
    → Fetched c (take_token c r)
take_token-Fetched o c ((pos n, text), l) h z w le lt =
    let less = lt refl in
    record {
      going = record { well = w; no_error = h.no_error; top = h.top };
      stack = refl;
      less = omega arith;
      kind = inl refl;
    }
take_token-Fetched o c ((negsuc n, text), l) h z w le lt = record {
  going = record { well = w; no_error = h.no_error; top = h.top };
  stack = refl;
  less = omega arith;
  kind = inr (end_token n);
}

fetch-Fetched :
    (o : Outside) (r : Rune) (c : Config) → c.char ≡ r → IsGoing c → Fetched c (fetch o r c)
unfolding fetch
fetch-Fetched o (pos n) c e h = record {
  going = h;
  stack = refl;
  less = omega arith;
  kind = inl (ap held e);
}
fetch-Fetched o (negsuc n) c e h =
    let p = lex_lem o.xid c.lexer h.well in
    take_token-Fetched o c (lex o.xid c.lexer) h (ap held e) p.0 p.1 p.2

with_token-Fetched : (o : Outside) (c : Config) → IsGoing c → Fetched c (with_token o c)
unfolding with_token
with_token-Fetched o c h = fetch-Fetched o c.char c refl h

Down-le : {n m : ℕ} (s : Step) → n ≤ m → Down n s → Down m s
Down-le (running c) le h = (h.0, omega arith)
Down-le (returned l) le h = h
Down-le (crashed l) le h = h

Fetched-measure : {c d : Config} → Fetched c d → measure d ≤ measure c
Fetched-measure {c} {d} f =
    let e : state_of d.stack ≡ state_of c.stack = ap state_of f.stack in
    omega (arith, f.less, ap weight e, ap (length {A = ℕ × Sym}) f.stack)

default_action-Down : (o : Outside) (c : Config) → IsGoing c → Down (measure c) (default_action o c)
unfolding default_action
default_action-Down o c h = elim (Bool-cases (nat_eq (def_at (state_of c.stack)) 0)) [
  | inl e ↦ rw e (from_table e)
  | inr e ↦ rw e (
      reduce_or_fail-Down o (def_at (state_of c.stack) - 2) c h
        (default-fits (state_of c.stack) h.top e))
]
  where
    from_table :
        nat_eq (def_at (state_of c.stack)) 0 ≡ true
        → Down (measure c) (
            excepted o
              (with_token o c)
              (exception (state_of (with_token o c).stack) (with_token o c).token path_exca))
    from_table e =
        let f = with_token-Fetched o c h in
        let d = with_token o c in
        let z : nat_eq (def_at (state_of d.stack)) 0 ≡ true =
          ap (λ s. nat_eq (def_at (state_of s)) 0) f.stack ∙ e in
        Down-le (excepted o d (exception (state_of d.stack) d.token path_exca)) (Fetched-measure f)
          (excepted-Down o d (exception (state_of d.stack) d.token path_exca) f.going
            (exca-fits (state_of d.stack) d.token f.going.top z))

-- A token that is shifted is in hand.
shift-Down :
    (n : ℕ) (c : Config)
    → IsGoing c
    → (held c.char ≡ 1) ⊎ (c.token ≡ 1)
    → nat_eq (chk_at (act_at n)) (c.token + 1000) ≡ true
    → Down (measure c) (running (shift (act_at n) c))
shift-Down n c h (inr e) m = absurd (ground (arith, act-is_shifted n))
shift-Down n c h (inl e) m = (
  record { well = h.well; no_error = omega (arith, h.no_error); top = (act-is_shifted n).0 },
  omega (arith, weight-le (act_at n)),
)

try_shift-Down :
    (o : Outside) (n : ℕ) (c : Config)
    → IsGoing c
    → (held c.char ≡ 1) ⊎ (c.token ≡ 1)
    → Down (measure c) (try_shift o n c)
unfolding try_shift
try_shift-Down o n c h k =
    elim (Bool-cases
      (leb 1000 n && (ltb n 1251 && nat_eq (chk_at (act_at (n - 1000))) (c.token + 1000)))) [
        | inl e ↦ rw e (shift-Down (n - 1000) c h k (ground arith))
        | inr e ↦ rw e (default_action-Down o c h)
      ]

pub step-Down : (o : Outside) (c : Config) → IsGoing c → Down (measure c) (step o c)
unfolding step
step-Down o c h = elim (Bool-cases (nat_eq (pact_at (state_of c.stack)) 0)) [
  | inl e ↦ rw e (default_action-Down o c h)
  | inr e ↦ rw e (
      let f = with_token-Fetched o c h in
      Down-le (try_shift o (pact_at (state_of c.stack) + (with_token o c).token) (with_token o c))
        (Fetched-measure f)
        (try_shift-Down o (pact_at (state_of c.stack) + (with_token o c).token) (with_token o c)
          f.going f.kind))
]

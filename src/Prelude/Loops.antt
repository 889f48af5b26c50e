-- ===== src/Prelude/Loops.antt =====
-- Loops with a test in front, on fuel.
use Prim.Native.Nat.{ℕ, zero, suc, ◌<◌}
use mathlib.Core.Path.{◌≡◌}
use mathlib.Core.Bool.{Bool, true, false}
use native.Mathlib.Omega.{arith}

module _ {ℓ} {S : Type ℓ} where
  -- for test(s) { s = body(s) }
  unfoldable pub while : ℕ → (S → Bool) → (S → S) → S → S
  while zero test body s = s
  while (suc n) test body s = elim (test s) [ true ↦ while n test body (body s) | false ↦ s ]

  pub while_true :
      (n : ℕ) (test : S → Bool) (body : S → S) (s : S)
      → test s ≡ true
      → while (suc n) test body s ≡ while n test body (body s)
  unfolding while
  while_true n test body s h = rw (h, while)

  pub while_false :
      (n : ℕ) (test : S → Bool) (body : S → S) (s : S)
      → test s ≡ false
      → while (suc n) test body s ≡ s
  unfolding while
  while_false n test body s h = rw (h, while)

  -- A round that takes the measure down keeps what holds of the state, and a loop with fuel above the
  -- measure ends by its test.
  module _ {κ} (P : S → Type κ) (measure : S → ℕ) (test : S → Bool) (body : S → S)
      (keep : (s : S) → P s → test s ≡ true → P (body s) × (measure (body s) < measure s)) where
    pub while-Ends :
        (n : ℕ) (s : S)
        → measure s < n
        → P s
        → P (while n test body s) × (test (while n test body s) ≡ false)
    unfolding while
    while-Ends zero s lt p = elim lt [ ]
    while-Ends (suc n) s lt p = ground (arith, keep s p, while-Ends n (body s))

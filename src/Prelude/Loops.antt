-- ===== src/Prelude/Loops.antt =====
-- A `while` loop as a step that is none where the loop ends, run for a number of rounds.
use Prim.Native.Nat.{ℕ, zero, suc, ◌≤◌, ◌<◌}
use mathlib.Core.Path.{◌≡◌}
use mathlib.Core.Logic.{inl, inr}
use mathlib.Core.Option.{Option, none, some}
use native.Mathlib.Omega.{arith}
use claude_email.Prelude.Tests.{Option-cases}

module _ {S : Type 0} where
  unfoldable pub rounds : ℕ → (S → Option S) → S → S
  rounds zero step s = s
  rounds (suc n) step s = elim (step s) [ none ↦ s | some s' ↦ rounds n step s' ]

  -- A measure that each round decreases is enough rounds: the loop ends by itself.
  pub rounds_end :
      (step : S → Option S) (μ : S → ℕ)
      → ((s s' : S) → step s ≡ some s' → μ s' < μ s)
      → (n : ℕ) (s : S) → μ s ≤ n
      → step (rounds n step s) ≡ none
  unfolding rounds
  rounds_end step μ less zero s h = elim (Option-cases (step s)) [
    | inl e ↦ e
    | inr (s', e) ↦ let bad : ⊥ = omega (arith, less s s' e, h) in elim bad [ ]
  ]
  rounds_end step μ less (suc n) s h = elim (Option-cases (step s)) [
    | inl e ↦ rw (e, rounds) e
    | inr (s', e) ↦ rw (e, rounds) (rounds_end step μ less n s' (omega (arith, less s s' e, h)))
  ]

  -- What holds at the start and is kept by each round holds at the end.
  pub rounds_keeps {κ} :
      (P : S → Type κ) (step : S → Option S)
      → ((s s' : S) → step s ≡ some s' → P s → P s')
      → (n : ℕ) (s : S) → P s
      → P (rounds n step s)
  unfolding rounds
  rounds_keeps P step keeps zero s p = p
  rounds_keeps P step keeps (suc n) s p = elim (Option-cases (step s)) [
    | inl e ↦ rw (e, rounds) p
    | inr (s', e) ↦ rw (e, rounds) (rounds_keeps P step keeps n s' (keeps s s' e p))
  ]

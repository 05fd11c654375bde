-- ===== src/Tx/Atomic.antt =====
-- A transaction happens whole or not at all.
use claude_email.Prelude.{ℕ, ◌+◌, ◌-◌, ◌<◌, ◌≡◌, ◌⊎◌, Bool, none, some, arith, refl}
use claude_email.Effect.{Error, Result, ok, raise}
use claude_email.Tx.{Conn, Attempt, Body, run_tx, read}

-- Between two calls: no frame is open and no hook is queued. A transaction may have been left
-- open, by a body that failed outside the wrapper.
pub record IsIdle {ℓ} {S : Type ℓ} (c : Conn S) : Type ℓ where
  pub depth : c.depth ≡ 0
  pub queued : c.queued ≡ 0

module _ {ℓ} {S A : Type ℓ} (first again : Attempt S) (works : Bool) (fn : Body S A)
    (c : Conn S) where
  -- what the first and the second attempt see as committed
  abbrev pub base : S
  base = first.others c.committed

  abbrev pub base_again : S
  base_again = again.others base

  abbrev pub outcome : Result A × Conn S
  outcome = run_tx first again works fn c

  -- Whatever the result of an outermost call, an idle connection is idle again, with no transaction
  -- open.
  pub run_tx-IsIdle : IsIdle c → IsIdle outcome.1 × (outcome.1.working ≡ none)
  unfolding run_tx
  run_tx-IsIdle h = (record { depth = ground arith; queued = ground arith }, ground arith)

  -- An outermost call that raises commits nothing of its own and fires no hook, whether the body
  -- raised, BEGIN or COMMIT failed, or the retry failed.
  pub run_tx_raise :
      (e : Error)
      → IsIdle c
      → outcome.0 ≡ raise e
      → ((outcome.1.committed ≡ base) ⊎ (outcome.1.committed ≡ base_again))
        × (outcome.1.fired ≡ c.fired)
  unfolding run_tx
  run_tx_raise e h r = ground arith

  -- An outermost call that returns a value has committed exactly what one run of the body wrote
  -- from what was committed before it, and has fired the hooks that this run queued.
  pub run_tx_ok :
      (a : A)
      → IsIdle c
      → outcome.0 ≡ ok a
      → (s : S) × (n : ℕ) × ((fn base ≡ (ok a, s, n)) ⊎ (fn base_again ≡ (ok a, s, n)))
        × (outcome.1.committed ≡ s)
        × (outcome.1.fired ≡ c.fired + n)
  unfolding run_tx
  run_tx_ok a h r =
      (outcome.1.committed, outcome.1.fired - c.fired, ground arith, refl, ground arith)

  -- A transaction that was left open is thrown away before an outermost call: its writes reach neither the
  -- body nor what is committed, whether or not ROLLBACK succeeds.
  pub run_tx_stale :
      (w : S)
      → IsIdle c
      → let (r, c') = run_tx first again works fn (record c { working = some w }) in
        let (r₀, c₀) = run_tx first again works fn (record c { working = none }) in
        (r ≡ r₀) × (c'.committed ≡ c₀.committed) × (c'.fired ≡ c₀.fired)
  unfolding run_tx
  run_tx_stale w h = ground arith

  -- A nested call that wrote `s` commits nothing and fires no hook, whether it returned or raised;
  -- it leaves the depth as it was, and a read in the same frame then sees `s`.
  pub read_after_nested :
      (w s : S) (n : ℕ) (r : Result A) (stale : Bool) {B : Type ℓ} (f : S → B)
      → 0 < c.depth
      → c.working ≡ some w
      → fn w ≡ (r, s, n)
      → (outcome.0 ≡ r)
        × (outcome.1.committed ≡ c.committed)
        × (outcome.1.fired ≡ c.fired)
        × (outcome.1.depth ≡ c.depth)
        × (outcome.1.queued ≡ n + c.queued)
        × ((read stale f outcome.1).0 ≡ f s)
  unfolding run_tx read
  read_after_nested w s n r stale f deep open_tx body = ground arith

-- ===== src/Liveness/Probe.antt =====
-- When the probe says that a process is alive.
use claude_email.Prelude.{ℕ, suc, ◌≡◌, true, false, pos, negsuc, arith, refl, ◌≢◌}
use claude_email.Liveness.{Kernel, reaped, is_alive}

module _ {P : Type 0} (k : Kernel P) where
  -- A pid that is not positive is reported dead, and neither call is made. A positive one is
  -- reported alive exactly when `waitpid` did not reap it and signal 0 then reaches it.
  pub is_alive_iff :
      (n : ℕ) (p : P)
      → (is_alive k (pos 0) p ≡ (false, p))
        × (is_alive k (negsuc n) p ≡ (false, p))
        × ((is_alive k (pos (suc n)) p).0 ≡ true
            → ((k.waitpid (suc n) p).0 ≢ reaped)
              × (k.signal_0 (suc n) (k.waitpid (suc n) p).1 ≡ true))
        × ((k.waitpid (suc n) p).0 ≢ reaped
            → k.signal_0 (suc n) (k.waitpid (suc n) p).1 ≡ true
            → (is_alive k (pos (suc n)) p).0 ≡ true)
  unfolding is_alive
  is_alive_iff n p = (refl, refl, λ h. (ground arith, ground arith), λ r s. ground arith)

-- ===== src/Tx/Tests.antt =====
-- The transaction wrapper over a counter.
use claude_email.Prelude.{ℕ, ◌≡◌, ◌⊎◌, ◌+◌, none, some, true, refl}
use claude_email.Effect.{ok, locked}
use claude_email.Tx.{
  Conn, Attempt, Body, run_tx, safe_rollback, check_or_recover, abort, run_tx_outer,
}
use claude_email.Tx.Atomic.{IsIdle, outcome, run_tx_raise, run_tx_ok}

abbrev idle : Conn ℕ
idle = record { committed = 3; working = none; depth = 0; queued = 0; fired = 0; reopened = 0 }

abbrev inner : Conn ℕ
inner = record idle { working = some 4; depth = 1 }

-- an attempt that gets the lock and commits, and one that finds the database locked
abbrev fine : Attempt ℕ
fine = record { others = λ n. n; begin_error = none; commit_error = none; rollback_works = true }

abbrev busy : Attempt ℕ
busy = record fine { begin_error = some locked }

-- a body that adds one and queues a hook
abbrev bump : Body ℕ ℕ
bump n = (ok n, n + 1, 1)

idle-IsIdle : IsIdle idle
idle-IsIdle = record { depth = refl; queued = refl }

run_tx_raise_example :
    (((outcome busy busy true bump idle).1.committed ≡ 3)
      ⊎ ((outcome busy busy true bump idle).1.committed ≡ 3))
    × ((outcome busy busy true bump idle).1.fired ≡ 0)
unfolding run_tx run_tx_outer check_or_recover abort safe_rollback
run_tx_raise_example = run_tx_raise busy busy true bump idle locked idle-IsIdle refl

run_tx_ok_example :
    (s : ℕ) × (n : ℕ) × ((bump 3 ≡ (ok 3, s, n)) ⊎ (bump 3 ≡ (ok 3, s, n)))
    × ((outcome busy fine true bump idle).1.committed ≡ s)
    × ((outcome busy fine true bump idle).1.fired ≡ 0 + n)
unfolding run_tx run_tx_outer check_or_recover abort safe_rollback
run_tx_ok_example = run_tx_ok busy fine true bump idle 3 idle-IsIdle refl

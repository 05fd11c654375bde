-- ===== src/Tx.antt =====
-- src/chat_db_tx.py: `TransactionMixin`, over any type of database contents. SQLite is outside the
-- repository: what it does in an attempt (take the lock or not, commit or not, roll back or not,
-- and what other processes committed before) is an argument, `Attempt`.
pub mod Atomic
mod Tests
use claude_email.Prelude.{ℕ, ◌+◌, ◌-◌, Bool, true, false, Option, none, some, ◌==◌, if◌then◌else◌}
use claude_email.Effect.{Error, Result, ok, raise, locked}

-- The connection and the fields of the mixin. `working` is the open transaction's view, while
-- `conn.in_transaction` holds; `queued` is the length of `_after_commit`; `fired` counts the hooks
-- that were called; `reopened` counts the connections that were replaced.
pub record Conn {ℓ} (S : Type ℓ) : Type ℓ where
  pub committed : S
  pub working : Option S
  pub depth : ℕ
  pub queued : ℕ
  pub fired : ℕ
  pub reopened : ℕ

pub record Attempt {ℓ} (S : Type ℓ) : Type ℓ where
  -- what other connections commit before this attempt begins
  pub others : S → S
  -- the errors of BEGIN IMMEDIATE and of COMMIT, and whether ROLLBACK succeeds
  pub begin_error : Option Error
  pub commit_error : Option Error
  pub rollback_works : Bool

-- The function that `_run_tx` is given: its result or exception, what it wrote up to there, and
-- how many hooks it appended to `_after_commit`.
abbrev pub Body {ℓ} : Type ℓ → Type ℓ → Type ℓ
Body S A = S → Result A × S × ℕ

abbrev pub is_locked : Error → Bool
is_locked locked = true
is_locked _ = false

module _ {ℓ} {S : Type ℓ} where
  -- `_close_and_reopen`: a new connection has no open transaction
  close_and_reopen : Conn S → Conn S
  close_and_reopen c = record c { working = none; reopened = c.reopened + 1 }

  -- `_safe_rollback`: if ROLLBACK fails the connection is replaced, which drops its writes too
  unfoldable pub safe_rollback : Bool → Conn S → Conn S
  unfolding close_and_reopen
  safe_rollback works c = if works then record c { working = none } else close_and_reopen c

  -- `_check_or_recover_at_depth_zero`
  unfoldable pub check_or_recover : Bool → Conn S → Conn S
  unfolding safe_rollback
  check_or_recover works c = elim c.working [ none ↦ c | some w ↦ safe_rollback works c ]

  -- `_safe_rollback`, `_after_commit.clear()`, `_tx_depth = 0`
  unfoldable pub abort : Bool → Conn S → Conn S
  unfolding safe_rollback
  abort works c = record (safe_rollback works c) { queued = 0; depth = 0 }

  -- The hooks are copied, the list is cleared, and each is called; what a hook raises is swallowed.
  fire : Conn S → Conn S
  fire c = record c { queued = 0; fired = c.fired + c.queued }

module _ {ℓ} {S A : Type ℓ} where
  -- from the return of `fn` to the `break`
  finish : Attempt S → Result A × S × ℕ → Conn S → Result A × Conn S
  unfolding abort
  finish t (raise e, s, n) c = (raise e, abort t.rollback_works c)
  finish t (ok a, s, n) c = elim t.commit_error [
    | some e ↦ (raise e, abort t.rollback_works c)
    | none ↦ (ok a, record c { committed = s; working = none; depth = 0; queued = n + c.queued })
  ]

  -- The outer `try` of one attempt. The hooks are left queued here.
  attempt : Attempt S → Body S A → Conn S → Result A × Conn S
  unfolding finish
  attempt t fn c =
      let seen = record c { committed = t.others c.committed } in
      elim t.begin_error [
        | some e ↦ (raise e, seen)
        | none ↦
            finish t (fn seen.committed) (record seen { working = some seen.committed; depth = 1 })
      ]

  -- The handler of OperationalError behind the second attempt, which raises again.
  second : Attempt S → Body S A → Conn S → Result A × Conn S
  unfolding attempt fire
  second t fn c =
      let (r, c') = attempt t fn c in elim r [ ok a ↦ (ok a, fire c') | raise e ↦ (raise e, c') ]

  unfoldable pub run_tx_outer :
      (first again : Attempt S) (stale_rollback : Bool) → Body S A → Conn S → Result A × Conn S
  unfolding attempt second fire check_or_recover abort
  run_tx_outer first again works fn c =
      let (r, c') = attempt first fn (check_or_recover works c) in
      elim r [
        | ok a ↦ (ok a, fire c')
        | raise e ↦
            if is_locked e then second again fn (abort first.rollback_works c') else (raise e, c')
      ]

  -- a nested call: the body joins the open transaction
  nested : S → Result A × S × ℕ → Conn S → Result A × Conn S
  nested w (r, s, n) c = (r, record c { working = some s; queued = n + c.queued })

  unfoldable pub run_tx :
      (first again : Attempt S) (stale_rollback : Bool) → Body S A → Conn S → Result A × Conn S
  unfolding run_tx_outer nested
  run_tx first again works fn c =
      if c.depth == 0 then run_tx_outer first again works fn c else elim c.working [
        | none ↦ nested c.committed (fn c.committed) c
        | some w ↦ nested w (fn w) c
      ]

  -- `_read`: the view of the open transaction if there is one, else what is committed
  unfoldable pub read : Bool → (S → A) → Conn S → A × Conn S
  unfolding check_or_recover
  read works fn c =
      let c' = if c.depth == 0 then check_or_recover works c else c in
      (elim c'.working [ none ↦ fn c'.committed | some w ↦ fn w ], c')

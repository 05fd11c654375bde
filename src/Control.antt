-- ===== src/Control.antt =====
-- src/task_control.py and src/reset_control.py. Signals, git and the clock are outside the
-- repository: what a signal meets, whether the process ends in time and what git does are arguments,
-- and so is what other processes do to the queue during the wait. Log lines and mails are left out.
pub mod Tokens
pub mod Wait
pub mod Cancel
mod Tests
use claude_email.Prelude.{
  ℕ, ◌+◌, String, Bool, true, false, not, ◌||◌, Option, none, some, List, [], ◌∷◌, ◌++◌, ℤ, pos,
  eqb_ℤ, leb, str_eq, if◌then◌else◌, ◌<+>◌, show_ℤ, or_text,
}
use claude_email.Effect.{Result, ok, raise, Error, os_error}
use claude_email.Table.{select, delete}
use claude_email.Table.Keys.{keyed, row_of, upsert}
use claude_email.Db.{Task, Tasks}
use claude_email.Queue.{get_running, list_pending, cancel, drain_pending}
use claude_email.Ghosts.{launched}

-- An item of `_tokens`. Times are those of `time.monotonic`, in microseconds.
pub record Token : Type 0 where
  pub token : String
  pub project : String
  pub expires_at : ℕ

abbrev pub token_of : Token → String
token_of e = e.token

-- `token` is the random text that the call draws.
unfoldable pub issue :
    (now ttl : ℕ) (token project_path : String) → List Token → String × List Token
issue now ttl token project store = (
  token,
  upsert token_of token (record { token = token; project = project; expires_at = now + ttl })
      (λ e. record e { project = project; expires_at = now + ttl }) store,
)

-- `self._tokens.pop(token, None)`
abbrev pub pop : String → List Token → List Token
pop token store = delete (keyed token_of token) store

unfoldable pub consume : (now : ℕ) (project_path token : String) → List Token → Bool × List Token
consume now project token store = elim (row_of token_of token store) [
  | none ↦ (false, store)
  | some e ↦
      if not (str_eq e.project project) || leb e.expires_at now
      then (false, pop token store)
      else (true, pop token store)
]

unfoldable pub purge : (now : ℕ) → List Token → List Token
purge now store = delete (λ e. leb e.expires_at now) store

pub data Signal : Type 0 where
  sigterm : ℤ → Signal
  sigkill : ℤ → Signal

-- The dict that `cancel_running_task` returns, and the signals that it sent.
pub record CancelResult : Type 0 where
  pub task_id : Option ℕ
  pub drained : Option ℕ
  pub signals : List Signal

-- What `os.kill` does: the signal is delivered, or it raises ProcessLookupError or PermissionError.
pub data Kill : Type 0 where
  delivered no_process denied : Kill

-- What the kernel does about the two signals and whether the process ends in time; and what other
-- processes do to the queue from `get_running` to `cancel`, the wait included.
pub record Stop : Type 0 where
  pub sigterm : Kill
  pub exited : Bool
  pub sigkill : Kill
  pub meanwhile : Tasks → Tasks

abbrev pub permission_error : Error
permission_error = os_error "[Errno 1] Operation not permitted"

-- SIGKILL, whose ProcessLookupError is swallowed
abbrev pub kill_hard : Kill → (pid : ℤ) → Result (List Signal)
kill_hard denied pid = raise permission_error
kill_hard _ pid = ok (sigterm pid ∷ sigkill pid ∷ [])

-- The signals to a process: SIGTERM, and SIGKILL if that found it and it did not end in time.
abbrev pub kill_soft : Kill → (exited : Bool) (sigkill : Kill) (pid : ℤ) → Result (List Signal)
kill_soft denied exited hard pid = raise permission_error
kill_soft no_process exited hard pid = ok (sigterm pid ∷ [])
kill_soft delivered true hard pid = ok (sigterm pid ∷ [])
kill_soft delivered false hard pid = kill_hard hard pid

unfoldable pub stop_process : Stop → Option ℤ → Result (List Signal)
stop_process stop none = ok []
stop_process stop (some pid) = kill_soft stop.sigterm stop.exited stop.sigkill pid

abbrev pub drain_if : Bool → (now : ℕ) (project_path : String) → Tasks → Option ℕ × Tasks
drain_if false now path queue = (none, queue)
drain_if true now path queue = let (n, queue') = drain_pending now path queue in (some n, queue')

-- what follows the signals
abbrev pub cancel_after :
    (now : ℕ) (project_path : String) (drain_queue : Bool) (task_id : ℕ)
    → Result (List Signal)
    → Tasks
    → Result CancelResult × Tasks
cancel_after now path drain n (raise e) queue = (raise e, queue)
cancel_after now path drain n (ok signals) queue =
    let (drained, queue') = drain_if drain now path (cancel now n queue) in
    (ok (record { task_id = some n; drained = drained; signals = signals }), queue')

unfoldable pub cancel_running_task :
    Stop
    → (now : ℕ) (project_path : String) (drain_queue : Bool) → Tasks
    → Result CancelResult × Tasks
unfolding stop_process
cancel_running_task stop now path drain queue = elim (get_running path queue) [
  | none ↦
      let (drained, queue') = drain_if drain now path queue in
      (ok (record { task_id = none; drained = drained; signals = [] }), queue')
  | some t ↦
      cancel_after now path drain t.id (stop_process stop (launched t)) (stop.meanwhile queue)
]

unfoldable pub queue_status : String → Tasks → Option Task × List Task
queue_status path queue = (get_running path queue, list_pending path queue)

-- What `perform_reset` returns.
pub data Reset : Type 0 where
  reset_failed : (error : String) → Reset
  reset : (cancelled_task_id drained : Option ℕ) → Reset

-- `git` is `_run_git` in the directory of the project: its return code and its output.
module _ {World : Type 0} (git : List String → World → (ℤ × String) × World) where
  -- `git clean -fd`, after a reset
  unfoldable pub clean : CancelResult → World → Reset × World
  clean r w =
      let ((rc, output), w') = git ("git" ∷ "clean" ∷ "-fd" ∷ []) w in
      (
        if not (eqb_ℤ rc (pos 0))
            then reset_failed (or_text output ("git clean rc=" <+> show_ℤ rc))
            else reset r.task_id r.drained,
        w',
      )

  -- the two git commands
  unfoldable pub reset_tree : CancelResult → World → Reset × World
  unfolding clean
  reset_tree r w =
      let ((rc, output), w') = git ("git" ∷ "reset" ∷ "--hard" ∷ "HEAD" ∷ []) w in
      elim (eqb_ℤ rc (pos 0)) [
        | false ↦ (reset_failed (or_text output ("git reset rc=" <+> show_ℤ rc)), w')
        | true ↦ clean r w'
      ]

  abbrev pub reset_after : Result CancelResult × Tasks → World → Result Reset × (Tasks × World)
  reset_after (raise e, queue) w = (raise e, (queue, w))
  reset_after (ok r, queue) w = let (answer, w') = reset_tree r w in (ok answer, (queue, w'))

  unfoldable pub perform_reset :
      Stop → (now : ℕ) (project_path : String) → Tasks × World → Result Reset × (Tasks × World)
  unfolding cancel_running_task reset_tree
  perform_reset stop now path (queue, w) =
      reset_after (cancel_running_task stop now path true queue) w

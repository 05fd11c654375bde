-- ===== src/TaskState.antt =====
-- src/task_state.py: the task state of a project, from what its queue returns.
pub mod Life
mod Tests
use claude_email.Prelude.{
  ℕ, ◌-◌, ◌*◌, String, Option, none, some, List, [], ◌∷◌, ltb, if◌then◌else◌,
}
use claude_email.Db.{Task, Tasks, TaskStatus}
use claude_email.Queue.{get_running, list_pending, latest_task}

pub data TaskState : Type 0 where
  working waiting completed error : TaskState

-- the last lines, for the status of the latest task
abbrev pub terminal_state : TaskStatus → Option TaskState
terminal_state status = elim status [
  | TaskStatus.failed ↦ some error
  | TaskStatus.done ↦ some completed
  | TaskStatus.cancelled ↦ some completed
  | _ ↦ none
]

-- from `latest = queue.latest_task(…)` on
unfoldable pub faded : (now fade_secs : ℕ) → Option Task → Option TaskState
faded now fade none = none
faded now fade (some t) = elim t.completed_at [
  | none ↦ none
  | some at ↦ if ltb at (now - fade * 1_000_000) then none else terminal_state t.status
]

-- `queue.list_pending` as a condition: is the list not empty
unfoldable pub unless_pending : List Task → Option TaskState → Option TaskState
unless_pending [] rest = rest
unless_pending (t ∷ ts) rest = some waiting

unfoldable pub task_state_for_project : (now fade_secs : ℕ) → String → Tasks → Option TaskState
unfolding faded unless_pending
task_state_for_project now fade path queue = elim (get_running path queue) [
  | some t ↦ some working
  | none ↦ unless_pending (list_pending path queue) (faded now fade (latest_task path queue))
]

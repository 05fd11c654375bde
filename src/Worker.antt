-- ===== src/Worker.antt =====
-- src/project_worker.py: one turn of a project's worker. The agent's process is outside the
-- repository: whether it starts, what it prints and how it ends is an argument, and so is what other
-- processes do to the queue while it runs.
pub mod Turn
mod Tests
use claude_email.Prelude.{
  ℕ, String, Bool, true, false, Option, none, some, List, [], ◌∷◌, ◌++◌, ℤ, pos, eqb_ℤ,
  if◌then◌else◌, ◌<+>◌, show_ℕ, show_ℤ, or_empty,
}
use claude_email.Db.{Task, Tasks, TaskStatus}
use claude_email.Queue.{get, set_pid, set_output, mark_done, mark_failed, claim_next}
use claude_email.Branch.{Prepared}

pub record WorkerConfig : Type 0 where
  pub project_path : String
  pub claude_bin : String
  pub mcp_config : String
  pub task_timeout : ℕ
  pub yolo : Bool

-- How the process ended: by itself with a code, or killed when `task_timeout` was over.
pub data Ended : Type 0 where
  exited : (rc : ℤ) → Ended
  timed_out : Ended

pub record Run : Type 0 where
  pub pid : ℤ
  pub stdout : Option String
  pub ended : Ended
  -- what the other processes write while this one runs
  pub meanwhile : Tasks → Tasks

abbrev pub plan_first_prefix : String
plan_first_prefix =
    "BEFORE doing any actual work for this task, propose a short plan "
    <+> "(3-6 sentences) to the user via "
    <+> "mcp__claude-chat__chat_ask(_caller=\"agent-<project>\", message=\"...\") "
    <+> "and WAIT for their reply. Only start coding AFTER the user approves "
    <+> "(or refines) the plan. If they say stop/cancel, just reply briefly "
    <+> "via chat_notify and exit without modifying anything.\n\n"
    <+> "Task to propose a plan for:\n"

unfoldable pub build_argv : WorkerConfig → (body : String) (plan_first : Bool) → List String
build_argv cfg body plan =
    cfg.claude_bin ∷ (if cfg.yolo then "--dangerously-skip-permissions" ∷ [] else [])
    ++ "--continue"
      ∷ "--mcp-config"
      ∷ cfg.mcp_config
      ∷ "--print"
      ∷ (if plan then plan_first_prefix <+> body else body)
      ∷ []

-- `_status(queue, tid) == "running"`
unfoldable pub runs : ℕ → Tasks → Bool
runs n queue = elim (get n queue) [
  | none ↦ false
  | some t ↦ elim t.status [ TaskStatus.running ↦ true | _ ↦ false ]
]

-- `tail` is `_tail`, which cuts the UTF-8 bytes to the last 4000.
module _ (tail : String → String) (cfg : WorkerConfig) (now : ℕ) where
  -- the end of a turn, from `set_output` on
  unfoldable pub settle : ℕ → Ended → Tasks → Tasks
  settle n (exited rc) queue =
      if runs n queue
      then (if eqb_ℤ rc (pos 0)
          then mark_done now n queue
          else mark_failed now n ("claude exited rc=" <+> show_ℤ rc <+> "; see output_text tail")
              queue)
      else queue
  settle n timed_out queue =
      if runs n queue
      then mark_failed now n ("timeout after " <+> show_ℕ cfg.task_timeout <+> "s") queue
      else queue

  -- `run_task` behind `prepare_branch`, for a process that starts
  unfoldable pub run_agent : Task → Run → Tasks → Tasks
  unfolding settle
  run_agent claimed run queue =
      let seen = run.meanwhile (set_pid claimed.id run.pid queue) in
      settle claimed.id run.ended (set_output claimed.id (tail (or_empty run.stdout)) seen)

  -- Without a run, Popen raised, and the exception leaves the worker with the queue as it is.
  unfoldable pub run_task : {World : Type 0} → Task → Prepared World → Option Run → Tasks
  unfolding run_agent
  run_task claimed prepared run =
      if prepared.go
      then elim run [ none ↦ prepared.queue | some r ↦ run_agent claimed r prepared.queue ]
      else prepared.queue

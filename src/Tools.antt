-- ===== src/Tools.antt =====
-- src/chat/project_tools.py and error_result_from_exc of src/error_codes.py: the tools on a project.
-- The store's queue is `db.tasks`; the worker manager is an interface, and paths, `strip` and the
-- classifier of bodies are arguments.
pub mod Resolve
pub mod Retry
mod Tests
use claude_email.Prelude.{
  ℕ, String, Bool, true, false, not, ◌&&◌, ◌||◌, Option, none, some, List, [], ◌∷◌, str_eq,
  if◌then◌else◌, ◌<+>◌, or_empty, or_text, show_ℕ, ℤ, pos, ltb_ℤ,
}
use claude_email.Effect.{Result, ok, raise, Error, value_error}
use claude_email.Db.{Db, Task, Tasks, TaskStatus}
use claude_email.Queue
use claude_email.Queue.{Origin, no_origin, enqueue}
use claude_email.Control.{Stop, CancelResult, cancel_running_task, queue_status}

-- What `os.path` and `pathlib` say: `joined` is the candidate of `resolve_project`, resolved.
pub record Paths : Type 0 where
  pub joined : (allowed_base project : String) → String
  pub resolve : String → String
  pub is_dir : String → Bool
  pub startswith : String → String → Bool

-- `WorkerManager.ensure_worker`
pub record Pool (Workers : Type 0) : Type 0 where
  pub ensure_worker : String → Workers → Result (ℤ × Workers)

-- The exceptions of `resolve_project`, all of them ValueErrors.
pub data Refusal : Type 0 where
  not_configured : Refusal
  not_found : (resolved : String) → Refusal
  outside : (resolved base : String) → Refusal

pub data Resolution : Type 0 where
  found : (resolved : String) → Resolution
  refused : Refusal → Resolution

module _ (paths : Paths) where
  abbrev pub in_base : (base resolved : String) → Bool
  in_base base resolved = paths.startswith resolved (base <+> "/") || str_eq resolved base

  unfoldable pub resolve_project : (project allowed_base : String) → Resolution
  resolve_project project allowed_base =
      let resolved = paths.joined allowed_base project in
      let base = paths.resolve allowed_base in
      if str_eq allowed_base ""
      then refused not_configured
      else if not (paths.is_dir resolved)
      then refused (not_found resolved)
      else if not (in_base base resolved)
      then refused (outside resolved base)
      else found resolved

-- The dict with "error" and "error_code", "" where there is no code.
pub record Failure : Type 0 where
  pub error : String
  pub error_code : String

unfoldable pub error_result : Refusal → Failure
error_result not_configured = record {
  error = "CLAUDE_CWD not configured on chat server";
  error_code = "internal";
}
error_result (not_found resolved) = record {
  error = "Project path does not exist: " <+> resolved;
  error_code = "project_not_found";
}
error_result (outside resolved base) = record {
  error = "Project path " <+> resolved <+> " is outside allowed base " <+> base;
  error_code = "forbidden";
}

pub record Enqueued : Type 0 where
  pub task_id : ℕ
  pub worker_pid : ℤ
  pub planned_branch : String
  pub plan_first : Bool

pub record Retried : Type 0 where
  pub new_task_id : ℕ
  pub retry_of : ℕ
  pub worker_pid : ℤ

-- The result of a tool: a dict with "error", another, or an exception that leaves the tool.
pub data Answered (A : Type 0) : Type 0 where
  failure : Failure → Answered A
  answered : A → Answered A
  escaped : Error → Answered A

-- `except ValueError`, after a call of the manager
abbrev pub worker_failure : {A : Type 0} → (error_code : String) → Error → Answered A
worker_failure code (value_error s) = failure (record { error = s; error_code = code })
worker_failure code e = escaped e

-- What the tool makes of a call that it does not guard.
abbrev pub unguarded : {A : Type 0} → Result A → Answered A
unguarded (ok a) = answered a
unguarded (raise e) = escaped e

abbrev pub clamp_priority : ℤ → ℤ
clamp_priority p = if ltb_ℤ p (pos 0) then pos 0 else if ltb_ℤ (pos 10) p then pos 10 else p

abbrev pub put_tasks : Tasks → Db → Db
put_tasks tasks db = record db { tasks = tasks }

-- The arguments of `enqueue_task_tool`.
pub record Request : Type 0 where
  pub project : String
  pub body : String
  pub priority : ℤ
  pub plan_first : Bool
  pub origin : Origin
  pub dispatch_token : String
  pub mutates_repo : Option Bool

-- `not in _TERMINAL_STATES`
abbrev pub is_terminal : TaskStatus → Bool
is_terminal TaskStatus.done = true
is_terminal TaskStatus.failed = true
is_terminal TaskStatus.cancelled = true
is_terminal _ = false

abbrev pub status_name : TaskStatus → String
status_name TaskStatus.pending = "pending"
status_name TaskStatus.running = "running"
status_name TaskStatus.done = "done"
status_name TaskStatus.failed = "failed"
status_name TaskStatus.cancelled = "cancelled"
status_name TaskStatus.routed_via_agent = "routed_via_agent"

module _ (paths : Paths) where
  unfoldable pub cancel_task_tool :
      Stop
      → (now : ℕ) (project allowed_base : String) (drain_queue : Bool) → Db
      → Answered CancelResult × Db
  cancel_task_tool stop now project allowed_base drain db =
      elim (resolve_project paths project allowed_base) [
        | refused x ↦ (failure (error_result x), db)
        | found resolved ↦
            let (r, tasks) = cancel_running_task stop now resolved drain db.tasks in
            (unguarded r, put_tasks tasks db)
      ]

  unfoldable pub queue_status_tool :
      (project allowed_base : String) → Db → Answered (Option Task × List Task)
  queue_status_tool project allowed_base db = elim (resolve_project paths project allowed_base) [
    | refused x ↦ failure (error_result x)
    | found resolved ↦ answered (queue_status resolved db.tasks)
  ]

module _ (paths : Paths) (classify : String → Option Bool) (branch_name : ℕ → String → String)
    (strip : String → String) {Workers : Type 0} (pool : Pool Workers) where
  abbrev pub State : Type 0
  State = Db × Workers

  abbrev pub decided : Request → Option Bool
  decided r = elim r.mutates_repo [ none ↦ classify r.body | some b ↦ some b ]

  abbrev pub planned : Option Bool → ℕ → String → String
  planned (some false) n body = ""
  planned _ n body = branch_name n body

  -- what follows the worker
  unfoldable pub enqueue_request :
      (now : ℕ) → Request → (resolved : String) (worker_pid : ℤ) → Db → Enqueued × Db
  enqueue_request now r resolved pid db =
      let (n, tasks) =
        enqueue now resolved r.body (clamp_priority r.priority) none r.plan_first r.origin
          r.dispatch_token "" (decided r) db.tasks in
      (
        record {
          task_id = n;
          worker_pid = pid;
          planned_branch = planned (decided r) n r.body;
          plan_first = r.plan_first;
        },
        put_tasks tasks db,
      )

  unfoldable pub enqueue_resolved :
      (now : ℕ) → Request → Resolution → State → Answered Enqueued × State
  unfolding enqueue_request
  enqueue_resolved now r (refused x) s = (failure (error_result x), s)
  enqueue_resolved now r (found resolved) (db, w) = elim (pool.ensure_worker resolved w) [
    | raise e ↦ (worker_failure "internal" e, (db, w))
    | ok (pid, w') ↦
        let (queued, db') = enqueue_request now r resolved pid db in (answered queued, (db', w'))
  ]

  unfoldable pub enqueue_task_tool :
      (now : ℕ) (allowed_base : String) → Request → State → Answered Enqueued × State
  unfolding enqueue_resolved
  enqueue_task_tool now allowed_base r s =
      enqueue_resolved now r (resolve_project paths r.project allowed_base) s

  -- what follows the guards of `retry_task_tool`
  unfoldable pub retry_with :
      (now : ℕ) → Task → (new_body : String) → State → Answered Retried × State
  retry_with now t new_body (db, w) = elim (pool.ensure_worker t.project_path w) [
    | raise e ↦ (worker_failure "" e, (db, w))
    | ok (pid, w') ↦
        let (n, tasks) =
          enqueue now t.project_path (or_text (strip new_body) t.body) (clamp_priority t.priority)
            (some t.id) false no_origin "" (or_empty t.branch_name) t.mutates_repo db.tasks in
        (
          answered (record { new_task_id = n; retry_of = t.id; worker_pid = pid }),
          (put_tasks tasks db, w'),
        )
  ]

  abbrev pub plain_failure : String → Failure
  plain_failure s = record { error = s; error_code = "" }

  unfoldable pub retry_task_tool :
      (now task_id : ℕ) (new_body : String) → State → Answered Retried × State
  unfolding retry_with
  retry_task_tool now n new_body s = elim (Queue.get n s.0.tasks) [
    | none ↦ (failure (plain_failure ("task #" <+> show_ℕ n <+> " not found")), s)
    | some t ↦
        let retried = retry_with now t new_body s in
        if not (is_terminal t.status)
        then (
          failure (
              plain_failure (
                "task #"
                <+> show_ℕ n
                <+> " is "
                <+> status_name t.status
                <+> "; can only retry terminal tasks")),
          s,
        )
        else retried
  ]

-- ===== src/Manager.antt =====
-- src/worker_manager.py: at most one worker process for a project. The kernel, Popen and pgrep are
-- outside the repository: a record of what they do, over a state `Os`.
pub mod Once
mod Tests
use claude_email.Prelude.{
  ℕ, String, Bool, true, false, not, Option, none, some, List, [], ◌∷◌, map, str_eq, if◌then◌else◌,
  ℤ, ◌<+>◌,
}
use claude_email.Table.{delete}
use claude_email.Table.Keys.{keyed, row_of, upsert}
use claude_email.Effect.{Result, ok, raise, value_error}

-- An item of `_workers`.
pub record Worker : Type 0 where
  pub path : String
  pub pid : ℤ

abbrev pub path_of : Worker → String
path_of w = w.path

pub record Kernel (Os : Type 0) : Type 0 where
  -- `Path(p).resolve()` if it is a directory
  pub resolve : String → Os → Option String
  -- `poll() is None` and `is_alive(pid)`
  pub running : ℤ → Os → Bool
  -- `_find_external_worker_pid`: what pgrep finds and is alive
  pub find_external : String → Os → Option ℤ
  -- `subprocess.Popen`
  pub popen : List String → Os → ℤ × Os

module _ {Os : Type 0} (kernel : Kernel Os) (python_bin : String) where
  abbrev pub Manager : Type 0
  Manager = List Worker × Os

  abbrev pub worker_argv : String → List String
  worker_argv resolved = python_bin ∷ "-m" ∷ "src.project_worker" ∷ resolved ∷ []

  abbrev pub new_worker : String → ℤ → Worker
  new_worker resolved pid = record { path = resolved; pid = pid }

  unfoldable pub spawn : (resolved : String) → Manager → ℤ × Manager
  spawn resolved (workers, os) =
      let (pid, os') = kernel.popen (worker_argv resolved) os in
      (
        pid,
        (
          upsert path_of resolved (new_worker resolved pid) (λ w. record w { pid = pid }) workers,
          os',
        ),
      )

  -- after the look-up in `_workers`: no live worker of this manager covers the path
  unfoldable pub external_or_spawn : (resolved : String) → Manager → ℤ × Manager
  unfolding spawn
  external_or_spawn resolved (workers, os) = elim (kernel.find_external resolved os) [
    | some pid ↦ (pid, (workers, os))
    | none ↦ spawn resolved (workers, os)
  ]

  unfoldable pub ensure_resolved : (resolved : String) → Manager → ℤ × Manager
  unfolding external_or_spawn
  ensure_resolved resolved (workers, os) = elim (row_of path_of resolved workers) [
    | none ↦ external_or_spawn resolved (workers, os)
    | some w ↦
        if kernel.running w.pid os
        then (w.pid, (workers, os))
        else external_or_spawn resolved (delete (keyed path_of resolved) workers, os)
  ]

  unfoldable pub ensure_worker : (project_path : String) → Manager → Result (ℤ × Manager)
  unfolding ensure_resolved
  ensure_worker path (workers, os) = elim (kernel.resolve path os) [
    | none ↦ raise (value_error ("Project path does not exist: " <+> path))
    | some resolved ↦ ok (ensure_resolved resolved (workers, os))
  ]

  unfoldable pub reap : Manager → Manager
  reap (workers, os) = (delete (λ w. not (kernel.running w.pid os)) workers, os)

  unfoldable pub pid_of : (project_path : String) → Manager → Option ℤ
  pid_of path (workers, os) = elim (kernel.resolve path os) [
    | none ↦ none
    | some resolved ↦ elim (row_of path_of resolved workers) [
      | none ↦ none
      | some w ↦ if kernel.running w.pid os then some w.pid else none
    ]
  ]

  unfoldable pub active_workers : Manager → List (String × ℤ)
  active_workers (workers, os) = map (λ w. (w.path, w.pid)) workers

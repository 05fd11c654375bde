-- ===== src/Worker/Tests.antt =====
-- A turn of the worker at a concrete queue.
use claude_email.Prelude.{◌≡◌, true, false, none, some, [], ◌∷◌, pos, if◌then◌else◌, refl}
use claude_email.Db.{Task, Tasks, TaskStatus}
use claude_email.Queue.{new_task, no_origin, set_pid}
use claude_email.Worker.{WorkerConfig, Run, exited, runs, run_agent, build_argv}
use claude_email.Worker.Turn.{status_of, verdict, run_agent_lem}

abbrev cfg : WorkerConfig
cfg = record {
  project_path = "/p";
  claude_bin = "claude";
  mcp_config = "mcp.json";
  task_timeout = 3600;
  yolo = true;
}

abbrev claimed : Task
claimed = record (new_task 1 1 "/p" "fix it" (pos 0) none false no_origin "" "" none) {
  status = TaskStatus.running;
}

abbrev queue : Tasks
queue = record { rows = claimed ∷ []; next_id = 2 }

abbrev run : Run
run = record { pid = pos 77; stdout = some "done"; ended = exited (pos 0); meanwhile = λ q. q }

run_agent_lem_example :
    let after = set_pid 1 (pos 77) queue in
    let ended = run_agent (λ s. s) cfg 9 claimed run queue in
    (status_of 1 ended
      ≡ (if runs 1 after then some (verdict (exited (pos 0))) else status_of 1 after))
    × (runs 1 ended ≡ false)
run_agent_lem_example = run_agent_lem (λ s. s) cfg 9 claimed run queue

argv :
    build_argv cfg "fix it" false
    ≡ "claude" ∷ "--dangerously-skip-permissions" ∷ "--continue" ∷ "--mcp-config" ∷ "mcp.json"
      ∷ "--print" ∷ "fix it" ∷ []
unfolding build_argv
argv = refl

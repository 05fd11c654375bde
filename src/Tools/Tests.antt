-- ===== src/Tools/Tests.antt =====
-- The tools on a base with one project.
use claude_email.Prelude.{ℕ, String, Bool, true, false, Option, none, some, [], ◌∷◌, pos, str_eq}
use claude_email.Effect.{ok}
use claude_email.Db.{Db, empty_db, TaskStatus}
use claude_email.Queue.{new_task, no_origin}
use claude_email.Tools.{Paths, Pool, Request, enqueue_task_tool}
use claude_email.Tools.Resolve
use claude_email.Tools.Resolve.{enqueue_task_tool-Ends}

abbrev paths : Paths
paths = record {
  joined = λ base p. p;
  resolve = λ p. p;
  is_dir = λ p. str_eq p "/base/p";
  startswith = λ s p. true;
}

abbrev pool : Pool Unit
pool = record { ensure_worker = λ p w. ok (pos 42, w) }

abbrev classify : String → Option Bool
classify body = some true

abbrev branch_name : ℕ → String → String
branch_name n body = "claude/task"

abbrev strip : String → String
strip s = s

abbrev request : Request
request = record {
  project = "/base/p";
  body = "fix it";
  priority = pos 99;
  plan_first = false;
  origin = no_origin;
  dispatch_token = "";
  mutates_repo = none;
}

enqueue_task_tool-Ends_example :
    let (a, (db', w')) =
      enqueue_task_tool paths classify branch_name strip pool 5 "/base" request (empty_db, tt) in
    Resolve.Ends paths classify branch_name strip pool "/base" request a empty_db db'
enqueue_task_tool-Ends_example =
    enqueue_task_tool-Ends paths classify branch_name strip pool 5 "/base" request empty_db tt

abbrev ended : Db
ended = record empty_db {
  tasks = record {
    rows =
        record (new_task 1 1 "/base/p" "fix it" (pos 0) none false no_origin "" "" (some true)) {
          status = TaskStatus.failed;
        }
        ∷ [];
    next_id = 2;
  };
}

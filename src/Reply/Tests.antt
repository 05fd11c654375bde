-- ===== src/Reply/Tests.antt =====
-- A reply on the thread of a task.
use claude_email.Prelude.{ℕ, String, Bool, true, false, Option, none, some, [], ◌∷◌, pos}
use claude_email.Effect.{ok}
use claude_email.Db.{Db, empty_db, Task, Tasks}
use claude_email.Queue.{new_task, no_origin}
use claude_email.Bus.{new_message, Draft}
use claude_email.Tools.{Paths, Pool}
use claude_email.Reply.{prior_branch}
use claude_email.Reply.Prior.{IsSafe, prior_branch-IsSafe}

abbrev paths : Paths
paths = record {
  joined = λ base p. p;
  resolve = λ p. p;
  is_dir = λ p. true;
  startswith = λ s p. true;
}

abbrev pool : Pool Unit
pool = record { ensure_worker = λ p w. ok (pos 42, w) }

abbrev same : String → String
same s = s

abbrev valid : String → Bool
valid s = true

abbrev classify : String → Option Bool
classify body = some true

abbrev branch_name : ℕ → String → String
branch_name n body = "claude/task"

abbrev notice : Draft
notice = record {
  from_name = "agent-p";
  to_name = "user";
  body = "done";
  msg_type = "notify";
  in_reply_to = none;
  content_type = "";
  task_id = some 1;
  in_reply_to_eid = "";
  email_message_id = "<n>";
}

abbrev tasks : Tasks
tasks = record {
  rows =
      new_task 1 1 "/p" "fix it" (pos 0) none false no_origin "token" "claude/task-1-fix"
        (some true)
      ∷ new_task 2 1 "/p" "and that" (pos 0) none false no_origin "other" "" none
      ∷ [];
  next_id = 3;
}

abbrev store : Db
store = record empty_db {
  tasks = tasks;
  messages = new_message 1 1 notice ∷ [];
  next_message = 2;
  agents =
      record {
        name = "agent-p";
        project_path = "/p";
        status = "running";
        pid = none;
        registered_at = 1;
        last_seen_at = 1;
      }
      ∷ [];
  outbound_emails =
      record {
        email_message_id = "<n>";
        sent_at = 2;
        kind = "notify";
        sender_agent = some "agent-p";
        task_id = some 1;
        body = none;
        in_reply_to_eid = none;
      }
      ∷ [];
}

prior_branch-IsSafe_example :
    IsSafe same same valid "<n>" "/p" "agent-p"
      (prior_branch same same valid "<n>" "/p" "agent-p" store)
      store
prior_branch-IsSafe_example = prior_branch-IsSafe same same valid "<n>" "/p" "agent-p" store

abbrev other_task : Task
other_task = new_task 2 1 "/p" "and that" (pos 0) none false no_origin "other" "" none

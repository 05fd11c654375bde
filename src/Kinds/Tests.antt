-- ===== src/Kinds/Tests.antt =====
-- A command and a query, with and without the shared secret.
use claude_email.Prelude.{ℕ, String, Bool, true, false, Option, none, some, ℤ, pos}
use claude_email.Effect.{ok}
use claude_email.Db.{Db, Task}
use claude_email.Json.{Json, Fields, null, no_fields}
use claude_email.Envelope.{Envelope}
use claude_email.Control.{Stop, delivered}
use claude_email.Tools.{Paths, Pool}
use claude_email.Kinds.{Inbound}

abbrev pub paths : Paths
paths = record {
  joined = λ base p. p;
  resolve = λ p. p;
  is_dir = λ p. true;
  startswith = λ s p. true;
}

abbrev pub pool : Pool Unit
pool = record { ensure_worker = λ p w. ok (pos 42, w) }

abbrev classify : String → Option Bool
classify body = some true

abbrev branch_name : ℕ → String → String
branch_name n body = "claude/task"

abbrev same : String → String
same s = s

abbrev pub row : Task → Json
row t = null

abbrev pub list_projects : ℤ → Db → ℕ × Fields
list_projects v db = (0, no_fields)

abbrev command : Envelope
command = record {
  v = pos 1;
  kind = "command";
  body = "fix it";
  task_id = none;
  project = some "/base/p";
  priority = none;
  plan_first = false;
  drain_queue = false;
  new_body = "";
  token = "";
  auth = "guess";
  client = "";
  sent_at = "";
  ask_id = none;
  prefer_live_agent = true;
  extras = no_fields;
}

abbrev inbound : Inbound
inbound = record { msg_id = "<a>"; subject = "task"; sender = "me@test" }

abbrev stop : Stop
stop = record { sigterm = delivered; exited = true; sigkill = delivered; meanwhile = λ s. s }

-- ===== src/Db.antt =====
-- src/chat_schema.py: the tables of claude-chat.db, each as the list of its rows in rowid order,
-- with the next AUTOINCREMENT id beside it. A nullable column is an `Option`. A timestamp, which
-- the program writes by `datetime.now(timezone.utc).isoformat()` and compares as text, is the
-- number of microseconds since year 1: the texts of one length and one offset order as these do.
use claude_email.Prelude.{ℕ, String, Bool, Option, List, [], ℤ}

-- The values of `tasks.status`, as src/task_queue.py writes them.
pub data TaskStatus : Type 0 where
  pending running done failed cancelled routed_via_agent : TaskStatus

pub record Task : Type 0 where
  pub id : ℕ
  pub project_path : String
  pub body : String
  pub status : TaskStatus
  pub priority : ℤ
  pub pid : Option ℤ
  pub branch_name : Option String
  pub mutates_repo : Option Bool
  pub created_at : ℕ
  pub started_at : Option ℕ
  pub completed_at : Option ℕ
  pub error_text : Option String
  pub output_text : Option String
  pub retry_of : Option ℕ
  pub plan_first : Bool
  pub origin_content_type : Option String
  pub origin_message_id : Option String
  pub origin_subject : Option String
  pub origin_from : Option String
  pub dispatch_token : Option String
  pub last_sent_status : Option String
  pub origin_envelope_v : Option ℤ

pub record Tasks : Type 0 where
  pub rows : List Task
  pub next_id : ℕ

-- The values of `messages.status`.
pub data MessageStatus : Type 0 where
  pending delivered failed : MessageStatus

pub record Message : Type 0 where
  pub id : ℕ
  pub from_name : String
  pub to_name : String
  pub body : String
  pub type : String
  pub status : MessageStatus
  pub email_message_id : Option String
  pub in_reply_to : Option ℕ
  pub created_at : ℕ
  pub content_type : Option String
  pub task_id : Option ℕ
  pub in_reply_to_eid : Option String

pub record Agent : Type 0 where
  pub name : String
  pub project_path : String
  pub status : String
  pub pid : Option ℤ
  pub registered_at : ℕ
  pub last_seen_at : ℕ

pub record Event : Type 0 where
  pub id : ℕ
  pub event_type : String
  pub participant : String
  pub summary : String
  pub created_at : ℕ

pub record WakeSession : Type 0 where
  pub agent_name : String
  pub session_id : String
  pub last_turn_at : ℕ

pub record OutboundEmail : Type 0 where
  pub email_message_id : String
  pub sent_at : ℕ
  pub kind : String
  pub sender_agent : Option String
  pub task_id : Option ℕ
  pub body : Option String
  pub in_reply_to_eid : Option String

pub record Db : Type 0 where
  pub tasks : Tasks
  pub messages : List Message
  pub next_message : ℕ
  pub agents : List Agent
  pub events : List Event
  pub next_event : ℕ
  pub wake_sessions : List WakeSession
  pub outbound_emails : List OutboundEmail
  -- how many wake hooks the transaction has queued in `_after_commit`
  pub hooks : ℕ

abbrev pub empty_tasks : Tasks
empty_tasks = record { rows = []; next_id = 1 }

abbrev pub empty_db : Db
empty_db = record {
  tasks = empty_tasks;
  messages = [];
  next_message = 1;
  agents = [];
  events = [];
  next_event = 1;
  wake_sessions = [];
  outbound_emails = [];
  hooks = 0;
}

-- ===== src/Bus.antt =====
-- src/chat_db_impls.py: the bodies of the transactions on `messages`, `events` and
-- `tasks.last_sent_status`. `now` is the value of `_now()`.
pub mod Delivery
pub mod Status
mod Tests
use mathlib.Core.Option
use claude_email.Prelude.{
  ℕ, ◌+◌, String, Bool, true, false, not, ◌&&◌, Option, none, some, List, [], ◌∷◌, ◌++◌, map, ◌==◌,
  leb, str_eq, or_none, any, head?, if◌then◌else◌, ◌<+>◌, show_ℕ,
}
use claude_email.Table.{select, update, returning, count_by, order_by}
use claude_email.Db.{Db, Message, MessageStatus, Event, Task, Tasks, TaskStatus}
use claude_email.Effect.{Action, ◌>>=◌, ◌>>◌, pure, gets, modify, require}

abbrev pub message_id : Message → ℕ
message_id m = m.id

abbrev pub is_pending : Message → Bool
is_pending m = elim m.status [ MessageStatus.pending ↦ true | _ ↦ false ]

abbrev pub is_failed : Message → Bool
is_failed m = elim m.status [ MessageStatus.failed ↦ true | _ ↦ false ]

abbrev pub is_delivered : Message → Bool
is_delivered m = elim m.status [ MessageStatus.delivered ↦ true | _ ↦ false ]

abbrev pub has_id : ℕ → Message → Bool
has_id n m = m.id == n

-- to_name=? AND status='pending'
abbrev pub pending_for : String → Message → Bool
pending_for name m = str_eq m.to_name name && is_pending m

-- A comparison of a nullable column, which no NULL meets.
abbrev pub holds : (String → Bool) → Option String → Bool
holds p none = false
holds p (some s) = p s

abbrev pub holds_id : ℕ → Option ℕ → Bool
holds_id n none = false
holds_id n (some k) = k == n

abbrev pub by_id : Message → Message → Bool
by_id a b = leb a.id b.id

-- ORDER BY id DESC
abbrev pub newest : Message → Message → Bool
newest a b = leb b.id a.id

-- The foreign key `messages.in_reply_to`, which `PRAGMA foreign_keys=ON` enforces.
abbrev pub parent_known : Option ℕ → Db → Bool
parent_known none db = true
parent_known (some n) db = any (has_id n) db.messages

unfoldable pub log_event : (now : ℕ) (participant event_type summary : String) → Db → Db
log_event now participant event_type summary db =
    let e : Event = record {
      id = db.next_event;
      event_type = event_type;
      participant = participant;
      summary = summary;
      created_at = now;
    } in
    record db { events = db.events ++ e ∷ []; next_event = db.next_event + 1 }

-- The arguments of `insert_message`.
pub record Draft : Type 0 where
  pub from_name : String
  pub to_name : String
  pub body : String
  pub msg_type : String
  pub in_reply_to : Option ℕ
  pub content_type : String
  pub task_id : Option ℕ
  pub in_reply_to_eid : String
  pub email_message_id : String

-- The row of the INSERT, under the id that AUTOINCREMENT gives it.
abbrev pub new_message : (id now : ℕ) → Draft → Message
new_message id now d = record {
  id = id;
  from_name = d.from_name;
  to_name = d.to_name;
  body = d.body;
  type = d.msg_type;
  status = MessageStatus.pending;
  email_message_id = or_none d.email_message_id;
  in_reply_to = d.in_reply_to;
  created_at = now;
  content_type = or_none d.content_type;
  task_id = d.task_id;
  in_reply_to_eid = or_none d.in_reply_to_eid;
}

-- The INSERT alone, and the wake hook that goes with it.
abbrev pub append_message : Message → Db → Db
append_message m db = record db {
  messages = db.messages ++ m ∷ [];
  next_message = db.next_message + 1;
}

abbrev pub add_hook : Db → Db
add_hook db = record db { hooks = db.hooks + 1 }

unfoldable pub insert_message : (now : ℕ) → Draft → Action Message
unfolding log_event
insert_message now d = do
  known ← gets (parent_known d.in_reply_to)
  require known
  id ← gets (λ db. db.next_message)
  modify (append_message (new_message id now d))
  modify (
      log_event now d.from_name "message"
        (d.msg_type <+> " from " <+> d.from_name <+> " to " <+> d.to_name))
  modify add_hook
  pure (new_message id now d)

unfoldable pub get_pending_messages_for : String → Db → List Message
get_pending_messages_for name db = order_by by_id (select (pending_for name) db.messages)

abbrev pub delivered_row : Message → Message
delivered_row m = record m { status = MessageStatus.delivered }

-- WHERE id IN (SELECT id …)
abbrev pub id_in : List Message → Message → Bool
id_in chosen m = any (has_id m.id) chosen

unfoldable pub claim_pending_messages_for : String → Db → List Message × Db
unfolding get_pending_messages_for
claim_pending_messages_for name db =
    let hit = id_in (get_pending_messages_for name db) in
    (
      order_by by_id (returning hit delivered_row db.messages),
      record db { messages = update hit delivered_row db.messages },
    )

-- DISTINCT keeps one of each; SQLite leaves their order open, and the callers do not read it.
abbrev pub distinct : List String → List String
distinct [] = []
distinct (x ∷ xs) = let rest = distinct xs in if any (str_eq x) rest then rest else x ∷ rest

unfoldable pub get_distinct_pending_recipients : Db → List String
get_distinct_pending_recipients db = distinct (map (λ m. m.to_name) (select is_pending db.messages))

unfoldable pub mark_message_delivered : ℕ → Db → Db
mark_message_delivered n db = record db { messages = update (has_id n) delivered_row db.messages }

unfoldable pub mark_message_failed : ℕ → Db → Db
mark_message_failed n db = record db {
  messages = update (has_id n) (λ m. record m { status = MessageStatus.failed }) db.messages;
}

-- to_name=? AND status='failed'
abbrev pub failed_for : String → Message → Bool
failed_for name m = str_eq m.to_name name && is_failed m

abbrev pub pending_row : Message → Message
pending_row m = record m { status = MessageStatus.pending }

unfoldable pub recover_failed_messages_for : String → Db → ℕ × Db
recover_failed_messages_for name db = (
  count_by (failed_for name) db.messages,
  record db { messages = update (failed_for name) pending_row db.messages },
)

unfoldable pub set_email_message_id : ℕ → String → Db → Db
set_email_message_id n eid db = record db {
  messages = update (has_id n) (λ m. record m { email_message_id = some eid }) db.messages;
}

-- fetchone of a SELECT with no ORDER BY: the first row in rowid order
unfoldable pub find_message_by_email_id : String → Db → Option Message
find_message_by_email_id eid db =
    head? (select (λ m. holds (λ e. str_eq e eid) m.email_message_id) db.messages)

unfoldable pub get_message : ℕ → Db → Option Message
get_message n db = head? (select (has_id n) db.messages)

abbrev pub is_some : Option String → Bool
is_some none = false
is_some (some s) = true

unfoldable pub get_last_email_message_id_for_agent : String → Db → Option String
get_last_email_message_id_for_agent name db =
    Option.bind
      (head? (
        order_by newest
          (select (λ m. str_eq m.from_name name && is_some m.email_message_id) db.messages)))
      (λ m. m.email_message_id)

unfoldable pub get_reply_to_message : ℕ → Db → Option Message
get_reply_to_message n db =
    head? (
      order_by newest (select (λ m. holds_id n m.in_reply_to && str_eq m.type "reply") db.messages))

abbrev pub task_has_id : ℕ → Task → Bool
task_has_id n t = t.id == n

abbrev pub set_last_sent : Option String → Task → Task
set_last_sent status t = record t { last_sent_status = status }

abbrev pub update_tasks : (Task → Bool) → (Task → Task) → Db → Db
update_tasks p f db = record db {
  tasks = record { rows = update p f db.tasks.rows; next_id = db.tasks.next_id };
}

-- The row of the status message.
abbrev pub status_message : (id now task_id : ℕ) (agent_name body content_type : String) → Message
status_message id now task_id agent_name body content_type = record {
  id = id;
  from_name = agent_name;
  to_name = "user";
  body = body;
  type = "notify";
  status = MessageStatus.pending;
  email_message_id = none;
  in_reply_to = none;
  created_at = now;
  content_type = or_none content_type;
  task_id = some task_id;
  in_reply_to_eid = none;
}

-- The part of `emit_status_message` behind its guard.
unfoldable pub send_status :
    (now task_id : ℕ) (status agent_name body content_type : String) → Db → Option Message × Db
unfolding log_event
send_status now n status agent_name body content_type db =
    let m = status_message db.next_message now n agent_name body content_type in
    let marked = update_tasks (task_has_id n) (set_last_sent (some status)) db in
    let sent = append_message m marked in
    let summary = "emit_status(" <+> show_ℕ n <+> ", " <+> status <+> ")" in
    (some m, add_hook (log_event now agent_name "status_emit" summary sent))

unfoldable pub emit_status_message :
    (now task_id : ℕ) (status agent_name body content_type : String) → Db → Option Message × Db
unfolding send_status
emit_status_message now n status agent_name body content_type db =
    elim (head? (select (task_has_id n) db.tasks.rows)) [
      | none ↦ (none, db)
      | some t ↦
          if holds (λ s. str_eq s status) t.last_sent_status
          then (none, db)
          else send_status now n status agent_name body content_type db
    ]

unfoldable pub clear_status_dedup : ℕ → Db → Db
clear_status_dedup n db =
    update_tasks (λ t. task_has_id n t && is_some t.last_sent_status) (set_last_sent none) db

abbrev pub is_active : Task → Bool
is_active t = elim t.status [ TaskStatus.pending ↦ true | TaskStatus.running ↦ true | _ ↦ false ]

unfoldable pub clear_status_dedup_for_project : String → Db → Db
clear_status_dedup_for_project path db =
    update_tasks (λ t. str_eq t.project_path path && is_active t && is_some t.last_sent_status)
      (set_last_sent none) db

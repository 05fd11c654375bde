-- ===== src/Stores.antt =====
-- src/outbound_emails_store.py, src/wake_session_store.py, src/chat_db_lookups.py and
-- src/db_maintenance.py: the stores of sent mail and of wake sessions, look-ups and pruning.
pub mod Prune
pub mod Upsert
mod Tests
use mathlib.Core.Option
use claude_email.Prelude.{
  ℕ, ◌-◌, ◌*◌, String, Bool, true, false, not, ◌&&◌, Option, none, some, List, [], ◌∷◌, ltb, str_eq,
  or_none, any, head?, if◌then◌else◌, ◌==◌, ℤ,
}
use claude_email.Table.{select, delete, count_by}
use claude_email.Table.Keys.{keyed, row_of, upsert}
use claude_email.Db.{Db, OutboundEmail, WakeSession, Message, MessageStatus, Event, Task}
use claude_email.Effect.{
  Action, ◌>>=◌, ◌>>◌, pure, gets, modify, require, throw, Error, value_error,
}
use claude_email.Bus.{task_has_id, holds_id}

-- COALESCE
abbrev pub coalesce {ℓ} : {A : Type ℓ} → Option A → Option A → Option A
coalesce none b = b
coalesce (some a) b = some a

-- The keyword arguments of `record_outbound_email`.
pub record Sent : Type 0 where
  pub kind : String
  pub sender_agent : String
  pub task_id : Option ℕ
  pub body : String
  pub in_reply_to_eid : String

abbrev pub new_email : (now : ℕ) (email_message_id : String) → Sent → OutboundEmail
new_email now eid m = record {
  email_message_id = eid;
  sent_at = now;
  kind = m.kind;
  sender_agent = or_none m.sender_agent;
  task_id = m.task_id;
  body = or_none m.body;
  in_reply_to_eid = or_none m.in_reply_to_eid;
}

-- the DO UPDATE
abbrev pub merge_email : Sent → OutboundEmail → OutboundEmail
merge_email m r = record r {
  task_id = coalesce r.task_id m.task_id;
  body = coalesce r.body (or_none m.body);
  in_reply_to_eid = coalesce r.in_reply_to_eid (or_none m.in_reply_to_eid);
}

abbrev pub eid_of : OutboundEmail → String
eid_of r = r.email_message_id

-- The foreign key `outbound_emails.task_id`
abbrev pub task_known : Option ℕ → Db → Bool
task_known none db = true
task_known (some n) db = any (task_has_id n) db.tasks.rows

-- the id that is written to the column; a row that has one keeps it
abbrev pub written_task : Option ℕ → Option OutboundEmail → Option ℕ
written_task id none = id
written_task id (some r) = elim r.task_id [ none ↦ id | some n ↦ none ]

abbrev pub put_email : (now : ℕ) → String → Sent → Db → Db
put_email now eid m db = record db {
  outbound_emails = upsert eid_of eid (new_email now eid m) (merge_email m) db.outbound_emails;
}

unfoldable pub record_outbound_email :
    (now : ℕ) (email_message_id : String) → Sent → Action (Unit {0})
record_outbound_email now eid m db =
    if str_eq eid ""
    then throw (value_error "email_message_id must not be empty") db
    else (do
      known ←
          gets (λ db. task_known (written_task m.task_id (row_of eid_of eid db.outbound_emails)) db)
      require known
      modify (put_email now eid m))
        db

unfoldable pub find_outbound_email : String → Db → Option OutboundEmail
find_outbound_email eid db = if str_eq eid "" then none else row_of eid_of eid db.outbound_emails

abbrev pub agent_of : WakeSession → String
agent_of r = r.agent_name

unfoldable pub get_wake_session : String → Db → Option WakeSession
get_wake_session name db = row_of agent_of name db.wake_sessions

unfoldable pub upsert_wake_session : (now : ℕ) (agent_name session_id : String) → Db → Db
upsert_wake_session now name session db = record db {
  wake_sessions =
      upsert agent_of name (record { agent_name = name; session_id = session; last_turn_at = now })
        (λ r. record r { session_id = session; last_turn_at = now }) db.wake_sessions;
}

unfoldable pub delete_wake_session : String → Db → Db
delete_wake_session name db = record db {
  wake_sessions = delete (keyed agent_of name) db.wake_sessions;
}

-- The columns of the task with an id.
abbrev pub lookup {ℓ} : {A : Type ℓ} → (Task → A) → ℕ → Db → Option A
lookup f n db = Option.map f (head? (select (task_has_id n) db.tasks.rows))

unfoldable pub lookup_task_origin_message_id : ℕ → Db → Option (Option String)
lookup_task_origin_message_id = lookup (λ t. t.origin_message_id)

unfoldable pub lookup_user_to_agent_message : String → Db → Bool
lookup_user_to_agent_message name db =
    any (λ m. str_eq m.from_name "user" && str_eq m.to_name name) db.messages

unfoldable pub lookup_origin_envelope_version : ℕ → Db → Option (Option String × Option ℤ)
lookup_origin_envelope_version = lookup (λ t. (t.origin_content_type, t.origin_envelope_v))

unfoldable pub lookup_task_origin_subject : ℕ → Db → Option (Option String)
lookup_task_origin_subject = lookup (λ t. t.origin_subject)

unfoldable pub lookup_task_routing : ℕ → Db → Option (String × Option String)
lookup_task_routing = lookup (λ t. (t.project_path, t.origin_from))

unfoldable pub lookup_task_status_info : ℕ → Db → Option (String × Option String × Option ℤ)
lookup_task_status_info = lookup (λ t. (t.project_path, t.origin_content_type, t.origin_envelope_v))

-- `now` less `days`, in microseconds
abbrev pub prune_cutoff : (now days : ℕ) → ℕ
prune_cutoff now days = now - days * 86_400 * 1_000_000

-- status IN ('delivered','failed') AND created_at < ?
abbrev pub is_old : (cut : ℕ) → Message → Bool
is_old cut m = elim m.status [ MessageStatus.pending ↦ false | _ ↦ ltb m.created_at cut ]

abbrev pub event_is_old : (cut : ℕ) → Event → Bool
event_is_old cut e = ltb e.created_at cut

abbrev pub email_is_old : (cut : ℕ) → OutboundEmail → Bool
email_is_old cut r = ltb r.sent_at cut

-- Does a row reply to one of the rows `gone`?
abbrev pub orphaned : (gone : List Message) → Message → Bool
orphaned gone m = any (λ d. holds_id d.id m.in_reply_to) gone

-- The foreign key, when the DELETE of the old rows ends: no row that is left replies to one of them.
abbrev pub deletable : (cut : ℕ) → List Message → Bool
deletable cut rows = not (any (orphaned (select (is_old cut) rows)) (delete (is_old cut) rows))

pub record Pruned : Type 0 where
  pub messages : ℕ
  pub events : ℕ
  pub outbound_emails : ℕ

abbrev pub pruned : (cut : ℕ) → Db → Db
pruned cut db = record db {
  messages = delete (is_old cut) db.messages;
  events = delete (event_is_old cut) db.events;
  outbound_emails = delete (email_is_old cut) db.outbound_emails;
}

abbrev pub pruned_counts : (cut : ℕ) → Db → Pruned
pruned_counts cut db = record {
  messages = count_by (is_old cut) db.messages;
  events = count_by (event_is_old cut) db.events;
  outbound_emails = count_by (email_is_old cut) db.outbound_emails;
}

unfoldable pub cleanup_old : (now days : ℕ) → Action Pruned
cleanup_old now days = do
  fine ← gets (λ db. deletable (prune_cutoff now days) db.messages)
  require fine
  counts ← gets (pruned_counts (prune_cutoff now days))
  modify (pruned (prune_cutoff now days))
  pure counts

-- ===== src/Relay/Outbox.antt =====
-- src/chat_relay.py and the tags of src/email_format.py: the mail of the agents to the user leaves by
-- SMTP. `send_reply` is an argument with a state of its own, the server's.
use claude_email.Prelude.{
  ℕ, String, Bool, false, not, ◌||◌, Option, none, some, List, [], ◌∷◌, str_eq, ltb, ◌-◌,
  if◌then◌else◌, ◌<+>◌, or_empty, or_text,
}
use claude_email.Effect.{Result, ok, raise}
use claude_email.Db.{Db, Message}
use claude_email.Bus.{
  get_pending_messages_for, mark_message_delivered, mark_message_failed, set_email_message_id,
}
use claude_email.Stores.{
  lookup_task_origin_message_id, lookup_user_to_agent_message, record_outbound_email, Sent,
  cleanup_old,
}
use claude_email.Relay.{
  Config, linked, column, thread_id_for_message, subject_base_for_message, recipient_for_message,
}

unfoldable pub should_relay : Message → Db → Bool
should_relay m db =
    str_eq m.type "ask"
    || elim (linked m) [
      | none ↦ false
      | some n ↦ not (str_eq (column (lookup_task_origin_message_id n db)) "")
    ]
    || lookup_user_to_agent_message m.from_name db

abbrev pub tag_for_message_type : String → Option String
tag_for_message_type t =
    if str_eq t "ask"
    then some "Question"
    else if str_eq t "notify" || str_eq t "reply"
    then some "Update"
    else if str_eq t "command"
    then some "Dispatch"
    else none

pub record Outgoing : Type 0 where
  pub to : String
  pub subject : String
  pub body : String
  pub thread_id : String
  pub content_type : String

-- What `send_reply` does: it returns the Message-ID, raises one of _PERMANENT_SMTP_ERRORS, another
-- SMTPException or OSError, or something else.
pub data Smtp : Type 0 where
  accepted : (email_msg_id : String) → Smtp
  permanent : Smtp
  transient : Smtp
  unexpected : Smtp

-- What the body of the loop does: `continue`, `return` or an exception; and how the pass ends.
pub data Turn : Type 0 where
  next : Turn
  stopped : Turn
  raised : Turn

abbrev pub sent_of : Message → Sent
sent_of m = record {
  kind = or_text m.type "notify";
  sender_agent = m.from_name;
  task_id = m.task_id;
  body = "";
  in_reply_to_eid = "";
}

-- the two records of a Message-ID, unless it is empty
unfoldable pub record_sent : (now : ℕ) (eid : String) → Message → Db → Result Db
record_sent now eid m db =
    let recorded : Result Db =
      elim (record_outbound_email now eid (sent_of m) (set_email_message_id m.id eid db)) [
        | ok (_, db') ↦ ok db'
        | raise e ↦ raise e
      ] in
    if str_eq eid "" then ok db else recorded

-- After the record. The first write of a record that is refused has been committed.
unfoldable pub deliver : (eid : String) → Message → Db → Result Db → Turn × Db
deliver eid m db (ok db') = (next, mark_message_delivered m.id db')
deliver eid m db (raise e) = (raised, set_email_message_id m.id eid db)

unfoldable pub after_smtp : (now : ℕ) → Smtp → Message → Db → Turn × Db
unfolding record_sent deliver
after_smtp now (accepted eid) m db = deliver eid m db (record_sent now eid m db)
after_smtp now permanent m db = (next, mark_message_failed m.id db)
after_smtp now transient m db = (stopped, db)
after_smtp now unexpected m db = (raised, db)

abbrev pub prepend_tag :
    (contains : (text needle : String) → Bool) → (subject : String) → Option String → String
prepend_tag contains subject none = subject
prepend_tag contains subject (some tag) =
    let marker = "[" <+> tag <+> "]" in
    if contains subject marker
    then subject
    else if str_eq subject ""
    then marker
    else marker <+> " " <+> subject

module _ (rstrip_slash : String → String) (startswith : String → String → Bool)
    (contains : String → String → Bool) (config : Config) where
  unfoldable pub compose : Message → Db → Outgoing
  compose m db =
      let content_type = or_text (or_empty m.content_type) "text/plain" in
      let base = subject_base_for_message m db in
      record {
        to = recipient_for_message rstrip_slash startswith m config db;
        subject =
            if str_eq content_type "application/json"
            then base
            else prepend_tag contains base (tag_for_message_type m.type);
        body = m.body;
        thread_id = thread_id_for_message m db;
        content_type = content_type;
      }

  module _ {Server : Type 0} (send_reply : Outgoing → Server → Smtp × Server) (now : ℕ) where
    abbrev pub with_server : Server → Turn × Db → Turn × (Db × Server)
    with_server s (t, db) = (t, (db, s))

    unfoldable pub relay_one : Message → Db → Server → Turn × (Db × Server)
    unfolding should_relay compose after_smtp
    relay_one m db s =
        let (answer, s') = send_reply (compose m db) s in
        if should_relay m db
        then with_server s' (after_smtp now answer m db)
        else (next, (mark_message_delivered m.id db, s))

    -- the `for` loop
    unfoldable pub relay_from : List Message → Db → Server → Turn × (Db × Server)
    relay_from [] db s = (next, (db, s))
    relay_from (m ∷ ms) db s =
        let (turn, (db', s')) = relay_one m db s in
        elim turn [
          | next ↦ relay_from ms db' s'
          | stopped ↦ (stopped, (db', s'))
          | raised ↦ (raised, (db', s'))
        ]

    unfoldable pub relay_outbound_messages : Db → Server → Turn × (Db × Server)
    unfolding relay_one relay_from
    relay_outbound_messages db s = relay_from (get_pending_messages_for "user" db) db s

-- a day, in microseconds
abbrev pub cleanup_interval : ℕ
cleanup_interval = 86_400_000_000

-- `_last_cleanup_ts` and the store; an exception of the pruning is logged
unfoldable pub maybe_cleanup_db : (now : ℕ) → ℕ × Db → ℕ × Db
maybe_cleanup_db now (last, db) =
    let cleaned : Db = elim (cleanup_old now 30 db) [ ok (counts, db') ↦ db' | raise e ↦ db ] in
    if ltb (now - last) cleanup_interval then (last, db) else (now, cleaned)

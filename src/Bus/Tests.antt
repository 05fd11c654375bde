-- ===== src/Bus/Tests.antt =====
-- The bus at a concrete table of messages.
use claude_email.Prelude.{◌≡◌, ◌≢◌, none, [], ◌∷◌, arith, String, map, pos, true}
use claude_email.Table.{update}
use claude_email.Db.{Db, MessageStatus, empty_db}
use claude_email.Queue.{new_task, no_origin}
use claude_email.Bus.{
  pending_for, delivered_row, get_pending_messages_for, claim_pending_messages_for, new_message,
  Draft,
}
use claude_email.Bus.Delivery.{HasIds, claim_pending_lem}

abbrev draft : String → Draft
draft to_name = record {
  from_name = "user";
  to_name = to_name;
  body = "go";
  msg_type = "command";
  in_reply_to = none;
  content_type = "";
  task_id = none;
  in_reply_to_eid = "";
  email_message_id = "";
}

abbrev inbox : Db
inbox = record empty_db {
  tasks = record {
    rows = new_task 1 1 "/p" "fix it" (pos 0) none true no_origin "" "" none ∷ [];
    next_id = 2;
  };
  messages =
      new_message 1 1 (draft "agent-p")
      ∷ new_message 2 1 (draft "agent-q")
      ∷ record (new_message 3 1 (draft "agent-p")) { status = MessageStatus.failed }
      ∷ [];
  next_message = 4;
}

inbox-HasIds : HasIds inbox
inbox-HasIds = (omega arith, (omega arith, (omega arith, omega arith)))

claim_pending_lem_example :
    let (claimed, db') = claim_pending_messages_for "agent-p" inbox in
    (claimed ≡ map delivered_row (get_pending_messages_for "agent-p" inbox))
    × (db'.messages ≡ update (pending_for "agent-p") delivered_row inbox.messages)
    × (get_pending_messages_for "agent-p" db' ≡ [])
    × ((q : String)
        → q ≢ "agent-p"
        → get_pending_messages_for q db' ≡ get_pending_messages_for q inbox)
claim_pending_lem_example = claim_pending_lem "agent-p" inbox inbox-HasIds

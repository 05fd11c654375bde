-- ===== src/ChatTools/Tests.antt =====
-- Suggested replies with blanks, a question that is answered at the second poll, and the mail of two
-- peers.
use claude_email.Prelude.{
  ℕ, zero, suc, ◌≡◌, ◌≢◌, String, Option, none, some, [], ◌∷◌, refl, arith, map, pos,
}
use claude_email.Effect.{Result, ok, raise, locked}
use claude_email.Json.{Json, Items, null, text, int, item, no_items, array}
use claude_email.Db.{Db, Message, MessageStatus, Agent, empty_db}
use claude_email.Table.{select}
use claude_email.Bus.{
  get_pending_messages_for, delivered_row, insert_message, log_event, get_reply_to_message,
}
use claude_email.Registry.{touch_agent, get_agent}
use claude_email.Status.{emit_status}
use claude_email.ChatTools.{
  Refusals, find_peer, send_to_peer, reply, post_question, ask_user, build_question_body,
  message_agent, check_messages, filter_suggested_replies,
}
use claude_email.ChatTools.Suggest.{IsOffer, filter_suggested_replies-IsOffer}
use claude_email.ChatTools.Ask.{at_poll, ask_user-Replied}
use claude_email.ChatTools.Peers.{waits_for, check_messages_lem, EndsTold, message_agent-EndsTold}

abbrev same : String → String
same s = s

abbrev replies : Items
replies = item (text "yes") (item (int (pos 3)) (item (text "yes") (item (text "no") no_items)))

filtered : filter_suggested_replies same (array replies) ≡ "yes" ∷ "no" ∷ []
unfolding filter_suggested_replies
filtered = refl

filter_suggested_replies-IsOffer_example :
    IsOffer same replies (filter_suggested_replies same (array replies))
filter_suggested_replies-IsOffer_example = filter_suggested_replies-IsOffer same replies

abbrev mail : ℕ → String → String → String → MessageStatus → Option ℕ → Message
mail n from to kind status parent = record {
  id = n;
  from_name = from;
  to_name = to;
  body = "hi";
  type = kind;
  status = status;
  email_message_id = none;
  in_reply_to = parent;
  created_at = 5;
  content_type = none;
  task_id = none;
  in_reply_to_eid = none;
}

abbrev dumps : Json → String
dumps j = "{}"

-- what goes on while the first poll sleeps: the user answers the question with the number 1
abbrev answers : ℕ → Db → Db
answers zero db = record db {
  messages =
      mail 1 "agent-a" "user" "ask" MessageStatus.delivered none
      ∷ mail 2 "user" "agent-a" "reply" MessageStatus.pending (some 1)
      ∷ [];
}
answers (suc n) db = db

abbrev question : Message
question = mail 1 "agent-a" "user" "ask" MessageStatus.pending none

abbrev question_asked : Result (Message × Db)
question_asked = post_question dumps same "noon" same 5 "agent-a" "hi" none null empty_db

abbrev db_of : Result (Message × Db) → Db
db_of (ok (m, db)) = db
db_of (raise e) = empty_db

asked : question_asked ≡ ok (question, db_of question_asked)
unfolding post_question emit_status insert_message log_event build_question_body
    filter_suggested_replies touch_agent
asked = refl

ask_user-Replied_example :
    ask_user answers 2000 3600000 dumps same "noon" same 5 "agent-a" "hi" none null empty_db
    ≡ ok (reply "hi", at_poll answers 2000 3600000 0 (db_of question_asked) 1)
unfolding get_reply_to_message post_question emit_status insert_message log_event
    build_question_body filter_suggested_replies touch_agent
ask_user-Replied_example =
    ask_user-Replied answers 2000 3600000 dumps same "noon" same 5 "agent-a" "hi" none null empty_db
      (db_of question_asked) question
      (mail 2 "user" "agent-a" "reply" MessageStatus.pending (some 1)) 1 (omega arith) (omega arith)
      asked (refl, refl)

abbrev peer : Agent
peer = record {
  name = "agent-b";
  project_path = "/b";
  status = "running";
  pid = none;
  registered_at = 1;
  last_seen_at = 1;
}

abbrev fleet : Db
fleet = record empty_db {
  agents = peer ∷ [];
  messages =
      mail 1 "agent-a" "agent-b" "notify" MessageStatus.failed none
      ∷ mail 2 "agent-a" "agent-b" "notify" MessageStatus.pending none
      ∷ [];
  next_message = 3;
}

check_messages_lem_example :
    let (mail, db') = check_messages 9 "agent-b" fleet in
    (mail ≡ map delivered_row (select (waits_for "agent-b") fleet.messages))
    × (get_pending_messages_for "agent-b" db' ≡ [])
    × ((q : String)
        → q ≢ "agent-b"
        → get_pending_messages_for q db' ≡ get_pending_messages_for q fleet)
check_messages_lem_example =
    check_messages_lem 9 "agent-b" fleet (omega arith, (omega arith, omega arith))

-- the database is locked at the INSERT
abbrev locked_insert : Refusals
locked_insert zero = none
locked_insert (suc zero) = none
locked_insert (suc (suc k)) = some locked

refused : (message_agent locked_insert same 9 "agent-a" "agent-b" "hi" none fleet).0 ≡ raise locked
unfolding message_agent find_peer send_to_peer get_agent touch_agent
refused = refl

message_agent-EndsTold_example :
    EndsTold
      (λ k. none)
      9
      "agent-a"
      "agent-b"
      "hi"
      none
      fleet
      (message_agent (λ k. none) same 9 "agent-a" "agent-b" "hi" none fleet)
message_agent-EndsTold_example =
    message_agent-EndsTold (λ k. none) same 9 "agent-a" "agent-b" "hi" none fleet

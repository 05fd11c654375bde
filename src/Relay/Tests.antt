-- ===== src/Relay/Tests.antt =====
-- The recipient of a message that is linked to a task that is gone, and a pass over one message.
use claude_email.Prelude.{ℕ, arith, refl, ◌≡◌, str_eq, pos, true, none, some, [], ◌∷◌}
use claude_email.Db.{Db, Message, empty_db}
use claude_email.Bus.{new_message, get_pending_messages_for}
use claude_email.Stores.{lookup_task_routing}
use claude_email.Queue.{new_task, no_origin}
use claude_email.Relay.{Config, owner_sender, by_routing, recipient_for_message}
use claude_email.Bus.Delivery.{HasIds}
use claude_email.Relay.Outbox.{Outgoing, Smtp, transient, relay_outbound_messages}
use claude_email.Relay.Drain.{Relayed, relay_outbound_messages-Relayed}
use claude_email.Relay.Recipient.{routing, IsRecipient, recipient_for_message-IsRecipient}

abbrev message : Message
message = new_message 1 1 (record {
  from_name = "agent-p";
  to_name = "user";
  body = "done";
  msg_type = "reply";
  in_reply_to = none;
  content_type = "";
  task_id = some 4;
  in_reply_to_eid = "";
  email_message_id = "";
})

abbrev config : Config
config = record {
  universes = record { allowed_base = "/p"; sender = "me@test" } ∷ [];
  authorized_sender = "me@home";
}

-- a task of the project, without the address of a sender
abbrev linked_db : Db
linked_db = record empty_db {
  tasks = record {
    rows = new_task 4 1 "/p/app" "fix it" (pos 0) none true no_origin "" "" none ∷ [];
    next_id = 5;
  };
}

owned : recipient_for_message (λ s. s) (λ a b. str_eq b "/p/") message config linked_db ≡ "me@test"
unfolding recipient_for_message by_routing lookup_task_routing owner_sender
owned = refl

recipient_for_message-IsRecipient_example :
    IsRecipient
      (λ s. s)
      (λ a b. str_eq b "/p/")
      (routing message linked_db)
      config
      (recipient_for_message (λ s. s) (λ a b. str_eq b "/p/") message config linked_db)
recipient_for_message-IsRecipient_example =
    recipient_for_message-IsRecipient (λ s. s) (λ a b. str_eq b "/p/") message config linked_db

abbrev to_user : Db
to_user = record empty_db { messages = message ∷ []; next_message = 2 }

to_user-HasIds : HasIds to_user
to_user-HasIds = (omega arith, omega arith)

-- a server that is out of reach
abbrev unreachable : Outgoing → ℕ → Smtp × ℕ
unreachable mail s = (transient, s)

relay_outbound_messages-Relayed_example :
    let (t, (db', s')) =
      relay_outbound_messages (λ s. s) (λ a b. true) (λ a b. true) config unreachable 5 to_user 0 in
    Relayed (get_pending_messages_for "user" to_user) t db'
relay_outbound_messages-Relayed_example =
    relay_outbound_messages-Relayed (λ s. s) (λ a b. true) (λ a b. true) config unreachable 5
      to_user 0 to_user-HasIds

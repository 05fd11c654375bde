-- ===== src/Inbox/Answers.antt =====
-- The mails that src/chat_handlers.py and src/json_handler.py answer with, and the JSON path.
use claude_email.Prelude.{
  ℕ, String, Bool, true, not, ◌&&◌, Option, none, some, [], ◌∷◌, ◌++◌, str_eq, ◌<+>◌, if◌then◌else◌,
  or_text,
}
use claude_email.Db.{Db}
use claude_email.Json.{Json}
use claude_email.Stores.{Sent, record_outbound_email}
use claude_email.Relay.Outbox.{Outgoing, prepend_tag}
use claude_email.Envelope.{parse_envelope}
use claude_email.Kinds.{Inbound, answer_json}
use claude_email.Mime.{EmailMessage}
use claude_email.Inbox.{World, Outside, Config, M, ◌>>=◌, pure, transact}

abbrev pub footer : String
footer =
    "\n\n---\nReply to this email → continues in the same project (full session memory).\nNew email → new task, anywhere.\n`cancel in <project>` → stop the running task.\n`status of <project>` → see what's running/queued."

abbrev pub with_footer : String → String
with_footer body = body <+> footer

-- `message.get("Subject", "command")`
abbrev pub subject_of : EmailMessage → String
subject_of message = elim message.subject [ none ↦ "command" | some s ↦ s ]

-- `config.get("reply_to") or config["authorized_sender"]`
abbrev pub recipient_of : Config → String
recipient_of config = or_text config.reply_to config.authorized_sender

module _ {Workers : Type 0} (out : Outside Workers) where
  -- what `send_reply` returns, where it does not raise
  unfoldable pub send_reply : Outgoing → M Workers String
  send_reply mail w = elim (out.send_reply w.sent mail) [
    | none ↦ (none, w)
    | some sent_id ↦ (some sent_id, record w { sent = w.sent ++ mail ∷ [] })
  ]

  -- `chat_db.record_outbound_email`, if there is a store and the id is not empty
  unfoldable pub record_sent : (has_chat : Bool) (now : ℕ) → Sent → String → M Workers (Unit {0})
  record_sent has_chat now sent sent_id w =
      if has_chat && not (str_eq sent_id "")
      then transact (record_outbound_email now sent_id sent) w
      else pure tt w

  module _ (now : ℕ) (config : Config) (message : EmailMessage) where
    abbrev pub threaded_mail : (body tag : String) → Outgoing
    threaded_mail body tag = record {
      to = recipient_of config;
      subject = prepend_tag (λ s t. out.lib.contains t s) (subject_of message) (some tag);
      body = with_footer body;
      thread_id = message.message_id;
      content_type = "text/plain";
    }

    abbrev pub sent_row : (body kind sender_agent : String) → Sent
    sent_row body kind sender_agent = record {
      kind = kind;
      sender_agent = sender_agent;
      task_id = none;
      body = with_footer body;
      in_reply_to_eid = message.message_id;
    }

    unfoldable pub send_threaded_reply :
        (has_chat : Bool) (body tag kind sender_agent : String) → M Workers (Unit {0})
    unfolding send_reply record_sent
    send_threaded_reply has_chat body tag kind sender_agent = do
      sent_id ← send_reply (threaded_mail body tag)
      record_sent has_chat now (sent_row body kind sender_agent) sent_id

    unfoldable pub err_reply : (body : String) → M Workers (Unit {0})
    unfolding send_threaded_reply
    err_reply body = send_threaded_reply true body "Error" "error" ""

    abbrev pub json_mail : (body_json : String) → Outgoing
    json_mail body_json = record {
      to = recipient_of config;
      subject = subject_of message;
      body = body_json;
      thread_id = message.message_id;
      content_type = "application/json";
    }

    abbrev pub json_row : Sent
    json_row = record {
      kind = "envelope_reply";
      sender_agent = "";
      task_id = none;
      body = "";
      in_reply_to_eid = "";
    }

    -- an exception of `send_reply` is logged, and ends the call
    unfoldable pub send_json_reply : (body_json : String) → M Workers (Unit {0})
    unfolding send_reply record_sent
    send_json_reply body_json w =
        let (answer, w') = send_reply (json_mail body_json) w in
        elim answer [
          | none ↦ (some tt, w')
          | some sent_id ↦ record_sent true now json_row sent_id w'
        ]

    abbrev pub inbound : Inbound
    inbound = record {
      msg_id = message.message_id;
      subject = elim message.subject [ none ↦ "" | some s ↦ s ];
      sender = recipient_of config;
    }

    -- the secret and the directory of the universe, or of the configuration
    abbrev pub expected_secret : String
    expected_secret = elim config.universe [
      | none ↦ config.credentials.shared_secret
      | some u ↦ u.credentials.shared_secret
    ]

    abbrev pub allowed_base : String
    allowed_base = elim config.universe [ none ↦ config.claude_cwd | some u ↦ u.allowed_base ]

    -- The answer, and the state after it.
    abbrev pub json_answer : World Workers → Option Json × (Db × Workers)
    json_answer w =
        answer_json (out.isoformat now) out.paths out.classify out.branch_name out.lib.strip
          out.pool allowed_base out.row out.lib.repr out.list_projects expected_secret out.stop
          out.freshness now (parse_envelope out.python out.lib.strip out.loads message.content)
          inbound (w.db, w.workers)

    abbrev pub told : Option Json → M Workers (Unit {0})
    told none w = (none, w)
    told (some j) w = send_json_reply (out.dumps j) w

    unfoldable pub handle_json_email : M Workers (Unit {0})
    unfolding send_json_reply
    handle_json_email w =
        let (answer, (db, workers)) = json_answer w in
        told answer (record w { db = db; workers = workers })

-- ===== src/Thread/Tests.antt =====
-- A thread of three mails whose parents form a circle.
use claude_email.Prelude.{
  String, List, [], ◌∷◌, some, none, ◌≡◌, refl, length, ◌≤◌, reverse, map, rounds,
}
use claude_email.Table.{select}
use claude_email.Db.{Db, empty_db}
use claude_email.Bus.{new_message, find_message_by_email_id}
use claude_email.Stores.{find_outbound_email}
use claude_email.Thread.{
  fetch_turn, is_known, walk, resolve_anchor, build_email_thread_transcript, chars, is_kept,
  inbound_turn, trim_chars, trim_turns, walk_step,
}
use claude_email.Thread.Links.{walk_ends}
use claude_email.Thread.Caps.{LongestEnd, build_email_thread_transcript_lem}

abbrev thread : Db
thread = record empty_db {
  messages =
      new_message 1 5 (inbound_turn "<c>" "<a>" "first")
      ∷ new_message 2 7 (inbound_turn "<b>" "<c>" "third")
      ∷ [];
  outbound_emails =
      record {
        email_message_id = "<b>";
        sent_at = 6;
        kind = "ack";
        sender_agent = none;
        task_id = none;
        body = some "queued";
        in_reply_to_eid = some "<a>";
      }
      ∷ [];
}

abbrev no_references : String → List String
no_references s = []

walked : (walk thread "<c>").seen ≡ "<c>" ∷ "<b>" ∷ "<a>" ∷ []
unfolding walk fetch_turn rounds walk_step find_message_by_email_id find_outbound_email
walked = refl

bodies :
    map (λ t. t.body) (build_email_thread_transcript no_references thread "<c>" "" 8192 20)
    ≡ "first" ∷ "third" ∷ []
unfolding build_email_thread_transcript is_known fetch_turn find_message_by_email_id trim_chars
    trim_turns rounds walk_step find_outbound_email
bodies = refl

build_email_thread_transcript_lem_example :
    let anchor = resolve_anchor no_references thread "<c>" "" in
    LongestEnd
      (λ ys. (length ys ≤ 1) × (chars ys ≤ 8192))
      (reverse (select is_kept (walk thread anchor).chain))
      (build_email_thread_transcript no_references thread "<c>" "" 8192 1)
build_email_thread_transcript_lem_example =
    build_email_thread_transcript_lem no_references thread "<c>" "" 8192 1

walk_ends_example : walk_step thread (walk thread "<c>") ≡ none
walk_ends_example = walk_ends thread "<c>"

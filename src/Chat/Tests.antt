-- ===== src/Chat/Tests.antt =====
-- An insertion over an empty database, at the second attempt.
use claude_email.Prelude.{◌≡◌, ◌⊎◌, ◌+◌, none, some, true, refl}
use claude_email.Db.{Db, empty_db}
use claude_email.Effect.{locked}
use claude_email.Tx.{Conn, Attempt, run_tx, run_tx_outer, check_or_recover, abort, safe_rollback}
use claude_email.Bus
use claude_email.Bus.{Draft, new_message}
use claude_email.Chat.{insert_message}
use claude_email.Chat.Atomic.{Inserted, insert_message_whole}

abbrev idle : Conn Db
idle = record {
  committed = empty_db;
  working = none;
  depth = 0;
  queued = 0;
  fired = 0;
  reopened = 0;
}

abbrev fine : Attempt Db
fine = record { others = λ db. db; begin_error = none; commit_error = none; rollback_works = true }

abbrev busy : Attempt Db
busy = record fine { begin_error = some locked }

abbrev draft : Draft
draft = record {
  from_name = "user";
  to_name = "agent-p";
  body = "go";
  msg_type = "command";
  in_reply_to = none;
  content_type = "";
  task_id = none;
  in_reply_to_eid = "";
  email_message_id = "";
}

insert_message_whole_example :
    let c' = (insert_message busy fine true 5 draft idle).1 in
    (Inserted 5 draft (new_message 1 5 draft) empty_db c'.committed
      ⊎ Inserted 5 draft (new_message 1 5 draft) empty_db c'.committed)
    × (c'.fired ≡ 0 + 1)
unfolding insert_message Bus.insert_message run_tx run_tx_outer check_or_recover abort safe_rollback
insert_message_whole_example =
    insert_message_whole busy fine true 5 draft idle (new_message 1 5 draft)
      (record { depth = refl; queued = refl }) refl

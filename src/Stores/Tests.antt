-- ===== src/Stores/Tests.antt =====
-- The stores at a concrete database: an old delivered command, and a newer reply to it.
use claude_email.Prelude.{ℕ, ◌*◌, ◌≡◌, String, none, some, [], ◌∷◌, refl, inl, inr}
use claude_email.Table.{select, delete}
use claude_email.Db.{Db, Message, MessageStatus, empty_db}
use claude_email.Effect
use claude_email.Effect.{integrity_error}
use claude_email.Bus.{Draft, new_message, pending_for}
use claude_email.Stores.{cleanup_old, is_old, prune_cutoff, pruned, pruned_counts}
use claude_email.Stores.Prune.{ParentsKnown, cleanup_old_blocked, cleanup_old_kept}

abbrev day : ℕ
day = 86_400 * 1_000_000

abbrev draft : Draft
draft = record {
  from_name = "user";
  to_name = "agent-p";
  body = "go";
  msg_type = "command";
  in_reply_to = none;
  content_type = "";
  task_id = none;
  in_reply_to_eid = "";
  email_message_id = "";
}

abbrev command : Message
command = record (new_message 1 1 draft) { status = MessageStatus.delivered }

abbrev reply : Message
reply = record (new_message 2 (2 * day) draft) { in_reply_to = some 1 }

abbrev db : Db
db = record empty_db { messages = command ∷ reply ∷ []; next_message = 3 }

cleanup_old_blocked_example : cleanup_old (32 * day) 31 db ≡ Effect.raise integrity_error
cleanup_old_blocked_example =
    cleanup_old_blocked (32 * day) 31 db reply command (inr (inl refl)) (inl refl) refl refl refl

abbrev alone : Db
alone = record empty_db { messages = command ∷ []; next_message = 2 }

abbrev after : Db
after = pruned (prune_cutoff (32 * day) 31) alone

cleanup_old_kept_example :
    (after.messages ≡ delete (is_old (prune_cutoff (32 * day) 31)) alone.messages)
    × ((name : String)
        → select (pending_for name) after.messages ≡ select (pending_for name) alone.messages)
    × (ParentsKnown alone → ParentsKnown after)
    × (after.tasks ≡ alone.tasks)
    × (after.agents ≡ alone.agents)
    × (after.wake_sessions ≡ alone.wake_sessions)
unfolding cleanup_old
cleanup_old_kept_example =
    cleanup_old_kept (32 * day) 31 alone after (pruned_counts (prune_cutoff (32 * day) 31) alone)
      refl

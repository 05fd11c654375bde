-- ===== src/Watcher/Tests.antt =====
-- The watcher on an agent with one pending message.
use claude_email.Prelude.{String, true, false, none, some, List, [], ◌∷◌, pos, ◌≡◌, ◌≢◌, refl, ◌⊎◌}
use claude_email.Json.{Json}
use claude_email.Db.{empty_db, Agent}
use claude_email.Bus.{new_message, Draft, get_pending_messages_for}
use claude_email.Registry.{get_agent}
use claude_email.Wake.{record_failure, should_escalate}
use claude_email.Wake.Laws.{is_held}
use claude_email.Watcher.{
  World, WakeTurnResult, Spawned, crashed, finished, returned, WakeWatcherConfig, Clock,
  handle_failure,
}
use claude_email.Watcher.Locks.{process, process_agent-release}
use claude_email.Watcher.Escalation.{IsHandled, handle_failure_lem}

abbrev mail : Draft
mail = record {
  from_name = "user";
  to_name = "agent-p";
  body = "go";
  msg_type = "command";
  in_reply_to = none;
  content_type = "";
  task_id = none;
  in_reply_to_eid = "";
  email_message_id = "";
}

abbrev agent : String → Agent
agent status = record {
  name = "agent-p";
  project_path = "/p";
  status = status;
  pid = none;
  registered_at = 1;
  last_seen_at = 1;
}

abbrev world : String → World
world status = record {
  db = record empty_db {
    messages = new_message 1 1 mail ∷ [];
    next_message = 2;
    agents = agent status ∷ [];
  };
  held = [];
  sessions = [];
  counts = [];
  notified = [];
}

abbrev config : WakeWatcherConfig
config = record {
  idle_expiry = 100;
  max_failures = 1;
  rate_limit = 10;
  claude_bin = "claude";
  prompt = "go on";
  user_avatar = "owner";
}

abbrev clock : Clock
clock = record { before = 5; after = 9 }

abbrev failed_turn : WakeTurnResult
failed_turn = record { exit_code = pos 1; timed_out = false; error = none }

abbrev crash : List String → String → World → Spawned × World
crash cmd cwd w = (crashed, w)

abbrev fail : List String → String → World → Spawned × World
fail cmd cwd w = (finished failed_turn, w)

abbrev dumps : Json → String
dumps j = ""

process_agent-release_example :
    ((is_held "agent-p" (world "running").held ≡ true)
      × (process dumps
            (λ p. "p")
            "noon"
            (λ k. false)
            (λ p. false)
            "new"
            config
            clock
            "agent-p"
            crash
            (world "running")
          ≡ (returned, world "running")))
    ⊎ ((is_held "agent-p" (world "running").held ≡ false)
        × (is_held "agent-p"
              (process dumps
                (λ p. "p")
                "noon"
                (λ k. false)
                (λ p. false)
                "new"
                config
                clock
                "agent-p"
                crash
                (world "running")).1.held
            ≡ false))
process_agent-release_example =
    process_agent-release dumps (λ p. "p") "noon" (λ k. false) (λ p. false) "new" config clock
      "agent-p" crash (world "running")

gone : get_agent "agent-p" (world "disconnected").db ≡ some (agent "disconnected")
unfolding get_agent
gone = refl

user≢agent : ◌≢◌ {A = String} "user" "agent-p"
user≢agent e = cc

owner≢agent : ◌≢◌ {A = String} "owner" "agent-p"
owner≢agent e = cc

handle_failure_lem_example :
    let w = world "running" in
    let counts = record_failure "agent-p" w.counts in
    let (e, w') =
      handle_failure dumps (λ p. "p") "noon" (λ k. false) config 9 "agent-p" "/p" failed_turn w in
    (w'.counts ≡ counts)
    × IsHandled dumps
        (λ p. "p")
        "noon"
        (λ k. false)
        e
        (should_escalate config.max_failures "agent-p" counts)
        (get_pending_messages_for "agent-p" w.db)
        (get_pending_messages_for "agent-p" w'.db)
handle_failure_lem_example =
    handle_failure_lem dumps (λ p. "p") "noon" (λ k. false) config 9 "agent-p" "/p" failed_turn
      (world "running") owner≢agent user≢agent

-- ===== src/Chat.antt =====
-- src/chat_db.py and src/agent_registry.py: the public methods of `ChatDB`, each a body of the other
-- modules in a transaction (src/chat_db_tx.py) or in a read.
pub mod Atomic
mod Tests
use claude_email.Prelude.{ℕ, String, Bool, Option, List, ℤ}
use claude_email.Db.{Db, Message, Agent}
use claude_email.Effect
use claude_email.Effect.{Action, Result}
use claude_email.Tx.{Conn, Attempt, Body, run_tx, read}
use claude_email.Bus
use claude_email.Bus.{Draft}
use claude_email.Registry
use claude_email.Registry.{AgentStatus}

-- The body of a transaction: it starts with no hook queued, and hands over those that it queued.
abbrev pub of_result : {A : Type 0} → Db → Result (A × Db) → Result A × Db × ℕ
of_result db (Effect.ok (a, db')) = (Effect.ok a, record db' { hooks = 0 }, db'.hooks)
of_result db (Effect.raise e) = (Effect.raise e, db, 0)

abbrev pub body : {A : Type 0} → Action A → Body Db A
body m db = of_result db (m (record db { hooks = 0 }))

abbrev pub returns : {A : Type 0} → (Db → A × Db) → Action A
returns f db = Effect.ok (f db)

abbrev pub writes : (Db → Db) → Action (Unit {0})
writes f db = Effect.ok (tt, f db)

-- `first`, `again` and `works` say what SQLite does in the attempts.
module _ (first again : Attempt Db) (works : Bool) where
  abbrev pub tx : {A : Type 0} → Action A → Conn Db → Result A × Conn Db
  tx m c = run_tx first again works (body m) c

  abbrev pub reads : {A : Type 0} → (Db → A) → Conn Db → A × Conn Db
  reads f c = read works f c

  unfoldable pub insert_message : (now : ℕ) → Draft → Conn Db → Result Message × Conn Db
  insert_message now d = tx (Bus.insert_message now d)

  unfoldable pub get_pending_messages_for : String → Conn Db → List Message × Conn Db
  get_pending_messages_for name = reads (Bus.get_pending_messages_for name)

  unfoldable pub claim_pending_messages_for : String → Conn Db → Result (List Message) × Conn Db
  claim_pending_messages_for name = tx (returns (Bus.claim_pending_messages_for name))

  unfoldable pub get_distinct_pending_recipients : Conn Db → List String × Conn Db
  get_distinct_pending_recipients = reads Bus.get_distinct_pending_recipients

  unfoldable pub mark_message_delivered : ℕ → Conn Db → Result (Unit {0}) × Conn Db
  mark_message_delivered n = tx (writes (Bus.mark_message_delivered n))

  unfoldable pub mark_message_failed : ℕ → Conn Db → Result (Unit {0}) × Conn Db
  mark_message_failed n = tx (writes (Bus.mark_message_failed n))

  unfoldable pub recover_failed_messages_for : String → Conn Db → Result ℕ × Conn Db
  recover_failed_messages_for name = tx (returns (Bus.recover_failed_messages_for name))

  unfoldable pub set_email_message_id : ℕ → String → Conn Db → Result (Unit {0}) × Conn Db
  set_email_message_id n eid = tx (writes (Bus.set_email_message_id n eid))

  unfoldable pub find_message_by_email_id : String → Conn Db → Option Message × Conn Db
  find_message_by_email_id eid = reads (Bus.find_message_by_email_id eid)

  unfoldable pub get_message : ℕ → Conn Db → Option Message × Conn Db
  get_message n = reads (Bus.get_message n)

  unfoldable pub get_last_email_message_id_for_agent : String → Conn Db → Option String × Conn Db
  get_last_email_message_id_for_agent name = reads (Bus.get_last_email_message_id_for_agent name)

  unfoldable pub get_reply_to_message : ℕ → Conn Db → Option Message × Conn Db
  get_reply_to_message n = reads (Bus.get_reply_to_message n)

  unfoldable pub emit_status_message :
      (now task_id : ℕ) (status agent_name body content_type : String)
      → Conn Db
      → Result (Option Message) × Conn Db
  emit_status_message now n status agent text content =
      tx (returns (Bus.emit_status_message now n status agent text content))

  unfoldable pub clear_status_dedup : ℕ → Conn Db → Result (Unit {0}) × Conn Db
  clear_status_dedup n = tx (writes (Bus.clear_status_dedup n))

  unfoldable pub clear_status_dedup_for_project : String → Conn Db → Result (Unit {0}) × Conn Db
  clear_status_dedup_for_project path = tx (writes (Bus.clear_status_dedup_for_project path))

  unfoldable pub register_agent :
      (alive : ℤ → Bool) (now : ℕ) (name path : String)
      → Option ℤ
      → Conn Db
      → Result (Option Agent) × Conn Db
  register_agent alive now name path pid = tx (Registry.register_agent alive now name path pid)

  unfoldable pub find_live_owner :
      (alive : ℤ → Bool) (name path : String) → Option ℤ → Conn Db → Option Agent × Conn Db
  find_live_owner alive name path exclude = reads (Registry.find_live_owner alive name path exclude)

  unfoldable pub get_agent : String → Conn Db → Option Agent × Conn Db
  get_agent name = reads (Registry.get_agent name)

  unfoldable pub find_live_agent_for_project :
      (now : ℕ) → String → (freshness_sec : ℕ) → Conn Db → Option Agent × Conn Db
  find_live_agent_for_project now path secs =
      reads (Registry.find_live_agent_for_project now path secs)

  unfoldable pub agent_status_for_project :
      (now : ℕ) → String → (freshness_sec : ℕ) → Conn Db → AgentStatus × Conn Db
  agent_status_for_project now path secs = reads (Registry.agent_status_for_project now path secs)

  unfoldable pub update_agent_status :
      (name status : String) → Conn Db → Result (Unit {0}) × Conn Db
  update_agent_status name status = tx (writes (Registry.update_agent_status name status))

  unfoldable pub update_agent_pid : String → ℤ → Conn Db → Result (Unit {0}) × Conn Db
  update_agent_pid name pid = tx (writes (Registry.update_agent_pid name pid))

  unfoldable pub touch_agent : (now : ℕ) → String → Conn Db → Result (Unit {0}) × Conn Db
  touch_agent now name = tx (writes (Registry.touch_agent now name))

  unfoldable pub reap_dead_agents :
      (alive : ℤ → Bool) (now no_pid_idle_secs : ℕ) → Conn Db → Result (List String) × Conn Db
  reap_dead_agents alive now secs = tx (returns (Registry.reap_dead_agents alive now secs))

  unfoldable pub disconnect : (now : ℕ) (name why : String) → Conn Db → Result (Unit {0}) × Conn Db
  disconnect now name why = tx (writes (Registry.disconnect now name why))

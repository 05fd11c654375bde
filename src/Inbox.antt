-- ===== src/Inbox.antt =====
-- src/main.py (`process_email`), src/chat_handlers.py and the entry of src/json_handler.py: what a mail
-- does, over the stores of its universe. What is outside (SMTP, the run of an agent, the spawning of
-- one, systemctl) is the record `Outside`, or is written down as an act.
pub mod Agents
pub mod Answers
pub mod Handlers
pub mod Envelopes
pub mod Gate
pub mod Main
pub mod Tests
use claude_email.Prelude.{ℕ, ℤ, ◌⊎◌, String, Bool, Option, none, some, List, [], ◌∷◌, ◌++◌}
use claude_email.Effect.{Result, ok, raise, Action}
use claude_email.Db.{Db, Task}
use claude_email.Json.{Json, Fields, Python}
use claude_email.Mime.{Library, auth_prefix}
use claude_email.Relay.Outbox.{Outgoing}
use claude_email.Control.{Stop}
use claude_email.Tools.{Paths, Pool}
use claude_email.Security.{Credentials}
use claude_email.Universes.{Universe}

-- The keys of `config` that the mail path reads.
pub record Config : Type 0 where
  pub authorized_senders : List String
  pub authorized_sender : String
  pub reply_to : String
  pub credentials : Credentials
  pub auth_prefix : String
  pub claude_cwd : String
  pub universe : Option Universe
  pub service_name_chat : String
  pub service_name_email : String
  pub llm_router : Bool
  pub claude_timeout : ℕ

-- A run of the agent: its prompt, its time limit, its directory, whether it answers a question
-- alone, and the dispatch token of its environment.
pub record Prompt : Type 0 where
  pub command : String
  pub timeout : ℕ
  pub cwd : String
  pub question : Bool
  pub token : String

-- What happens outside of the stores.
pub data Act : Type 0 where
  executed : Prompt → Act
  spawned : (project_dir : String) (agent_name : Option String) (instruction : String) → Act
  restarted : (service : String) → Act

pub record World (Workers : Type 0) : Type 0 where
  pub db : Db
  pub workers : Workers
  -- the mails that SMTP took, and the acts, the oldest first
  pub sent : List Outgoing
  pub acts : List Act

pub record Outside (Workers : Type 0) : Type 0 where
  pub lib : Library
  -- the Message-ID of the mail that is sent, none where `send_reply` raises
  pub send_reply : (sent : List Outgoing) → Outgoing → Option String
  pub execute_command : Prompt → Db × Workers → String × (Db × Workers)
  pub spawn_agent :
      (project_dir : String) (agent_name : Option String) (instruction : String)
      → Db
      → Result (String × ℤ) × Db
  pub paths : Paths
  pub pool : Pool Workers
  pub current_branch : String → String
  pub valid_branch : String → Bool
  pub classify : String → Option Bool
  pub branch_name : ℕ → String → String
  pub isoformat : ℕ → String
  pub python : Python
  pub loads : String → String ⊎ Json
  pub dumps : Json → String
  pub row : Task → Json
  pub list_projects : ℤ → Db → ℕ × Fields
  -- whether sqlite3 raises in the stamp of origins
  pub fixup_fails : Bool
  -- what meets the signals of a cancellation, and its wait
  pub stop : Stop
  pub freshness : ℕ

-- An action that may raise (none), and keeps what it did before that.
abbrev pub M : Type 0 → Type 0 → Type 0
M Workers A = World Workers → Option A × World Workers

abbrev pub continue : {W A B : Type 0} → (A → M W B) → Option A × World W → Option B × World W
continue f (none, w) = (none, w)
continue f (some a, w) = f a w

infixl 5 ◌>>=◌ ◌>>◌
abbrev pub ◌>>=◌ : {W A B : Type 0} → M W A → (A → M W B) → M W B
◌>>=◌ m f w = continue f (m w)

abbrev pub ◌>>◌ : {W A B : Type 0} → M W A → M W B → M W B
m >> n = m >>= λ _. n

abbrev pub pure : {W A : Type 0} → A → M W A
pure a w = (some a, w)

abbrev pub throw : {W A : Type 0} → M W A
throw w = (none, w)

abbrev pub gets : {W A : Type 0} → (World W → A) → M W A
gets f w = (some (f w), w)

-- `try: … except Exception: …`, which only logs
abbrev pub attempt : {W : Type 0} → M W (Unit {0}) → M W (Unit {0})
attempt m w = (some tt, (m w).1)

abbrev pub note : {W : Type 0} → Act → M W (Unit {0})
note act w = (some tt, record w { acts = w.acts ++ act ∷ [] })

-- A transaction on the store: one that raises has written nothing.
abbrev pub committed : {W A : Type 0} → World W → Result (A × Db) → Option A × World W
committed w (ok (a, db)) = (some a, record w { db = db })
committed w (raise e) = (none, w)

abbrev pub transact : {W A : Type 0} → Action A → M W A
transact body w = committed w (body w.db)

-- ===== src/Registry.antt =====
-- src/agent_registry_impls.py and src/agent_state.py: the `agents` table. `now` is the value of
-- `_now()`, and `alive` gives the answers of `is_alive` (src/process_liveness.py) in the call.
pub mod Register
pub mod Reap
pub mod State
mod Tests
use mathlib.Core.Option
use claude_email.Prelude.{
  ℕ, ◌+◌, ◌-◌, ◌*◌, String, Bool, true, false, not, ◌&&◌, ◌||◌, Option, none, some, List, [], ◌∷◌,
  ◌++◌, map, ℤ, pos, negsuc, ltb, leb, ◌==◌, eqb_ℤ, str_eq, any, head?, if◌then◌else◌, ◌<+>◌,
  show_ℕ, show_ℤ,
}
use claude_email.Table.{select, update, order_by}
use claude_email.Db.{Db, Agent}
use claude_email.Effect
use claude_email.Effect.{Action, ◌>>=◌, ◌>>◌, pure, gets, modify, Error, name_taken}
use claude_email.Bus.{log_event, recover_failed_messages_for}

-- The vocabulary of src/agent_state.py.
pub data AgentState : Type 0 where
  online stale offline : AgentState

abbrev pub named : String → Agent → Bool
named name a = str_eq a.name name

abbrev pub is_running : Agent → Bool
is_running a = str_eq a.status "running"

-- `_cutoff`, in microseconds
abbrev pub cutoff : (now seconds_ago : ℕ) → ℕ
cutoff now seconds = now - seconds * 1_000_000

unfoldable pub get_agent : String → Db → Option Agent
get_agent name db = head? (select (named name) db.agents)

abbrev pub coalesce : Option ℤ → Option ℤ → Option ℤ
coalesce none old = old
coalesce (some p) old = some p

-- the DO UPDATE of `_INSERT_AGENT_SQL`, which keeps `registered_at`
abbrev pub take_over : (now : ℕ) (path : String) → Option ℤ → Agent → Agent
take_over now path pid a = record a {
  project_path = path;
  status = "running";
  pid = coalesce pid a.pid;
  last_seen_at = now;
}

abbrev pub new_agent : (now : ℕ) (name path : String) → Option ℤ → Agent
new_agent now name path pid = record {
  name = name;
  project_path = path;
  status = "running";
  pid = pid;
  registered_at = now;
  last_seen_at = now;
}

-- `_INSERT_AGENT_SQL`
unfoldable pub upsert_agent : (now : ℕ) (name path : String) → Option ℤ → Db → Db
upsert_agent now name path pid db = record db {
  agents =
      if any (named name) db.agents
      then update (named name) (take_over now path pid) db.agents
      else db.agents ++ new_agent now name path pid ∷ [];
}

abbrev pub set_status : String → Agent → Agent
set_status status a = record a { status = status }

unfoldable pub update_agent_status : (name status : String) → Db → Db
update_agent_status name status db = record db {
  agents = update (named name) (set_status status) db.agents;
}

unfoldable pub update_agent_pid : String → ℤ → Db → Db
update_agent_pid name pid db = record db {
  agents = update (named name) (λ a. record a { pid = some pid }) db.agents;
}

unfoldable pub touch_agent : (now : ℕ) → String → Db → Db
touch_agent now name db = record db {
  agents = update (named name) (λ a. record a { last_seen_at = now }) db.agents;
}

unfoldable pub disconnect : (now : ℕ) (name why : String) → Db → Db
unfolding update_agent_status
disconnect now name why db =
    log_event now name "disconnect" ("Agent " <+> name <+> " " <+> why)
      (update_agent_status name "disconnected" db)

-- pid IS NULL AND status='running' AND last_seen_at < ?
abbrev pub is_idle : (cut : ℕ) → Agent → Bool
is_idle cut a = elim a.pid [ none ↦ is_running a && ltb a.last_seen_at cut | some p ↦ false ]

abbrev pub why_dead : Agent → String
why_dead a = elim a.pid [ none ↦ "" | some p ↦ "PID " <+> show_ℤ p <+> " no longer running" ]

-- the body of a loop of `_impl_reap_dead_agents`, over the rows fetched
pub disconnect_all : (now : ℕ) → (Agent → String) → List Agent → Db → Db
disconnect_all now why [] db = db
disconnect_all now why (a ∷ rows) db =
    disconnect_all now why rows (disconnect now a.name (why a) db)

module _ (alive : ℤ → Bool) where
  -- the pid of another live process that holds the slot, if there is one
  abbrev pub held_by : ℤ → Option Agent → Option ℤ
  held_by pid none = none
  held_by pid (some a) = elim a.pid [
    | none ↦ none
    | some q ↦ if not (eqb_ℤ q pid) && alive q then some q else none
  ]

  abbrev pub conflict : Option ℤ → Option Agent → Option ℤ
  conflict none existing = none
  conflict (some pid) existing = held_by pid existing

  -- what `_impl_register_agent` does once the slot is free
  record_agent : (now : ℕ) (name path : String) → Option ℤ → Db → Option Agent × Db
  record_agent now name path pid db =
      let stored = upsert_agent now name path pid db in
      let noted = log_event now name "register" ("Agent " <+> name <+> " registered") stored in
      let (recovered, mended) = recover_failed_messages_for name noted in
      let told =
        if ltb 0 recovered
        then log_event now name "messages_recovered"
            ("Recovered " <+> show_ℕ recovered <+> " failed messages on re-register") mended
        else mended in
      (get_agent name told, told)

  -- the `raise` of the guard, or what follows it
  pub register_unless : Option ℤ → (now : ℕ) (name path : String) → Option ℤ → Action (Option Agent)
  register_unless (some q) now name path pid db = Effect.raise (name_taken name q)
  register_unless none now name path pid db = Effect.ok (record_agent now name path pid db)

  unfoldable pub register_agent : (now : ℕ) (name path : String) → Option ℤ → Action (Option Agent)
  unfolding register_unless record_agent get_agent upsert_agent
  register_agent now name path pid = do
    existing ← gets (get_agent name)
    register_unless (conflict pid existing) now name path pid

  -- pid IS NOT NULL AND status='running', and not alive
  abbrev pub is_dead : Agent → Bool
  is_dead a = elim a.pid [ none ↦ false | some p ↦ is_running a && not (alive p) ]

  unfoldable pub reap_dead_agents : (now no_pid_idle_secs : ℕ) → Db → List String × Db
  unfolding disconnect_all disconnect
  reap_dead_agents now secs db =
      let dead = select is_dead db.agents in
      let db' = disconnect_all now why_dead dead db in
      let idle = select (is_idle (cutoff now secs)) db'.agents in
      (
        map (λ a. a.name) dead ++ map (λ a. a.name) idle,
        disconnect_all now (λ a. "no PID, idle past freshness window") idle db',
      )

  abbrev pub other_live : Option ℤ → Agent → Bool
  other_live exclude a = elim a.pid [
    | none ↦ false
    | some p ↦ elim exclude [ none ↦ alive p | some x ↦ not (eqb_ℤ p x) && alive p ]
  ]

  -- The row whose `{name, pid}` is returned
  unfoldable pub find_live_owner : (name path : String) → Option ℤ → Db → Option Agent
  unfolding get_agent
  find_live_owner name path exclude db =
      let others =
        select (λ a. str_eq a.project_path path && not (named name a) && other_live exclude a)
          db.agents in
      elim (get_agent name db) [
        | none ↦ head? others
        | some a ↦ if other_live exclude a then some a else head? others
      ]

  unfoldable pub row_state : Agent → (fresh_cutoff stale_cutoff : ℕ) → AgentState
  row_state a fresh stale_cut =
      if str_eq a.status "deregistered" || str_eq a.status "disconnected"
      then offline
      else elim a.pid [
        | some p ↦ if alive p then online else offline
        | none ↦
            if leb fresh a.last_seen_at
            then online
            else if leb stale_cut a.last_seen_at
            then stale
            else offline
      ]

  -- the loop of `_impl_agent_state_for_project`, from the best verdict so far
  best_state : AgentState → (fresh_cutoff stale_cutoff : ℕ) → List Agent → AgentState
  unfolding row_state
  best_state best fresh stale_cut [] = best
  best_state best fresh stale_cut (a ∷ rows) = elim (row_state a fresh stale_cut) [
    | online ↦ online
    | stale ↦ best_state stale fresh stale_cut rows
    | offline ↦ best_state best fresh stale_cut rows
  ]

  unfoldable pub agent_state_for_project :
      (now : ℕ) → String → (freshness_sec stale_sec : ℕ) → Db → AgentState
  unfolding best_state
  agent_state_for_project now path freshness stale_sec db =
      best_state offline (cutoff now freshness) (cutoff now stale_sec)
        (select (λ a. str_eq a.project_path path) db.agents)

-- status='running' AND last_seen_at >= ?
abbrev pub is_fresh : (cut : ℕ) → Agent → Bool
is_fresh cut a = is_running a && leb cut a.last_seen_at

-- ORDER BY registered_at DESC LIMIT 1
unfoldable pub find_live_agent_for_project :
    (now : ℕ) → String → (freshness_sec : ℕ) → Db → Option Agent
find_live_agent_for_project now path freshness db = head? (
    order_by (λ a b. leb b.registered_at a.registered_at)
      (select (λ a. str_eq a.project_path path && is_fresh (cutoff now freshness) a) db.agents))

-- The legacy vocabulary, `connected | disconnected | absent`.
pub data AgentStatus : Type 0 where
  connected disconnected absent : AgentStatus

unfoldable pub agent_status_for_project :
    (now : ℕ) → String → (freshness_sec : ℕ) → Db → AgentStatus
agent_status_for_project now path freshness db =
    elim (select (λ a. str_eq a.project_path path) db.agents) [
      | [] ↦ absent
      | a ∷ rows ↦
          if any (is_fresh (cutoff now freshness)) (a ∷ rows) then connected else disconnected
    ]

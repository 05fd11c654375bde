-- ===== src/Inbox/Handlers.antt =====
-- `handle_chat_email` of src/chat_handlers.py: replies, commands for an agent and meta-commands.
use claude_email.Prelude.{
  ℕ, String, Bool, true, false, not, Option, none, some, List, [], ◌∷◌, map, str_eq, ◌<+>◌,
  if◌then◌else◌, or_empty, show_ℤ, ℤ,
}
use claude_email.Effect.{Result, ok, raise, value_error}
use claude_email.Db.{Agent}
use claude_email.Bus.{get_message, insert_message}
use claude_email.Registry.{get_agent}
use claude_email.Reply.{Ack, is_ask, apply_reply}
use claude_email.Security.{join_lines}
use claude_email.Mime.{EmailMessage, is_empty, extract_command}
use claude_email.Commands.{
  Route, chat_reply, agent_command, meta, cli, classify_email, validated_agent_name,
  parse_spawn_args, user_draft, reaction_body, reaction_ack,
}
use claude_email.Inbox.{
  Outside, Config, M, ◌>>=◌, ◌>>◌, pure, throw, gets, note, transact, restarted, spawned,
}
use claude_email.Inbox.Answers.{send_threaded_reply, err_reply}

-- `", ".join(names)`
abbrev pub join_names : List String → String
join_names [] = ""
join_names (a ∷ []) = a
join_names (a ∷ b ∷ rest) = a <+> ", " <+> join_names (b ∷ rest)

abbrev pub status_text : List Agent → String
status_text agents =
    if is_empty agents
    then "No agents registered."
    else join_lines (map (λ a. a.name <+> "  " <+> a.status <+> "  " <+> a.project_path) agents)

abbrev pub known_text : List Agent → String
known_text agents =
    if is_empty agents then "(none registered)" else join_names (map (λ a. a.name) agents)

module _ {Workers : Type 0} (out : Outside Workers) (now : ℕ) (config : Config)
    (message : EmailMessage) where
  abbrev pub reply : (body tag kind sender_agent : String) → M Workers (Unit {0})
  reply body tag kind sender_agent =
      send_threaded_reply out now config message true body tag kind sender_agent

  unfoldable pub handle_reaction :
      (agent_name : String) (original_message_id : ℕ) (reaction : String) → M Workers Ack
  unfolding reaction_body reaction_ack
  handle_reaction name n reaction = do
    ask ← gets (λ w. is_ask out.paths (get_message n w.db))
    transact (insert_message now (user_draft name (reaction_body ask reaction) "reply" (some n)))
    pure (record { body = reaction_ack ask name reaction; tag = "Reaction" })

  -- `apply_reply`, with the queue and the workers at hand
  unfoldable pub route_reply :
      (agent_name : String) (original_message_id : ℕ) (body : String) → M Workers Ack
  route_reply name n body w =
      let (answer, (db, workers)) =
        apply_reply out.paths out.current_branch out.lib.strip out.valid_branch out.classify
          out.branch_name out.pool true now name n body config.claude_cwd
          (out.lib.strip message.in_reply_to) (w.db, w.workers) in
      let w' = record w { db = db; workers = workers } in
      elim answer [ raise e ↦ (none, w') | ok ack ↦ (some ack, w') ]

  unfoldable pub handle_reply :
      (agent_name : String) (original_message_id : ℕ) → M Workers (Unit {0})
  unfolding handle_reaction route_reply
  handle_reply name n = do
    let body = extract_command out.lib message config.credentials.shared_secret true
    ack ← elim (out.lib.reaction body) [
      | some reaction ↦ handle_reaction name n reaction
      | none ↦ route_reply name n body
    ]
    reply ack.body ack.tag "reply_ack" name

  unfoldable pub handle_agent_command : (agent_name body : String) → M Workers (Unit {0})
  unfolding err_reply send_threaded_reply
  handle_agent_command name body w = elim (get_agent name w.db) [
    | none ↦
        err_reply out now config message
          ("Unknown agent " <+> name <+> ". Known agents: " <+> known_text w.db.agents) w
    | some a ↦
        (do
          transact (insert_message now (user_draft name body "command" none))
          reply ("Command dispatched to " <+> name) "Dispatched" "ack" name)
          w
  ]

  -- after `spawn_agent`, with the store as it leaves it
  unfoldable pub after_spawn :
      (project_dir : String) (agent_name : Option String) (instruction : String)
      → Result (String × ℤ)
      → M Workers (Unit {0})
  after_spawn dir name instruction (ok (spawned_name, pid)) = do
    note (spawned dir name instruction)
    reply ("Spawned " <+> spawned_name <+> " (PID " <+> show_ℤ pid <+> ")") "Spawned" "ack"
        spawned_name
  after_spawn dir name instruction (raise (value_error s)) =
      err_reply out now config message ("Spawn rejected: " <+> s)
  after_spawn dir name instruction (raise e) = throw

  -- the name that is given does not pass the validator
  abbrev pub is_bad_name : Option String → Bool
  is_bad_name none = false
  is_bad_name (some name) = not (str_eq (validated_agent_name out.lib (some name) "") name)

  unfoldable pub handle_spawn : Option (String × Option String × String) → M Workers (Unit {0})
  unfolding after_spawn
  handle_spawn none w =
      err_reply out now config message
        "Spawn rejected: missing agent name after 'as' — use: spawn <path> as <agent-name> [instruction]"
        w
  handle_spawn (some (dir, name, instruction)) w =
      let (r, db) = out.spawn_agent dir name instruction w.db in
      if str_eq dir ""
      then err_reply out now config message
          "Usage: spawn <name-or-path> [as <agent-name>] [instruction]" w
      else if is_bad_name name
      then err_reply out now config message
          ("Spawn rejected: invalid agent name " <+> out.lib.repr (or_empty name)) w
      else after_spawn dir name instruction r (record w { db = db })

  unfoldable pub handle_restart : (target : String) → M Workers (Unit {0})
  handle_restart target =
      if str_eq target "chat"
      then (do
        note (restarted config.service_name_chat)
        reply ("Restarted " <+> config.service_name_chat) "Restarted" "ack" "")
      else if str_eq target "self"
      then note (restarted config.service_name_email)
      else err_reply out now config message ("Unknown restart target: " <+> target)

  unfoldable pub handle_meta : (meta_command meta_args : String) → M Workers (Unit {0})
  unfolding handle_spawn handle_restart
  handle_meta command args w =
      if str_eq command "status"
      then reply (status_text w.db.agents) "Status" "status" "" w
      else if str_eq command "spawn"
      then handle_spawn (parse_spawn_args (out.lib.split args)) w
      else if str_eq command "restart"
      then handle_restart (out.lib.lower (out.lib.strip args)) w
      else pure tt w

  abbrev pub handled : M Workers (Unit {0}) → M Workers Bool
  handled m = m >> pure true

  -- Is the mail handled.
  unfoldable pub handle_route : Route → M Workers Bool
  unfolding handle_reply handle_agent_command handle_meta
  handle_route (chat_reply name n) = handled (handle_reply name n)
  handle_route (agent_command name body) = handled (handle_agent_command name body)
  handle_route (meta command args) = handled (handle_meta command args)
  handle_route cli = pure false

  unfoldable pub handle_chat_email : M Workers Bool
  unfolding handle_route
  handle_chat_email w = handle_route (classify_email out.lib message w.db config.auth_prefix) w

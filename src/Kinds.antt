-- ===== src/Kinds.antt =====
-- src/json_kinds.py and the dispatch of src/json_handler.py: the answer to a JSON envelope. What the
-- tools answer is the model of src/chat/project_tools.py; the JSON of a task's row, the listing of the
-- projects and the clock are arguments.
pub mod Codes
pub mod Routing
pub mod Tests
use claude_email.Prelude.{
  ℕ, String, Bool, true, false, not, ◌&&◌, ◌||◌, Option, none, some, List, [], ◌∷◌, str_eq,
  if◌then◌else◌, ◌<+>◌, or_empty, or_text, show_ℕ, ℤ, pos,
}
use claude_email.Effect.{Result, ok, raise, Error}
use claude_email.Db.{Db, Task, Agent}
use claude_email.Queue.{Origin, enqueue_routed}
use claude_email.Bus.{Draft, insert_message}
use claude_email.Registry.{find_live_agent_for_project}
use claude_email.Control.{Stop, CancelResult}
use claude_email.Json.{
  Json, Fields, Items, null, bool, int, text, array, object, field, no_fields, no_items, item,
}
use claude_email.Envelope.{
  Envelope, negotiate_v, Parsed, parsed, envelope_error, overflow_error, type_error,
  json_content_type,
}
use claude_email.Envelope.Build.{Answer, answer, build_envelope, make_error}
use claude_email.Tools.{
  Paths, Pool, Resolution, found, refused, resolve_project, Answered, failure, answered, escaped,
  Failure, Enqueued, Request, enqueue_task_tool, cancel_task_tool, queue_status_tool, put_tasks,
}

abbrev pub optional_text : Option String → Json
optional_text none = null
optional_text (some s) = text s

abbrev pub optional_row : (Task → Json) → Option Task → Json
optional_row row none = null
optional_row row (some t) = row t

abbrev pub rows : (Task → Json) → List Task → Items
rows row [] = no_items
rows row (t ∷ ts) = item (row t) (rows row ts)

abbrev pub number_field : String → Option ℕ → Fields → Fields
number_field key none rest = rest
number_field key (some n) rest = field key (int (pos n)) rest

-- The dict of `cancel_running_task`.
abbrev pub cancel_fields : CancelResult → Fields
cancel_fields r = elim r.task_id [
  | none ↦ field "status" (text "idle") (number_field "drained" r.drained no_fields)
  | some n ↦
      field "status" (text "cancelled")
        (field "task_id" (int (pos n)) (number_field "drained" r.drained no_fields))
]

-- The headers of the inbound mail and the address that replies go to.
pub record Inbound : Type 0 where
  pub msg_id : String
  pub subject : String
  pub sender : String

module _ (clock : String) where
  -- An answer with an error; none where `make_error` raises ValueError.
  unfoldable pub error_answer :
      (body code message hint : String) (ask_id v : Option ℤ) → Option Json
  error_answer body code message hint ask_id v = elim (make_error code message hint) [
    | none ↦ none
    | some e ↦
        some (
          build_envelope clock (record (answer "error" body) { error = e; ask_id = ask_id; v = v }))
  ]

  unfoldable pub bad_envelope : Envelope → (body message : String) → Option Json
  unfolding error_answer
  bad_envelope env body message =
      error_answer body "bad_envelope" message "" env.ask_id (some (negotiate_v env.v))

  -- `result.get("error_code", "invalid_state")`
  abbrev pub code_of : Failure → String
  code_of x = or_text x.error_code "invalid_state"

  unfoldable pub tool_error : Envelope → Failure → Option Json
  unfolding error_answer
  tool_error env x =
      error_answer x.error (code_of x) x.error "" env.ask_id (some (negotiate_v env.v))

  unfoldable pub ack : Envelope → (body : String) → Fields → (routed_via : String) → Json
  ack env body fields routed_via = build_envelope clock (record (answer "ack" body) {
    ask_id = env.ask_id;
    content = fields;
    routed_via = routed_via;
    v = some (negotiate_v env.v);
  })

  -- `if not env.project`
  abbrev pub project_of : Envelope → String
  project_of env = or_empty env.project

  module _ (paths : Paths) (row : Task → Json) (allowed_base : String) where
    unfoldable pub handle_status : Envelope → Db → Option Json
    unfolding bad_envelope tool_error ack
    handle_status env db =
        let told : Option Json = elim (queue_status_tool paths (project_of env) allowed_base db) [
          | failure x ↦ tool_error env x
          | escaped e ↦ none
          | answered (running, pending) ↦ some (
              ack env ("Status for " <+> project_of env)
                (field "running" (optional_row row running)
                  (field "pending" (array (rows row pending)) no_fields))
                "")
        ] in
        if str_eq (project_of env) ""
        then bad_envelope env "status requires project" "missing project"
        else told

    unfoldable pub handle_cancel : (stop : Stop) (now : ℕ) → Envelope → Db → Option Json × Db
    unfolding bad_envelope tool_error ack
    handle_cancel stop now env db =
        let (r, db') =
          cancel_task_tool paths stop now (project_of env) allowed_base env.drain_queue db in
        let told : Option Json = elim r [
          | failure x ↦ tool_error env x
          | escaped e ↦ none
          | answered q ↦ some (
              ack env ("Cancel: " <+> elim q.task_id [ none ↦ "idle" | some n ↦ "cancelled" ])
                (cancel_fields q) "")
        ] in
        if str_eq (project_of env) ""
        then (bad_envelope env "cancel requires project" "missing project", db)
        else (told, db')

abbrev pub agent_message_body : Inbound → (body : String) (task_id : ℕ) → String
agent_message_body i body n =
    "[email from "
    <+> or_text i.sender "the user"
    <+> "] "
    <+> or_text i.subject "(no subject)"
    <+> "\n\n"
    <+> body
    <+> "\n\nREQUIRED: reply via chat_message_agent(to_agent=\"user\", task_id="
    <+> show_ℕ n
    <+> ", message=...) — SMTP routing back to the original sender depends on the task_id."

abbrev pub ask_draft : (agent body : String) (task_id : ℕ) → Draft
ask_draft agent body n = record {
  from_name = "user";
  to_name = agent;
  body = body;
  msg_type = "ask";
  in_reply_to = none;
  content_type = "";
  task_id = some n;
  in_reply_to_eid = "";
  email_message_id = "";
}

abbrev pub origin_of : Envelope → Inbound → Origin
origin_of env i = record {
  content_type = json_content_type;
  message_id = i.msg_id;
  subject = i.subject;
  sender = i.sender;
  envelope_v = some env.v;
}

-- Where a command goes: to a live agent, under a task of its own, or to a worker.
pub data Route : Type 0 where
  to_agent : (name : String) (task_id : ℕ) → Db → Route
  to_worker : Route
  broken : Error → Db → Route

-- The message to the agent, behind the task that is enqueued for it.
unfoldable pub tell_agent : (now : ℕ) → (agent : String) (body : String) (task_id : ℕ) → Db → Route
tell_agent now agent body n db = elim (insert_message now (ask_draft agent body n) db) [
  | ok (_, db') ↦ to_agent agent n db'
  | raise e ↦ broken e db
]

unfoldable pub route_to_live_agent :
    Paths → (allowed_base : String) (freshness now : ℕ) → Envelope → Inbound → Db → Route
unfolding tell_agent
route_to_live_agent paths allowed_base freshness now env i db =
    elim (resolve_project paths (or_empty env.project) allowed_base) [
      | refused x ↦ to_worker
      | found resolved ↦ elim (find_live_agent_for_project now resolved freshness db) [
        | none ↦ to_worker
        | some a ↦
            let (n, tasks) = enqueue_routed now resolved env.body (origin_of env i) db.tasks in
            tell_agent now a.name (agent_message_body i env.body n) n (put_tasks tasks db)
      ]
    ]

module _ (clock : String) (paths : Paths) (classify : String → Option Bool)
    (branch_name : ℕ → String → String) (strip : String → String) {Workers : Type 0}
    (pool : Pool Workers) (allowed_base : String) where
  abbrev pub routed_ack : Envelope → (agent : String) (task_id : ℕ) → Json
  routed_ack env agent n =
      ack clock env ("Routed to " <+> agent <+> " (task #" <+> show_ℕ n <+> ")")
        (field "status" (text "routed")
          (field "agent" (text agent) (field "task_id" (int (pos n)) no_fields)))
        "agent"

  abbrev pub queued_ack : Envelope → Enqueued → Json
  queued_ack env q =
      build_envelope clock
        (record (answer "ack" ("Queued as task #" <+> show_ℕ q.task_id <+> ".")) {
          task_id = some (pos q.task_id);
          ask_id = env.ask_id;
          routed_via = "worker";
          content = field "status" (text "queued") (
              field "branch" (text q.planned_branch) (
                field "worker_pid" (int q.worker_pid)
                  (field "plan_first" (bool q.plan_first) no_fields)));
        })

  abbrev pub hint_for : (code : String) → String
  hint_for code =
      if str_eq code "project_not_found" then "Check the project name in Settings." else ""

  abbrev pub request_of : Envelope → Inbound → Request
  request_of env i = record {
    project = or_empty env.project;
    body = env.body;
    priority = elim env.priority [ none ↦ pos 0 | some p ↦ p ];
    plan_first = env.plan_first;
    origin = origin_of env i;
    dispatch_token = "";
    mutates_repo = none;
  }

  abbrev pub command_answer : Envelope → Answered Enqueued → Option Json
  command_answer env (failure x) =
      error_answer clock x.error (code_of clock x) x.error (hint_for (code_of clock x)) env.ask_id
        none
  command_answer env (answered q) = some (queued_ack env q)
  command_answer env (escaped e) = none

  unfoldable pub enqueue_command :
      (now : ℕ) → Envelope → Inbound → Db × Workers → Option Json × (Db × Workers)
  unfolding error_answer
  enqueue_command now env i s =
      let (r, s') =
        enqueue_task_tool paths classify branch_name strip pool now allowed_base (request_of env i)
          s in
      (command_answer env r, s')

  -- An exception of the bus or of the tool leaves the handler: none, as where `make_error` raises.
  unfoldable pub handle_command :
      (freshness now : ℕ) → Envelope → Inbound → Db × Workers → Option Json × (Db × Workers)
  unfolding bad_envelope enqueue_command route_to_live_agent ack
  handle_command freshness now env i (db, w) =
      let route =
        if env.prefer_live_agent
        then route_to_live_agent paths allowed_base freshness now env i db
        else to_worker in
      if str_eq (or_empty env.project) "" || str_eq env.body ""
      then (
        bad_envelope clock env "command requires project + body" "missing project or body",
        (db, w),
      )
      else elim route [
        | to_agent agent n db' ↦ (some (routed_ack env agent n), (db', w))
        | broken e db' ↦ (none, (db', w))
        | to_worker ↦ enqueue_command now env i (db, w)
      ]

  module _ (row : Task → Json) (repr : String → String) (list_projects : ℤ → Db → ℕ × Fields) where
    unfoldable pub handle_list_projects : Envelope → Db → Option Json
    unfolding ack
    handle_list_projects env db =
        let (n, listing) = list_projects env.v db in
        some (ack clock env (show_ℕ n <+> " project(s)") listing "")

    abbrev pub not_implemented : Envelope → Option Json
    not_implemented env =
        error_answer clock ("kind " <+> repr env.kind <+> " not yet implemented") "not_implemented"
          ("kind " <+> repr env.kind <+> " comes online in a later phase") "" env.ask_id none

    -- the reading handlers keep the state
    abbrev pub reading : Db × Workers → Option Json → Option Json × (Db × Workers)
    reading s r = (r, s)

    unfoldable pub dispatch :
        (stop : Stop) (freshness now : ℕ)
        → Envelope
        → Inbound
        → Db × Workers
        → Option Json × (Db × Workers)
    unfolding handle_status handle_cancel handle_command handle_list_projects error_answer
    dispatch stop freshness now env i (db, w) =
        let cancelled = handle_cancel clock paths row allowed_base stop now env db in
        if str_eq env.kind "command"
        then handle_command freshness now env i (db, w)
        else if str_eq env.kind "status"
        then reading (db, w) (handle_status clock paths row allowed_base env db)
        else if str_eq env.kind "cancel"
        then (cancelled.0, (cancelled.1, w))
        else if str_eq env.kind "list_projects"
        then reading (db, w) (handle_list_projects env db)
        else reading (db, w) (not_implemented env)

    -- The reply of `handle_json_email`; none where an exception leaves it. `expected` is the shared
    -- secret, "" without one.
    unfoldable pub answer_json :
        (expected : String) (stop : Stop) (freshness now : ℕ)
        → Parsed Envelope
        → Inbound
        → Db × Workers
        → Option Json × (Db × Workers)
    unfolding dispatch error_answer
    answer_json expected stop freshness now (parsed env) i s =
        let acted = dispatch stop freshness now env i s in
        if not (str_eq expected "") && not (str_eq env.auth expected)
        then reading s (
            error_answer clock "auth failed" "unauthorized" "meta.auth does not match"
              "Open Settings and re-enter the shared secret." env.ask_id none)
        else acted
    answer_json expected stop freshness now (envelope_error code message ask_id) i s =
        reading s (error_answer clock message code message "" ask_id none)
    answer_json expected stop freshness now overflow_error i s = reading s none
    answer_json expected stop freshness now type_error i s = reading s none

-- ===== src/Status.antt =====
-- src/status_envelope.py, src/origin_envelope.py and build_agent_name of src/spawner.py: the status
-- mails of a task that is under way. `json.dumps`, the name of a path and the clock's text are
-- arguments.
use claude_email.Prelude.{
  ℕ, String, Bool, true, false, ◌||◌, Option, none, some, str_eq, if◌then◌else◌, ◌<+>◌, or_empty,
  or_text, show_ℕ, show_ℤ, ℤ, pos,
}
use claude_email.Json.{Json, Fields, text, field, no_fields}
use claude_email.Envelope.{json_content_type}
use claude_email.Envelope.Build.{Answer, answer, build_envelope, add_text, add_int}
use claude_email.Effect.{Result, ok, raise, value_error}
use claude_email.Db.{Db}
use claude_email.Queue.{get_running}
use claude_email.Bus.{emit_status_message}
use claude_email.Stores.{lookup_task_status_info, lookup_origin_envelope_version}

abbrev pub is_status_code : String → Bool
is_status_code s = str_eq s "stalled" || str_eq s "waiting-on-peer"

-- The keyword arguments of `emit_status`.
pub record Details : Type 0 where
  pub reason : String
  pub retry_after_seconds : Option ℤ
  pub last_activity_at : String

-- retry_after_seconds, which only a stalled status carries
abbrev pub retry_of : String → Details → Option ℤ
retry_of status d = if str_eq status "stalled" then d.retry_after_seconds else none

abbrev pub status_data : String → Details → Fields
status_data status d = field "status" (text status) (
    add_text "last_activity_at" d.last_activity_at
      (add_text "reason" d.reason (add_int "retry_after_seconds" (retry_of status d) no_fields)))

abbrev pub line_unless_empty : (label value after : String) → String
line_unless_empty label value after =
    if str_eq value "" then "" else "\n" <+> label <+> value <+> after

unfoldable pub plain_body : (task_id : ℕ) (status : String) → Details → String
plain_body n status d =
    "Task #"
    <+> show_ℕ n
    <+> " "
    <+> status
    <+> line_unless_empty "Reason: " d.reason ""
    <+> elim (retry_of status d) [ none ↦ "" | some s ↦ "\nRetry after: " <+> show_ℤ s <+> "s" ]
    <+> line_unless_empty "Last activity: " d.last_activity_at ""

-- The sender, the body and the content type.
pub record StatusMail : Type 0 where
  pub from_name : String
  pub body : String
  pub content_type : String

abbrev pub was_sent {ℓ} : {A : Type ℓ} → Option A × Db → Bool × Db
was_sent (none, db) = (false, db)
was_sent (some m, db) = (true, db)

-- what follows the guards of `emit_status`
unfoldable pub emit_for : (now task_id : ℕ) (status : String) → Option StatusMail → Db → Bool × Db
emit_for now n status none db = (false, db)
emit_for now n status (some m) db =
    was_sent (emit_status_message now n status m.from_name m.body m.content_type db)

module _ (dumps : Json → String) (path_name : String → String) (clock : String) where
  unfoldable pub build_agent_name : String → String
  build_agent_name project_path = "agent-" <+> or_text (path_name project_path) "unknown"

  abbrev pub json_status : (task_id : ℕ) (status : String) → Details → Option ℤ → String
  json_status n status d v = dumps (
      build_envelope clock (record (answer "status" ("Task #" <+> show_ℕ n <+> " " <+> status)) {
        task_id = some (pos n);
        content = status_data status d;
        v = v;
      }))

  unfoldable pub build_status_body :
      (task_id : ℕ) (status : String) → Details → Db → Option StatusMail
  unfolding build_agent_name plain_body
  build_status_body n status d db = elim (lookup_task_status_info n db) [
    | none ↦ none
    | some (path, origin, v) ↦ some (
        if str_eq (or_empty origin) json_content_type
        then record {
          from_name = build_agent_name path;
          body = json_status n status d v;
          content_type = json_content_type;
        }
        else record {
          from_name = build_agent_name path;
          body = plain_body n status d;
          content_type = "";
        })
  ]

  unfoldable pub emit_status :
      (now : ℕ) → Option ℕ → (status : String) → Details → Db → Result (Bool × Db)
  unfolding emit_for build_status_body
  emit_status now none status d db =
      if is_status_code status then ok (false, db) else raise (value_error "unknown status code")
  emit_status now (some n) status d db =
      if is_status_code status
      then ok (emit_for now n status (build_status_body n status d db) db)
      else raise (value_error "unknown status code")

  -- the exceptions are swallowed
  abbrev pub or_false : Db → Result (Bool × Db) → Bool × Db
  or_false db (ok r) = r
  or_false db (raise e) = (false, db)

  unfoldable pub emit_stalled_for_project :
      (now : ℕ) (project_path reason : String) → Db → Bool × Db
  unfolding emit_status
  emit_stalled_for_project now path reason db = elim (get_running path db.tasks) [
    | none ↦ (false, db)
    | some t ↦ or_false db (
        emit_status now (some t.id) "stalled"
          (record { reason = reason; retry_after_seconds = none; last_activity_at = "" }) db)
  ]

  -- The body and its content type: an envelope for a task that came as one, else the message.
  unfoldable pub wrap_if_json_origin : (message : String) → Option ℕ → Answer → Db → String × String
  wrap_if_json_origin message none a db = (message, "")
  wrap_if_json_origin message (some n) a db = elim (lookup_origin_envelope_version n db) [
    | none ↦ (message, "")
    | some (origin, v) ↦
        if str_eq (or_empty origin) json_content_type
        then (
          dumps (build_envelope clock (record a { body = message; task_id = some (pos n); v = v })),
          json_content_type,
        )
        else (message, "")
  ]

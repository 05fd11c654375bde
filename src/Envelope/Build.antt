-- ===== src/Envelope/Build.antt =====
-- src/envelope_builder.py and src/error_codes.py: the envelopes that are sent and their errors. What
-- `json.dumps` makes of the value is not part of the model.
use claude_email.Prelude.{
  String, Bool, true, false, Option, none, some, str_eq, if◌then◌else◌, ℤ, or_text,
}
use claude_email.Json.{
  Json, Items, Fields, bool, int, text, array, object, field, no_fields, no_items, item,
}
use claude_email.Envelope.{version_ceiling}

-- The arguments of `build_envelope`; an empty dict or list is left out as None is.
pub record Answer : Type 0 where
  pub kind : String
  pub body : String
  pub task_id : Option ℤ
  pub content : Fields
  pub error : Fields
  pub ask_id : Option ℤ
  pub routed_via : String
  pub progress : Fields
  pub suggested_replies : Items
  pub v : Option ℤ

abbrev pub answer : (kind body : String) → Answer
answer kind body = record {
  kind = kind;
  body = body;
  task_id = none;
  content = no_fields;
  error = no_fields;
  ask_id = none;
  routed_via = "";
  progress = no_fields;
  suggested_replies = no_items;
  v = none;
}

-- `if value: out[key] = value`
abbrev pub add_int : String → Option ℤ → Fields → Fields
add_int key none rest = rest
add_int key (some n) rest = field key (int n) rest

abbrev pub add_text : String → String → Fields → Fields
add_text key s rest = if str_eq s "" then rest else field key (text s) rest

abbrev pub add_object : String → Fields → Fields → Fields
add_object key no_fields rest = rest
add_object key (field k v fs) rest = field key (object (field k v fs)) rest

abbrev pub add_array : String → Items → Fields → Fields
add_array key no_items rest = rest
add_array key (item j js) rest = field key (array (item j js)) rest

abbrev pub version_of : Option ℤ → ℤ
version_of none = version_ceiling
version_of (some v) = v

abbrev pub meta_of : (now : String) → Answer → Fields
meta_of now a = field "server" (text "claude-email/1.0") (
    field "sent_at" (text now) (
      add_int "ask_id" a.ask_id (
        add_text "routed_via" a.routed_via (
          add_object "progress" a.progress
            (add_array "suggested_replies" a.suggested_replies no_fields)))))

unfoldable pub build_envelope : (now : String) → Answer → Json
build_envelope now a = object (
    field "v" (int (version_of a.v)) (
      field "kind" (text a.kind) (
        field "body" (text a.body) (
          field "meta" (object (meta_of now a)) (
            add_int "task_id" a.task_id
              (add_object "data" a.content (add_object "error" a.error no_fields)))))))

-- A code's default for `retryable` in ERROR_CODES, and its hint in DEFAULT_HINTS.
pub record Code : Type 0 where
  pub retryable : Bool
  pub hint : String

abbrev pub user_error : String → Option Code
user_error hint = some (record { retryable = false; hint = hint })

abbrev pub passing_error : String → Option Code
passing_error hint = some (record { retryable = true; hint = hint })

unfoldable pub error_code : String → Option Code
error_code code =
    if str_eq code "bad_envelope"
    then user_error
        "The client sent a malformed envelope. Update the app or report the message-id to the maintainer."
    else if str_eq code "unknown_kind"
    then user_error
        "The client sent an envelope kind this server doesn't recognise. Update the client."
    else if str_eq code "unauthorized"
    then user_error "Open Settings and re-enter the shared secret."
    else if str_eq code "forbidden"
    then user_error
        "The requested path is outside the configured CLAUDE_CWD. Check the project name in Settings."
    else if str_eq code "project_not_found"
    then user_error "Check the project name in Settings."
    else if str_eq code "invalid_state"
    then user_error
        "The requested operation can't run in the current state. Try again or check status."
    else if str_eq code "not_implemented"
    then user_error
        "This feature isn't supported by the running claude-email yet. Update or wait for a release."
    else if str_eq code "rate_limited"
    then passing_error "Too many requests in a short window. Retry after a brief pause."
    else if str_eq code "internal"
    then passing_error
        "Server error — restart claude-email (`systemctl --user restart claude-email`) and re-send."
    else none

-- none where the code is not in the table and ValueError is raised; a hint of "" stands for None
unfoldable pub make_error : (code message hint : String) → Option Fields
unfolding error_code
make_error code message hint = elim (error_code code) [
  | none ↦ none
  | some c ↦ some (
      field "code" (text code) (
        field "message" (text message) (
          field "retryable" (bool c.retryable)
            (field "hint" (text (or_text hint c.hint)) no_fields))))
]

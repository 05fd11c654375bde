-- ===== src/ChatTools.antt =====
-- chat/tools.py with src/progress_envelope.py and src/question_envelope.py: the tools that an agent
-- calls on the bus. `strip`, `repr`, the range of a float, `json.dumps`, the name of a path and the
-- clock's text are arguments. Times of waiting are in milliseconds.
pub mod Suggest
pub mod Ask
pub mod Peers
mod Tests
use claude_email.Prelude.{
  ℕ, zero, suc, ◌+◌, String, Bool, true, false, not, ◌&&◌, ◌||◌, Option, none, some, List, [], ◌∷◌,
  ◌++◌, map, ℤ, pos, ltb, leb, ltb_ℤ, str_eq, any, length, text_length, if◌then◌else◌, ◌<+>◌,
}
use claude_email.Json.{
  Json, Items, Fields, int, float, text, array, object, item, no_items, field, no_fields, get_field,
}
use claude_email.Effect.{Result, ok, raise, Error, Action, ◌>>=◌, ◌>>◌, pure, gets, modify}
use claude_email.Db.{Db, Message, Agent}
use claude_email.Envelope.Build.{Answer, answer}
use claude_email.Bus
use claude_email.Bus.{
  Draft, insert_message, get_reply_to_message, recover_failed_messages_for,
  claim_pending_messages_for,
}
use claude_email.Registry
use claude_email.Registry.{touch_agent, get_agent, update_agent_status}
use claude_email.Status.{wrap_if_json_origin, emit_status, Details}

-- `_REPLY_MAX_LEN`, `_REPLY_MAX_COUNT`
abbrev pub reply_max_len : ℕ
reply_max_len = 30

abbrev pub reply_max_count : ℕ
reply_max_count = 4

module _ (strip : String → String) where
  -- the guards of the loop, with the entry as it is kept
  abbrev pub admitted : Json → List String → Option String
  admitted (text s) out =
      let trimmed = strip s in
      if str_eq trimmed "" || ltb reply_max_len (text_length trimmed) || any (str_eq trimmed) out
      then none
      else some trimmed
  admitted _ out = none

  unfoldable pub collect_replies : Items → List String → List String
  collect_replies no_items out = out
  collect_replies (item j rest) out = elim (admitted j out) [
    | none ↦ collect_replies rest out
    | some s ↦ elim (leb reply_max_count (length (out ++ s ∷ []))) [
      | true ↦ out ++ s ∷ []
      | false ↦ collect_replies rest (out ++ s ∷ [])
    ]
  ]

  unfoldable pub filter_suggested_replies : Json → List String
  unfolding collect_replies
  filter_suggested_replies (array replies) = collect_replies replies []
  filter_suggested_replies _ = []

-- The number of an int from `least` on, which a bool is not.
abbrev pub int_from : (least : ℤ) → Json → Option Json
int_from least (int n) = if ltb_ℤ n least then none else some (int n)
int_from least _ = none

abbrev pub label_of : Json → Option Json
label_of (text s) = if ltb 0 (text_length s) && leb (text_length s) 200 then some (text s) else none
label_of _ = none

abbrev pub add_if : String → Option Json → Fields → Fields
add_if key none rest = rest
add_if key (some j) rest = field key j rest

-- `is_percentage` is `0 <= pct <= 100` of a float.
module _ (is_percentage : String → Bool) where
  abbrev pub percent_of : Json → Option Json
  percent_of (int n) = if ltb_ℤ n (pos 0) || ltb_ℤ (pos 100) n then none else some (int n)
  percent_of (float s) = if is_percentage s then some (float s) else none
  percent_of _ = none

  unfoldable pub filter_progress : Json → Fields
  filter_progress (object progress) =
      add_if "current" (int_from (pos 0) (get_field "current" progress)) (
        add_if "total" (int_from (pos 1) (get_field "total" progress)) (
          add_if "percent" (percent_of (get_field "percent" progress))
            (add_if "label" (label_of (get_field "label" progress)) no_fields)))
  filter_progress _ = no_fields

abbrev pub texts : List String → Items
texts [] = no_items
texts (s ∷ ss) = item (text s) (texts ss)

abbrev pub draft_of : (caller to_name body msg_type content_type : String) → Option ℕ → Draft
draft_of caller to body kind content_type task_id = record {
  from_name = caller;
  to_name = to;
  body = body;
  msg_type = kind;
  in_reply_to = none;
  content_type = content_type;
  task_id = task_id;
  in_reply_to_eid = "";
  email_message_id = "";
}

-- The dict of `message_agent`.
pub data PeerAnswer : Type 0 where
  told : (to : String) → PeerAnswer
  error : String → PeerAnswer

-- The dict of `ask_user`.
pub data Asked : Type 0 where
  reply : (body : String) → Asked
  no_reply : Asked

abbrev pub clear_dedup : Option ℕ → Db → Db
clear_dedup none db = db
clear_dedup (some n) db = Bus.clear_status_dedup n db

-- What SQLite raises in the transaction with a number, by their order in a call; none if it goes
-- through.
abbrev pub Refusals : Type 0
Refusals = ℕ → Option Error

-- the INSERT, as the transaction with the number 2
unfoldable pub send_to_peer :
    Refusals → (now : ℕ) (caller to_agent message : String) → Option ℕ → Db → Result PeerAnswer × Db
send_to_peer refuses now caller to message task_id db = elim (refuses 2) [
  | some e ↦ (raise e, db)
  | none ↦ elim (insert_message now (draft_of caller to message "notify" "" task_id) db) [
    | raise e ↦ (raise e, db)
    | ok (m, db') ↦ (ok (told to), db')
  ]
]

-- the look-up of the peer, as the transaction with the number 1
unfoldable pub find_peer :
    Refusals
    → (repr : String → String) (now : ℕ) (caller to_agent message : String) → Option ℕ
    → Db
    → Result PeerAnswer × Db
unfolding send_to_peer
find_peer refuses repr now caller to message task_id db = elim (refuses 1) [
  | some e ↦ (raise e, db)
  | none ↦ elim (get_agent to db) [
    | none ↦ (ok (error ("no registered agent named " <+> repr to)), db)
    | some a ↦ send_to_peer refuses now caller to message task_id db
  ]
]

-- What the transactions before an exception wrote stays.
unfoldable pub message_agent :
    Refusals
    → (repr : String → String) (now : ℕ) (caller to_agent message : String) → Option ℕ
    → Db
    → Result PeerAnswer × Db
unfolding find_peer
message_agent refuses repr now caller to message task_id db =
    let touched = touch_agent now caller db in
    let sent = find_peer refuses repr now caller to message task_id touched in
    elim (refuses 0) [
      | some e ↦ (raise e, db)
      | none ↦
          if str_eq to ""
          then (ok (error "to_agent must not be empty"), touched)
          else if str_eq to "user"
          then (
            ok (error "to_agent='user' is not allowed — use chat_notify to reach the user"),
            touched,
          )
          else sent
    ]

unfoldable pub check_messages : (now : ℕ) (caller : String) → Db → List Message × Db
check_messages now caller db =
    claim_pending_messages_for caller
      (recover_failed_messages_for caller (touch_agent now caller db)).1

unfoldable pub deregister_agent : (caller : String) → Db → Db
deregister_agent caller db = update_agent_status caller "deregistered" db

module _ (dumps : Json → String) (path_name : String → String) (clock : String) where
  unfoldable pub build_progress_body :
      (is_percentage : String → Bool) (message : String) → Option ℕ → Json → Db → String × String
  build_progress_body is_percentage message task_id progress db =
      elim (filter_progress is_percentage progress) [
        | no_fields ↦ (message, "")
        | field k v fs ↦
            wrap_if_json_origin dumps path_name clock message task_id
              (record (answer "progress" message) { progress = field k v fs }) db
      ]

  unfoldable pub build_question_body :
      (strip : String → String) (message : String) → Option ℕ → Json → Db → String × String
  build_question_body strip message task_id replies db =
      elim (filter_suggested_replies strip replies) [
        | [] ↦ (message, "")
        | s ∷ ss ↦
            wrap_if_json_origin dumps path_name clock message task_id
              (record (answer "question" message) { suggested_replies = texts (s ∷ ss) }) db
      ]

  unfoldable pub notify_user :
      (is_percentage : String → Bool) (now : ℕ) (caller message : String)
      → Option ℕ
      → (progress : Json) → Action Message
  notify_user is_percentage now caller message task_id progress = do
    modify (touch_agent now caller)
    body ← gets (build_progress_body is_percentage message task_id progress)
    insert_message now (draft_of caller "user" body.0 "notify" body.1 task_id)

  -- The status goes out, and nothing else of it is read.
  abbrev pub announce : (now : ℕ) → Option ℕ → Action Bool
  announce now task_id db =
      emit_status dumps path_name clock now task_id "waiting-on-peer"
        (record {
          reason = "awaiting user answer";
          retry_after_seconds = none;
          last_activity_at = "";
        })
        db

  -- what comes before the polls: the question on the bus
  unfoldable pub post_question :
      (strip : String → String) (now : ℕ) (caller message : String)
      → Option ℕ
      → (suggested_replies : Json) → Action Message
  post_question strip now caller message task_id replies = do
    modify (touch_agent now caller)
    announce now task_id
    body ← gets (build_question_body strip message task_id replies)
    insert_message now (draft_of caller "user" body.0 "ask" body.1 task_id)

-- `others k` is what other callers do to the store while the loop sleeps after its poll number `k`.
module _ (others : ℕ → Db → Db) (poll_interval timeout : ℕ) where
  unfoldable pub await_reply : (fuel poll elapsed msg_id : ℕ) → Option ℕ → Db → Asked × Db
  await_reply zero poll elapsed n task_id db = (no_reply, clear_dedup task_id db)
  await_reply (suc fuel) poll elapsed n task_id db = elim (ltb elapsed timeout) [
    | false ↦ (no_reply, clear_dedup task_id db)
    | true ↦ elim (get_reply_to_message n db) [
      | some m ↦ (reply m.body, clear_dedup task_id db)
      | none ↦ await_reply fuel (suc poll) (elapsed + poll_interval) n task_id (others poll db)
    ]
  ]

  -- `timeout` rounds are enough, since each adds the interval.
  unfoldable pub ask_user :
      (dumps : Json → String) (path_name : String → String) (clock : String)
      (strip : String → String) (now : ℕ) (caller message : String)
      → Option ℕ
      → (suggested_replies : Json) → Action Asked
  ask_user dumps path_name clock strip now caller message task_id replies = do
    m ← post_question dumps path_name clock strip now caller message task_id replies
    answered ← gets (await_reply timeout 0 0 m.id task_id)
    modify (λ db. answered.1)
    pure answered.0

-- ===== src/Inbox/Main.antt =====
-- `process_email` of src/main.py with src/question_handler.py.
use claude_email.Prelude.{
  ℕ, String, Bool, true, false, ◌&&◌, Option, none, some, List, [], ◌∷◌, ◌++◌, str_eq, ◌<+>◌,
  if◌then◌else◌, or_empty, show_ℕ, ltb,
}
use claude_email.Effect.{ok, raise}
use claude_email.Envelope.{is_json_email}
use claude_email.Thread.{Headers, prepare_router_command}
use claude_email.Tools.{put_tasks}
use claude_email.Reply.{run_router_with_fixup}
use claude_email.Security.{identify_sender, is_authorized}
use claude_email.Question.{looks_like_question}
use claude_email.Mime.{EmailMessage, is_empty, extract_command}
use claude_email.Inbox.{Outside, Config, Prompt, M, ◌>>=◌, ◌>>◌, pure, throw, attempt, executed}
use claude_email.Inbox.Answers.{send_threaded_reply, recipient_of, handle_json_email, allowed_base}
use claude_email.Inbox.Handlers.{handle_chat_email}

abbrev pub question_timeout_cap : ℕ
question_timeout_cap = 60

-- `config.get("authorized_senders") or config.get("authorized_sender")`, as a list of addresses
abbrev pub allowed_of : Config → List String
allowed_of config =
    if is_empty config.authorized_senders
    then config.authorized_sender ∷ []
    else config.authorized_senders

-- `token` is that of `uuid.uuid4`, and `has_chat` is whether there are a store, a queue and workers.
module _ {Workers : Type 0} (out : Outside Workers) (now : ℕ) (token : String) (has_chat : Bool)
    (config : Config) (message : EmailMessage) where
  abbrev pub reply : (body tag kind : String) → M Workers (Unit {0})
  reply body tag kind = send_threaded_reply out now config message has_chat body tag kind ""

  abbrev pub headers : Headers
  headers = record {
    in_reply_to = some message.in_reply_to;
    message_id = some message.message_id;
    references = some message.references;
  }

  -- the run of the agent, which may write to the store
  unfoldable pub execute_command : Prompt → M Workers String
  execute_command prompt w =
      let (output, (db, workers)) = out.execute_command prompt (w.db, w.workers) in
      (some output, record w { db = db; workers = workers; acts = w.acts ++ executed prompt ∷ [] })

  unfoldable pub answer_question : (command : String) → M Workers (Unit {0})
  unfolding execute_command
  answer_question command = do
    answer ← execute_command (record {
      command = command;
      timeout =
          if ltb config.claude_timeout question_timeout_cap
          then config.claude_timeout
          else question_timeout_cap;
      cwd = allowed_base out now config message;
      question = true;
      token = "";
    })
    reply answer "Answer" "question_answer"

  unfoldable pub prepare : (command : String) → M Workers String
  prepare command w =
      elim (prepare_router_command out.lib.split out.lib.strip out.isoformat now headers command
        (if has_chat then some w.db else none)) [
          | raise e ↦ (none, w)
          | ok (text, none) ↦ (some text, w)
          | ok (text, some db) ↦ (some text, record w { db = db })
        ]

  abbrev pub dispatch_token : String
  dispatch_token = if config.llm_router then token else ""

  abbrev pub if_router : String → String
  if_router s = if config.llm_router then s else ""

  -- the stamp of the tasks that the run has enqueued
  unfoldable pub stamp : M Workers (Unit {0})
  stamp w =
      let (_, tasks) =
        run_router_with_fixup (λ s. (tt, s)) out.fixup_fails (config.llm_router && has_chat)
          dispatch_token (if_router (recipient_of config)) (if_router message.message_id)
          (if_router (or_empty message.subject)) w.db.tasks in
      (some tt, record w { db = put_tasks tasks w.db })

  unfoldable pub run_command : (command : String) → M Workers (Unit {0})
  unfolding execute_command prepare stamp
  run_command command = do
    attempt (
        reply ("Command received. Running (up to " <+> show_ℕ config.claude_timeout <+> "s)...")
          "Running" "running_ack")
    text ← prepare command
    output ← execute_command (record {
      command = text;
      timeout = config.claude_timeout;
      cwd = allowed_base out now config message;
      question = false;
      token = dispatch_token;
    })
    stamp
    reply output "Result" "result"

  -- what is left for a mail that the chat does not handle
  unfoldable pub fall_back : M Workers (Unit {0})
  unfolding answer_question run_command
  fall_back =
      let command = extract_command out.lib message config.credentials.shared_secret true in
      if str_eq command ""
      then pure tt
      else if config.llm_router && looks_like_question out.lib command
      then answer_question command
      else run_command command

  unfoldable pub act : M Workers (Unit {0})
  unfolding fall_back
  act = (if has_chat then handle_chat_email out now config message else pure false) >>= λ done.
      if done then pure tt else fall_back

  unfoldable pub if_authorized : Option Bool → M Workers (Unit {0})
  unfolding act
  if_authorized none = throw
  if_authorized (some false) = pure tt
  if_authorized (some true) = act

  unfoldable pub process_email : M Workers (Unit {0})
  unfolding if_authorized
  process_email w = elim (identify_sender out.lib message (allowed_of config)) [
    | none ↦ (some tt, w)
    | some sender ↦
        if is_json_email message.content && has_chat
        then handle_json_email out now config message w
        else if_authorized
            (is_authorized out.lib message (allowed_of config) config.credentials
              (if has_chat then some w.db else none))
            w
  ]

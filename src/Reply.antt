-- ===== src/Reply.antt =====
-- src/reply_router.py and src/reply_routing_fixup.py: what a mail that replies to an agent does. Paths,
-- git's current branch, texts and the classifier of bodies are arguments; the worker manager is the
-- interface of the tools.
pub mod Prior
pub mod Stamp
pub mod Outcome
mod Tests
use claude_email.Prelude.{
  ℕ, String, Bool, true, false, not, ◌&&◌, ◌||◌, Option, none, some, List, [], ◌∷◌, str_eq,
  if◌then◌else◌, ◌<+>◌, or_empty, or_none, show_ℕ, show_ℤ, ℤ, pos, ◌==◌,
}
use claude_email.Table.{update, count_by}
use claude_email.Effect.{Result, ok, raise, Error, value_error}
use claude_email.Db.{Db, Message, Task, Tasks}
use claude_email.Queue
use claude_email.Queue.{enqueue, no_origin}
use claude_email.Bus.{Draft, get_message, insert_message, holds}
use claude_email.Registry.{get_agent}
use claude_email.Stores.{find_outbound_email, coalesce}
use claude_email.Tools.{Paths, Pool, in_base, put_tasks}

-- ReplyDecision
pub data Decision : Type 0 where
  ask : Decision
  project : (project_path : String) → Decision
  bus : Decision

module _ (paths : Paths) where
  unfoldable pub project_in_base : (project_path allowed_base : String) → Bool
  project_in_base path allowed_base =
      let resolved = paths.resolve path in
      not (str_eq allowed_base "")
      && not (str_eq path "")
      && paths.is_dir resolved
      && in_base paths (paths.resolve allowed_base) resolved

  abbrev pub is_ask : Option Message → Bool
  is_ask none = false
  is_ask (some m) = str_eq m.type "ask"

  abbrev pub project_of : (agent_name : String) → Db → String
  project_of name db = elim (get_agent name db) [ none ↦ "" | some a ↦ a.project_path ]

  unfoldable pub classify_reply :
      (agent_name : String) (original_message_id : ℕ) (allowed_base : String) → Db → Decision
  unfolding project_in_base
  classify_reply name n allowed_base db =
      if is_ask (get_message n db)
      then ask
      else if project_in_base (project_of name db) allowed_base
      then project (paths.resolve (project_of name db))
      else bus

abbrev pub valid_or_empty : (valid : String → Bool) → String → String
valid_or_empty valid branch = if not (str_eq branch "") && valid branch then branch else ""

-- `current_branch` is that of src/git_ops.py, and `valid` is `is_valid_task_branch`.
module _ (current_branch : String → String) (strip : String → String) (valid : String → Bool) where
  abbrev pub branch_of_prior : (project_path : String) → Option Task → String
  branch_of_prior path none = ""
  branch_of_prior path (some t) =
      if not (str_eq t.project_path path)
      then ""
      else valid_or_empty valid (strip (or_empty t.branch_name))

  abbrev pub branch_of_task : (project_path : String) → Option ℕ → Db → String
  branch_of_task path none db = valid_or_empty valid (strip (current_branch path))
  branch_of_task path (some n) db =
      if n == 0
      then valid_or_empty valid (strip (current_branch path))
      else branch_of_prior path (Queue.get n db.tasks)

  unfoldable pub prior_branch : (in_reply_to_header project_path agent_name : String) → Db → String
  prior_branch header path name db = elim (find_outbound_email header db) [
    | none ↦ ""
    | some o ↦
        let found = branch_of_task path o.task_id db in
        if str_eq header ""
        then ""
        else if not (holds (λ s. str_eq s name) o.sender_agent)
        then ""
        else found
  ]

-- What `apply_reply` returns: the text of the acknowledgment and its tag.
pub record Ack : Type 0 where
  pub body : String
  pub tag : String

abbrev pub reply_draft : (agent_name body : String) (original : ℕ) → Draft
reply_draft name body n = record {
  from_name = "user";
  to_name = name;
  body = body;
  msg_type = "reply";
  in_reply_to = some n;
  content_type = "";
  task_id = none;
  in_reply_to_eid = "";
  email_message_id = "";
}

abbrev pub is_false : Option Bool → Bool
is_false (some false) = true
is_false _ = false

module _ (paths : Paths) (current_branch : String → String) (strip : String → String)
    (valid : String → Bool) (classify : String → Option Bool) (branch_name : ℕ → String → String)
    {Workers : Type 0} (pool : Pool Workers) where
  unfoldable pub format_ack :
      (task_id : ℕ) (agent_name : String) (worker_pid : ℤ) (prior : String) (mutates : Option Bool)
      (body : String)
      → Ack
  format_ack n name pid prior mutates body =
      let queued = "Queued as task #" <+> show_ℕ n <+> " for " <+> name in
      let worker = "worker pid " <+> show_ℤ pid <+> ")." in
      record {
        body =
            if not (str_eq prior "")
            then queued <+> " to continue prior branch `" <+> prior <+> "` (" <+> worker
            else if is_false mutates
            then queued <+> " as a read-only task (no branch will be created; " <+> worker
            else queued <+> " on planned branch `" <+> branch_name n body <+> "` (" <+> worker;
        tag = "Queued #" <+> show_ℕ n;
      }

  -- `except ValueError`; another exception leaves the call
  abbrev pub unqueued : (agent_name : String) → Error → Result Ack
  unqueued name (value_error s) = ok (record {
    body = "Delivered to " <+> name <+> " on the chat bus (couldn't queue: " <+> s <+> ").";
    tag = "Delivered";
  })
  unqueued name e = raise e

  -- the route to the project's queue
  unfoldable pub queue_reply :
      (now : ℕ) (agent_name path body header : String) → Db × Workers → Result Ack × (Db × Workers)
  unfolding prior_branch format_ack
  queue_reply now name path body header (db, w) =
      let prior = prior_branch current_branch strip valid header path name db in
      let mutates = classify body in
      elim (pool.ensure_worker path w) [
        | raise e ↦ (unqueued name e, (db, w))
        | ok (pid, w') ↦
            let (n, tasks) =
              enqueue now path body (pos 0) none false no_origin "" prior mutates db.tasks in
            (ok (format_ack n name pid prior mutates body), (put_tasks tasks db, w'))
      ]

  abbrev pub delivered : String → Ack
  delivered name = record {
    body = "Delivered to " <+> name <+> " on the chat bus.";
    tag = "Delivered";
  }

  unfoldable pub act_on :
      (has_queue : Bool) (now : ℕ) (agent_name body header : String)
      → Decision
      → Db × Workers
      → Result Ack × (Db × Workers)
  unfolding queue_reply
  act_on has_queue now name body header ask s = (
    ok (record {
      body = "Answer delivered to " <+> name <+> " (was waiting on a question).";
      tag = "Answer";
    }),
    s,
  )
  act_on has_queue now name body header bus s = (ok (delivered name), s)
  act_on has_queue now name body header (project path) s =
      let queued = queue_reply now name path body header s in
      if has_queue then queued else (ok (delivered name), s)

  -- `has_queue` is whether there are a queue and a worker manager. What was written before an
  -- exception stays.
  unfoldable pub apply_reply :
      (has_queue : Bool) (now : ℕ) (agent_name : String) (original_message_id : ℕ)
      (body allowed_base original_email_message_id : String)
      → Db × Workers
      → Result Ack × (Db × Workers)
  unfolding classify_reply act_on
  apply_reply has_queue now name n body allowed_base header (db, w) =
      elim (insert_message now (reply_draft name body n) db) [
        | raise e ↦ (raise e, (db, w))
        | ok (_, db') ↦
            act_on has_queue now name body header (classify_reply paths name n allowed_base db)
              (db', w)
      ]

-- The UPDATE of `stamp_origin_by_token`.
abbrev pub to_stamp : (dispatch_token : String) → Task → Bool
to_stamp token t =
    holds (λ s. str_eq s token) t.dispatch_token
    && elim t.origin_from [ none ↦ true | some s ↦ false ]

abbrev pub stamped : (reply_to message_id subject : String) → Task → Task
stamped reply_to message_id subject t = record t {
  origin_from = some reply_to;
  origin_message_id = coalesce t.origin_message_id (or_none message_id);
  origin_subject = coalesce t.origin_subject (or_none subject);
}

unfoldable pub stamp_origin_by_token :
    (dispatch_token reply_to origin_message_id origin_subject : String) → Tasks → ℕ × Tasks
stamp_origin_by_token token reply_to message_id subject s =
    if str_eq reply_to "" || str_eq token "" then (0, s) else (
      count_by (to_stamp token) s.rows,
      record {
        rows = update (to_stamp token) (stamped reply_to message_id subject) s.rows;
        next_id = s.next_id;
      },
    )

-- `execute` is the run of the router, which may change the queue; `fixup_fails` is whether sqlite3
-- raises, which is swallowed.
unfoldable pub run_router_with_fixup :
    {A : Type 0}
    → (execute : Tasks → A × Tasks) → (fixup_fails has_db : Bool)
    → (dispatch_token reply_to origin_message_id origin_subject : String) → Tasks
    → A × Tasks
unfolding stamp_origin_by_token
run_router_with_fixup execute fails has_db token reply_to message_id subject s =
    let (output, s') = execute s in
    if has_db && not fails
    then (output, (stamp_origin_by_token token reply_to message_id subject s').1)
    else (output, s')

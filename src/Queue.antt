-- ===== src/Queue.antt =====
-- src/task_queue.py and src/task_row_redact.py: `TaskQueue`, one function for each method over the
-- `tasks` table. `now` is the value of `_now()`. Each method is one SQL statement and its commit,
-- so a method is one atomic step of the table.
mod Tests
pub mod Tables
pub mod Calls
pub mod Refinement
pub mod History
pub mod Invariant
pub mod Claim
mod Order
use claude_email.Prelude.{
  ℕ, ◌+◌, String, Bool, true, false, not, ◌&&◌, ◌||◌, Option, none, some, List, [], ◌∷◌, ◌++◌, map,
  ℤ, pos, ltb_ℤ, eqb_ℤ, ◌==◌, leb, str_eq, or_none, any, head?,
}
use claude_email.Table.{select, update, returning, count_by, order_by}
use claude_email.Db.{Task, Tasks, TaskStatus}
use mathlib.Core.Option

abbrev pub is_pending : Task → Bool
is_pending t = elim t.status [ TaskStatus.pending ↦ true | _ ↦ false ]

abbrev pub is_running : Task → Bool
is_running t = elim t.status [ TaskStatus.running ↦ true | _ ↦ false ]

abbrev pub row_id : Task → ℕ
row_id t = t.id

abbrev pub has_id : ℕ → Task → Bool
has_id n t = t.id == n

-- project_path=? AND status='pending'
abbrev pub pending_in : String → Task → Bool
pending_in path t = str_eq t.project_path path && is_pending t

-- project_path=? AND status='running'
abbrev pub running_in : String → Task → Bool
running_in path t = str_eq t.project_path path && is_running t

-- `public_row`: a dict without the key `dispatch_token` reads as one that holds None.
unfoldable pub public_row : Task → Task
public_row t = record t { dispatch_token = none }

-- ORDER BY priority DESC, id ASC
unfoldable pub precedes : Task → Task → Bool
precedes a b = ltb_ℤ b.priority a.priority || eqb_ℤ a.priority b.priority && leb a.id b.id

-- The keyword arguments of `enqueue` that are not positional.
pub record Origin : Type 0 where
  pub content_type : String
  pub message_id : String
  pub subject : String
  pub sender : String
  pub envelope_v : Option ℤ

abbrev pub no_origin : Origin
no_origin = record {
  content_type = "";
  message_id = "";
  subject = "";
  sender = "";
  envelope_v = none;
}

unfoldable pub append_row : Task → Tasks → Tasks
append_row t s = record { rows = s.rows ++ t ∷ []; next_id = s.next_id + 1 }

-- The row of the INSERT of `enqueue`, under the id that AUTOINCREMENT gives it.
abbrev pub new_task :
    (id now : ℕ) (project_path body : String) (priority : ℤ) (retry_of : Option ℕ)
    (plan_first : Bool) (origin : Origin) (dispatch_token branch_name : String)
    (mutates_repo : Option Bool)
    → Task
new_task id now project_path body priority retry_of plan_first origin token branch mutates =
    record {
      id = id;
      project_path = project_path;
      body = body;
      status = TaskStatus.pending;
      priority = priority;
      pid = none;
      branch_name = or_none branch;
      mutates_repo = mutates;
      created_at = now;
      started_at = none;
      completed_at = none;
      error_text = none;
      output_text = none;
      retry_of = retry_of;
      plan_first = plan_first;
      origin_content_type = or_none origin.content_type;
      origin_message_id = or_none origin.message_id;
      origin_subject = or_none origin.subject;
      origin_from = or_none origin.sender;
      dispatch_token = or_none token;
      last_sent_status = none;
      origin_envelope_v = origin.envelope_v;
    }

unfoldable pub enqueue :
    (now : ℕ) (project_path body : String) (priority : ℤ) (retry_of : Option ℕ) (plan_first : Bool)
    (origin : Origin) (dispatch_token branch_name : String) (mutates_repo : Option Bool)
    → Tasks
    → ℕ × Tasks
unfolding append_row
enqueue now path body priority retry plan origin token branch mutates s =
    let t = new_task s.next_id now path body priority retry plan origin token branch mutates in
    (s.next_id, append_row t s)

unfoldable pub enqueue_routed :
    (now : ℕ) (project_path body : String) (origin : Origin) → Tasks → ℕ × Tasks
unfolding append_row
enqueue_routed now project_path body origin s = (
  s.next_id,
  append_row
      (record {
        id = s.next_id;
        project_path = project_path;
        body = body;
        status = TaskStatus.routed_via_agent;
        priority = pos 0;
        pid = none;
        branch_name = none;
        mutates_repo = none;
        created_at = now;
        started_at = some now;
        completed_at = some now;
        error_text = none;
        output_text = none;
        retry_of = none;
        plan_first = false;
        origin_content_type = or_none origin.content_type;
        origin_message_id = or_none origin.message_id;
        origin_subject = or_none origin.subject;
        origin_from = or_none origin.sender;
        dispatch_token = none;
        last_sent_status = none;
        origin_envelope_v = origin.envelope_v;
      })
      s,
)

-- SELECT … WHERE project_path=? AND status='pending' ORDER BY priority DESC, id ASC
unfoldable pub pending_rows : String → Tasks → List Task
pending_rows path s = order_by precedes (select (pending_in path) s.rows)

-- `id=(SELECT id …)`, which no row meets if the subquery gives NULL
abbrev pub is_chosen : Option Task → Task → Bool
is_chosen none t = false
is_chosen (some c) t = t.id == c.id

abbrev pub started : ℕ → Task → Task
started now t = record t { status = TaskStatus.running; started_at = some now }

-- The WHERE clause of the claim.
abbrev pub claimable : String → Tasks → Task → Bool
claimable path s t =
    is_chosen (head? (pending_rows path s)) t && is_pending t && not (any (running_in path) s.rows)

unfoldable pub claim_next : (now : ℕ) (project_path : String) → Tasks → Option Task × Tasks
claim_next now path s =
    let hit = claimable path s in
    (
      Option.map public_row (head? (returning hit (started now) s.rows)),
      record s { rows = update hit (started now) s.rows },
    )

abbrev pub done_at : ℕ → Task → Task
done_at now t = record t { status = TaskStatus.done; completed_at = some now }

abbrev pub failed_at : ℕ → String → Task → Task
failed_at now error t = record t {
  status = TaskStatus.failed;
  error_text = some error;
  completed_at = some now;
}

abbrev pub cancelled_at : ℕ → Task → Task
cancelled_at now t = record t { status = TaskStatus.cancelled; completed_at = some now }

unfoldable pub mark_done : (now task_id : ℕ) → Tasks → Tasks
mark_done now n s = record s { rows = update (has_id n) (done_at now) s.rows }

unfoldable pub mark_failed : (now task_id : ℕ) (error_text : String) → Tasks → Tasks
mark_failed now n error s = record s { rows = update (has_id n) (failed_at now error) s.rows }

unfoldable pub cancel : (now task_id : ℕ) → Tasks → Tasks
cancel now n s = record s { rows = update (has_id n) (cancelled_at now) s.rows }

unfoldable pub set_pid : (task_id : ℕ) (pid : ℤ) → Tasks → Tasks
set_pid n pid s = record s { rows = update (has_id n) (λ t. record t { pid = some pid }) s.rows }

unfoldable pub set_branch : (task_id : ℕ) (branch_name : String) → Tasks → Tasks
set_branch n branch s = record s {
  rows = update (has_id n) (λ t. record t { branch_name = some branch }) s.rows;
}

unfoldable pub set_output : (task_id : ℕ) (output_text : String) → Tasks → Tasks
set_output n output s = record s {
  rows = update (has_id n) (λ t. record t { output_text = some output }) s.rows;
}

unfoldable pub list_pending : String → Tasks → List Task
list_pending path s = map public_row (pending_rows path s)

unfoldable pub get_running : String → Tasks → Option Task
get_running path s = Option.map public_row (head? (select (running_in path) s.rows))

abbrev id_order : Task → Task → Bool
id_order a b = leb a.id b.id

unfoldable pub list_running : Tasks → List Task
list_running s = map public_row (order_by id_order (select is_running s.rows))

unfoldable pub drain_pending : (now : ℕ) (project_path : String) → Tasks → ℕ × Tasks
drain_pending now path s = (
  count_by (pending_in path) s.rows,
  record s { rows = update (pending_in path) (cancelled_at now) s.rows },
)

unfoldable pub get : ℕ → Tasks → Option Task
get n s = Option.map public_row (head? (select (has_id n) s.rows))

unfoldable pub latest_task : String → Tasks → Option Task
latest_task path s =
    Option.map public_row
      (head? (order_by (λ a b. leb b.id a.id) (select (λ t. str_eq t.project_path path) s.rows)))

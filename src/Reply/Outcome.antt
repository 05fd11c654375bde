-- ===== src/Reply/Outcome.antt =====
-- What a reply leaves on the bus and in the queue.
use claude_email.Prelude.{ℕ, ◌+◌, String, Bool, true, Option, [], ◌∷◌, ◌++◌, ◌≡◌, ℤ}
use claude_email.Effect.{Result, ok, raise, value_error}
use claude_email.Db.{Db, Message, Task, Tasks, TaskStatus}
use claude_email.Bus.{new_message}
use claude_email.Tools.{Paths, Pool}
use claude_email.Reply.{Decision, project, reply_draft, Ack}

abbrev pub reply_row : (now : ℕ) (name : String) (n : ℕ) (body : String) → Db → Message
reply_row now name n body db = new_message db.next_message now (reply_draft name body n)

-- The task that a reply adds: a pending one with the reply as its body, for the project.
abbrev pub Adds : (path body : String) → Tasks → Tasks → Type 0
Adds path body s s' =
    (t : Task) × (s' ≡ record { rows = s.rows ++ t ∷ []; next_id = s.next_id + 1 })
    × (t.id ≡ s.next_id)
    × (t.project_path ≡ path)
    × (t.body ≡ body)
    × (t.status ≡ TaskStatus.pending)

module _ (paths : Paths) (current_branch : String → String) (strip : String → String)
    (valid : String → Bool) (classify : String → Option Bool) (branch_name : ℕ → String → String)
    {Workers : Type 0} (pool : Pool Workers) where
  -- How the reply ends for a project: a task is added if there is a worker for it; a ValueError of
  -- the manager is told in the answer, and another exception leaves the call.
  abbrev pub Queued :
      (path body : String) → Result (ℤ × Workers) → Result Ack → Tasks → Tasks → Type 0
  Queued path body (ok worker) r s s' = ((a : Ack) × (r ≡ ok a)) × Adds path body s s'
  Queued path body (raise (value_error m)) r s s' = ((a : Ack) × (r ≡ ok a)) × (s' ≡ s)
  Queued path body (raise e) r s s' = (r ≡ raise e) × (s' ≡ s)

  -- How the reply ends by where it goes. Without a queue it is only delivered.
  abbrev pub Ends :
      (has_queue : Bool) (body : String) → Decision → Workers → Result Ack → Tasks → Tasks → Type 0
  Ends true body (project path) w r s s' = Queued path body (pool.ensure_worker path w) r s s'
  Ends _ body _ w r s s' = ((a : Ack) × (r ≡ ok a)) × (s' ≡ s)

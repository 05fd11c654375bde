-- ===== src/Tools/Retry.antt =====
-- A retry adds a task of its own and only for a task that has ended.
use claude_email.Prelude.{
  ℕ, ◌+◌, String, Bool, true, Option, some, [], ◌∷◌, ◌++◌, ◌≡◌, refl, Bool-cases, Option-cases, inl,
  inr,
}
use claude_email.Effect.{Result-cases}
use claude_email.Db.{Db, Task, TaskStatus}
use claude_email.Queue
use claude_email.Queue.{enqueue, append_row}
use claude_email.Tools.Resolve.{worker_failure-cases}
use claude_email.Tools.{
  Paths, Pool, Answered, failure, answered, escaped, Retried, put_tasks, is_terminal, retry_with,
  retry_task_tool,
}

module _ (paths : Paths) (classify : String → Option Bool) (branch_name : ℕ → String → String)
    (strip : String → String) {Workers : Type 0} (pool : Pool Workers) where
  -- How the tool ends, by its result and the store before and after it.
  abbrev pub Ends : (task_id : ℕ) → Answered Retried → Db → Db → Type 0
  Ends n (failure x) db db' = db' ≡ db
  Ends n (escaped e) db db' = db' ≡ db
  Ends n (answered q) db db' =
      (old new : Task) × (Queue.get n db.tasks ≡ some old)
      × (is_terminal old.status ≡ true)
      × (db'
          ≡ put_tasks (record { rows = db.tasks.rows ++ new ∷ []; next_id = q.new_task_id + 1 }) db)
      × (new.id ≡ q.new_task_id)
      × (new.retry_of ≡ some old.id)
      × (new.project_path ≡ old.project_path)
      × (new.status ≡ TaskStatus.pending)
      × (new.mutates_repo ≡ old.mutates_repo)

  retry_with-Ends :
      (now n : ℕ) (old : Task) (new_body : String) (db : Db) (w : Workers)
      → Queue.get n db.tasks ≡ some old
      → is_terminal old.status ≡ true
      → let (a, (db', w')) =
          retry_with paths classify branch_name strip pool now old new_body (db, w) in
        Ends n a db db'
  unfolding retry_with enqueue append_row
  retry_with-Ends now n old new_body db w g t =
      elim (Result-cases (pool.ensure_worker old.project_path w)) [
        | inl ((pid, w'), e) ↦ rw (e, retry_with) (old, _, g, t, refl, refl, refl, refl, refl, refl)
        | inr (x, e) ↦
            rw (e, retry_with)
              (elim (worker_failure-cases {A = Retried} "" x) [
                | inl (m, q, f) ↦ rw (f) refl
                | inr (o, f) ↦ rw (f) refl
              ])
      ]

  -- A retry fails and leaves the store as it is, or it adds one pending task for the project of a
  -- task that is done, failed or cancelled, with that task as its `retry_of`, and changes no other.
  pub retry_task_tool-Ends :
      (now n : ℕ) (new_body : String) (db : Db) (w : Workers)
      → let (a, (db', w')) =
          retry_task_tool paths classify branch_name strip pool now n new_body (db, w) in
        Ends n a db db'
  unfolding retry_task_tool
  retry_task_tool-Ends now n new_body db w = elim (Option-cases (Queue.get n db.tasks)) [
    | inl e ↦ rw (e, retry_task_tool) refl
    | inr (t, e) ↦ elim (Bool-cases (is_terminal t.status)) [
      | inl b ↦ rw (e, retry_task_tool, b) (retry_with-Ends now n t new_body db w e b)
      | inr b ↦ rw (e, retry_task_tool, b) refl
    ]
  ]

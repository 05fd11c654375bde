-- ===== src/Reply/Prior.antt =====
-- Which branch a reply may go on with.
use claude_email.Prelude.{
  ℕ, String, Bool, true, not, ◌&&◌, Option, none, some, str_eq, ◌≡◌, refl, Bool-cases, Option-cases,
  inl, inr, ◌⊎◌, or_empty, ◌==◌, arith,
}
use claude_email.Db.{Db, Task, OutboundEmail}
use claude_email.Queue
use claude_email.Bus.{holds}
use claude_email.Stores.{find_outbound_email}
use claude_email.Reply.{prior_branch, valid_or_empty, branch_of_task}

module _ (current_branch : String → String) (strip : String → String) (valid : String → Bool) where
  -- Where a branch comes from: the task of the mail, or the project's checkout for a mail without one.
  abbrev pub Source : (path branch : String) → OutboundEmail → Db → Type 0
  Source path branch o db =
      ((t : Task) × (n : ℕ) × (o.task_id ≡ some n)
        × (Queue.get n db.tasks ≡ some t)
        × (str_eq t.project_path path ≡ true)
        × (branch ≡ strip (or_empty t.branch_name)))
      ⊎ (branch ≡ strip (current_branch path))

  abbrev pub IsSafe : (header path name branch : String) → Db → Type 0
  IsSafe header path name branch db =
      (branch ≡ "")
      ⊎ ((valid branch ≡ true)
          × ((o : OutboundEmail) × (find_outbound_email header db ≡ some o)
              × (holds (λ s. str_eq s name) o.sender_agent ≡ true)
              × Source path branch o db))

  checked :
      (path raw : String) (o : OutboundEmail) (db : Db)
      → Source path raw o db
      → let b = valid_or_empty valid raw in (b ≡ "") ⊎ ((valid b ≡ true) × Source path b o db)
  checked path raw o db s = elim (Bool-cases (not (str_eq raw "") && valid raw)) [
    | inl e ↦ rw (e) (inr (ground arith, s))
    | inr e ↦ rw (e) (inl refl)
  ]

  branch_of_task_lem :
      (path : String) (o : OutboundEmail) (id : Option ℕ) (db : Db)
      → o.task_id ≡ id
      → let b = branch_of_task current_branch strip valid path id db in
        (b ≡ "") ⊎ ((valid b ≡ true) × Source path b o db)
  branch_of_task_lem path o none db h = checked path (strip (current_branch path)) o db (inr refl)
  branch_of_task_lem path o (some n) db h = elim (Bool-cases (n == 0)) [
    | inl z ↦ rw (z) (checked path (strip (current_branch path)) o db (inr refl))
    | inr z ↦ elim (Option-cases (Queue.get n db.tasks)) [
      | inl e ↦ rw (z, e) (inl refl)
      | inr (t, e) ↦ elim (Bool-cases (str_eq t.project_path path)) [
        | inl p ↦
            rw (z, e, p)
              (checked path (strip (or_empty t.branch_name)) o db (inl (t, n, h, e, p, refl)))
        | inr p ↦ rw (z, e, p) (inl refl)
      ]
    ]
  ]

  -- The branch that a reply goes on with is empty, or it is a valid task branch, the mail that is
  -- replied to was recorded as sent by the agent itself, and the branch is that of the mail's task,
  -- which is a task of the same project, or the one checked out there.
  pub prior_branch-IsSafe :
      (header path name : String) (db : Db)
      → IsSafe header path name (prior_branch current_branch strip valid header path name db) db
  unfolding prior_branch
  prior_branch-IsSafe header path name db = elim (Option-cases (find_outbound_email header db)) [
    | inl e ↦ rw (e, prior_branch) (inl refl)
    | inr (o, e) ↦ elim (Bool-cases (str_eq header "")) [
      | inl h ↦ rw (e, h, prior_branch) (inl refl)
      | inr h ↦ elim (Bool-cases (holds (λ s. str_eq s name) o.sender_agent)) [
        | inr k ↦ rw (e, h, k, prior_branch) (inl refl)
        | inl k ↦ elim (branch_of_task_lem path o o.task_id db refl) [
          | inl q ↦ rw (e, h, k, prior_branch) (inl q)
          | inr (v, s) ↦ rw (e, h, k, prior_branch) (inr (v, (o, refl, k, s)))
        ]
      ]
    ]
  ]

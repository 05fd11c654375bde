-- ===== src/Tools/Resolve.antt =====
-- A task enters the queue only for a directory in the allowed base.
use claude_email.Prelude.{
  ◌⊎◌, ℕ, ◌+◌, String, Bool, true, false, Option, [], ◌∷◌, ◌++◌, str_eq, ◌≡◌, refl, subst, arith,
  Bool-cases, inl, inr, ℤ, pos, negsuc, ltb_ℤ,
}
use claude_email.Effect.{
  Result-cases, Error, IsOther, value_error, os_error, integrity_error, locked, operational_error,
  name_taken,
}
use claude_email.Db.{Db, Task}
use claude_email.Queue.{enqueue, append_row}
use claude_email.Tools.{
  Paths, Pool, Resolution, found, refused, in_base, resolve_project, Answered, failure, answered,
  escaped, worker_failure, Enqueued, Request, clamp_priority, put_tasks, enqueue_request,
  enqueue_resolved, enqueue_task_tool,
}

-- What the resolution promises.
abbrev pub IsAllowed : Paths → (allowed_base resolved : String) → Type 0
IsAllowed paths allowed_base resolved =
    (str_eq allowed_base "" ≡ false)
    × (paths.is_dir resolved ≡ true)
    × (in_base paths (paths.resolve allowed_base) resolved ≡ true)

found_inj : (a b : String) → found a ≡ found b → a ≡ b
found_inj a b h = cc

resolve_project-IsAllowed :
    (paths : Paths) (project allowed_base resolved : String)
    → resolve_project paths project allowed_base ≡ found resolved
    → IsAllowed paths allowed_base resolved
unfolding resolve_project
resolve_project-IsAllowed paths project allowed_base resolved h =
    let path = paths.joined allowed_base project in
    elim (Bool-cases (str_eq allowed_base "")) [
      | inl e ↦ cc (h, e)
      | inr e ↦ elim (Bool-cases (paths.is_dir path)) [
        | inr d ↦ cc (h, e, d)
        | inl d ↦ elim (Bool-cases (in_base paths (paths.resolve allowed_base) path)) [
          | inr b ↦ cc (h, e, d, b)
          | inl b ↦
              let q : path ≡ resolved = cc (h, e, d, b) in
              subst (IsAllowed paths allowed_base) q (e, d, b)
        ]
      ]
    ]

clamp_priority_lem :
    (p : ℤ)
    → (ltb_ℤ (clamp_priority p) (pos 0) ≡ false) × (ltb_ℤ (pos 10) (clamp_priority p) ≡ false)
clamp_priority_lem (pos n) = ground arith
clamp_priority_lem (negsuc n) = ground arith

-- A ValueError becomes the tool's error, and every other exception leaves it.
pub worker_failure-cases :
    {A : Type 0} (code : String) (x : Error)
    → ((s : String) × (x ≡ value_error s)
        × (worker_failure {A = A} code x ≡ failure (record { error = s; error_code = code })))
      ⊎ (IsOther x × (worker_failure {A = A} code x ≡ escaped x))
worker_failure-cases code (value_error s) = inl (s, refl, refl)
worker_failure-cases code (os_error s) = inr (tt, refl)
worker_failure-cases code integrity_error = inr (tt, refl)
worker_failure-cases code locked = inr (tt, refl)
worker_failure-cases code operational_error = inr (tt, refl)
worker_failure-cases code (name_taken s p) = inr (tt, refl)

module _ (paths : Paths) (classify : String → Option Bool) (branch_name : ℕ → String → String)
    (strip : String → String) {Workers : Type 0} (pool : Pool Workers) where
  -- How the tool ends, by its result and the store before and after it.
  abbrev pub Ends : (allowed_base : String) → Request → Answered Enqueued → Db → Db → Type 0
  Ends allowed_base r (failure x) db db' = db' ≡ db
  Ends allowed_base r (escaped e) db db' = db' ≡ db
  Ends allowed_base r (answered q) db db' =
      (t : Task) × (db'
        ≡ put_tasks (record { rows = db.tasks.rows ++ t ∷ []; next_id = q.task_id + 1 }) db)
      × (t.id ≡ q.task_id)
      × (t.body ≡ r.body)
      × IsAllowed paths allowed_base t.project_path
      × (ltb_ℤ t.priority (pos 0) ≡ false)
      × (ltb_ℤ (pos 10) t.priority ≡ false)

  enqueue_resolved-Ends :
      (now : ℕ) (allowed_base : String) (r : Request) (s : Resolution) (db : Db) (w : Workers)
      → ((p : String) → s ≡ found p → IsAllowed paths allowed_base p)
      → let (a, (db', w')) =
          enqueue_resolved paths classify branch_name strip pool now r s (db, w) in
        Ends allowed_base r a db db'
  unfolding enqueue_resolved enqueue_request enqueue append_row
  enqueue_resolved-Ends now base r (refused x) db w k = refl
  enqueue_resolved-Ends now base r (found p) db w k = elim (Result-cases (pool.ensure_worker p w)) [
    | inl ((pid, w'), e) ↦
        let (low, high) = clamp_priority_lem r.priority in
        rw (e, enqueue_resolved) (_, refl, refl, refl, k p refl, low, high)
    | inr (x, e) ↦
        rw (e, enqueue_resolved)
          (elim (worker_failure-cases {A = Enqueued} "internal" x) [
            | inl (m, q, f) ↦ rw (f) refl
            | inr (o, f) ↦ rw (f) refl
          ])
  ]

  -- Whatever a request asks for, the tool fails or raises and leaves the store as it is, or adds one task with
  -- the body of the request, for an existing directory in the allowed base, at a priority from 0
  -- to 10.
  pub enqueue_task_tool-Ends :
      (now : ℕ) (allowed_base : String) (r : Request) (db : Db) (w : Workers)
      → let (a, (db', w')) =
          enqueue_task_tool paths classify branch_name strip pool now allowed_base r (db, w) in
        Ends allowed_base r a db db'
  unfolding enqueue_task_tool
  enqueue_task_tool-Ends now base r db w =
      enqueue_resolved-Ends now base r (resolve_project paths r.project base) db w
        (λ p e. resolve_project-IsAllowed paths r.project base p e)

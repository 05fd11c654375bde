-- ===== src/Worker/Turn.antt =====
-- What a turn leaves of its task.
use mathlib.Core.Option
use claude_email.Prelude.{
  ℕ, ◌≡◌, String, Bool, true, false, arith, refl, pos, eqb_ℤ, Bool-cases, inl, inr, Option, none,
  some, List, [], ◌∷◌, head?, ap, ◌∙◌, sym, Option-cases, if◌then◌else◌, or_empty, ◌==◌,
}
use claude_email.Table.{select, update}
use claude_email.Db.{Task, Tasks, TaskStatus}
use claude_email.Queue.{
  get, has_id, public_row, set_output, set_pid, mark_done, mark_failed, done_at, failed_at,
}
use claude_email.Worker.{WorkerConfig, Run, Ended, exited, timed_out, runs, settle, run_agent}

-- The status of a task, if there is such a task.
abbrev pub status_of : ℕ → Tasks → Option TaskStatus
status_of n queue = Option.map (λ t. t.status) (get n queue)

-- The status that the end of the process asks for.
abbrev pub verdict : Ended → TaskStatus
verdict (exited rc) = if eqb_ℤ rc (pos 0) then TaskStatus.done else TaskStatus.failed
verdict timed_out = TaskStatus.failed

head?-update :
    (n : ℕ) (f : Task → Task) (xs : List Task)
    → ((t : Task) → (f t).id ≡ t.id)
    → head? (select (has_id n) (update (has_id n) f xs))
      ≡ Option.map f (head? (select (has_id n) xs))
head?-update n f [] same = refl
head?-update n f (x ∷ xs) same = elim (Bool-cases (x.id == n)) [
  | inl e ↦ rw (e, same x, e) refl
  | inr e ↦ rw (e, e) (head?-update n f xs same)
]

-- An UPDATE of the task by `f` puts the status of the row through `f`.
status_of-update :
    (n : ℕ) (f : Task → Task) (queue : Tasks)
    → ((t : Task) → (f t).id ≡ t.id)
    → status_of n (record queue { rows = update (has_id n) f queue.rows })
      ≡ Option.map (λ t. (f t).status) (head? (select (has_id n) queue.rows))
unfolding get public_row
status_of-update n f queue same =
    rw (head?-update n f queue.rows same)
      (elim (Option-cases (head? (select (has_id n) queue.rows))) [
        | inl e ↦ rw e refl
        | inr (t, e) ↦ rw e refl
      ])

runs_row :
    (n : ℕ) (queue : Tasks)
    → runs n queue ≡ true
    → (t : Task) × (head? (select (has_id n) queue.rows) ≡ some t)
unfolding get runs
runs_row n queue h = elim (Option-cases (head? (select (has_id n) queue.rows))) [
  | inl e ↦ ground arith
  | inr r ↦ r
]

-- A running task that an UPDATE gives a status has it.
status_of-mark :
    (n : ℕ) (f : Task → Task) (status : TaskStatus) (queue : Tasks)
    → ((t : Task) → (f t).id ≡ t.id)
    → ((t : Task) → (f t).status ≡ status)
    → runs n queue ≡ true
    → status_of n (record queue { rows = update (has_id n) f queue.rows }) ≡ some status
status_of-mark n f status queue same given h =
    let (t, e) = runs_row n queue h in status_of-update n f queue same ∙ (rw (e, given t) refl)

-- An UPDATE that leaves the status leaves the status.
status_of-same :
    (n : ℕ) (f : Task → Task) (queue : Tasks)
    → ((t : Task) → (f t).id ≡ t.id)
    → ((t : Task) → (f t).status ≡ t.status)
    → status_of n (record queue { rows = update (has_id n) f queue.rows }) ≡ status_of n queue
unfolding get public_row
status_of-same n f queue same keeps =
    status_of-update n f queue same ∙ (elim (Option-cases (head? (select (has_id n) queue.rows))) [
      | inl e ↦ rw e refl
      | inr (t, e) ↦ rw (e, keeps t) refl
    ])

running_status : Option TaskStatus → Bool
running_status none = false
running_status (some status) = elim status [ TaskStatus.running ↦ true | _ ↦ false ]

runs-status_of : (n : ℕ) (queue : Tasks) → runs n queue ≡ running_status (status_of n queue)
unfolding runs running_status
runs-status_of n queue = elim (Option-cases (get n queue)) [
  | inl e ↦ rw (e, runs) refl
  | inr (t, e) ↦ rw (e, runs) refl
]

running_verdict : (ended : Ended) → running_status (some (verdict ended)) ≡ false
unfolding running_status
running_verdict (exited rc) = elim (Bool-cases (eqb_ℤ rc (pos 0))) [
  | inl e ↦ rw e refl
  | inr e ↦ rw e refl
]
running_verdict timed_out = refl

stops :
    (n : ℕ) (ended : Ended) (after q : Tasks)
    → status_of n q ≡ (if runs n after then some (verdict ended) else status_of n after)
    → runs n q ≡ false
stops n ended after q h = elim (Bool-cases (runs n after)) [
  | inl r ↦
      runs-status_of n q
      ∙ ap running_status h
      ∙ ap (λ b. running_status (if b then some (verdict ended) else status_of n after)) r
      ∙ running_verdict ended
  | inr r ↦
      runs-status_of n q
      ∙ ap running_status h
      ∙ ap (λ b. running_status (if b then some (verdict ended) else status_of n after)) r
      ∙ sym (runs-status_of n after)
      ∙ r
]

module _ (tail : String → String) (cfg : WorkerConfig) (now : ℕ) where
  status_of-settle :
      (n : ℕ) (ended : Ended) (queue : Tasks)
      → status_of n (settle tail cfg now n ended queue)
        ≡ (if runs n queue then some (verdict ended) else status_of n queue)
  unfolding settle mark_done mark_failed
  status_of-settle n (exited rc) queue = elim (Bool-cases (runs n queue)) [
    | inl r ↦ elim (Bool-cases (eqb_ℤ rc (pos 0))) [
      | inl z ↦
          rw (r, z) (status_of-mark n (done_at now) TaskStatus.done queue (λ t. refl) (λ t. refl) r)
      | inr z ↦
          rw (r, z)
            (status_of-mark n (failed_at now _) TaskStatus.failed queue (λ t. refl) (λ t. refl) r)
    ]
    | inr r ↦ rw r refl
  ]
  status_of-settle n timed_out queue = elim (Bool-cases (runs n queue)) [
    | inl r ↦
        rw r (status_of-mark n (failed_at now _) TaskStatus.failed queue (λ t. refl) (λ t. refl) r)
    | inr r ↦ rw r refl
  ]

  -- If the task still runs when its process has ended, the turn leaves it `done` after an exit with
  -- 0 and `failed` otherwise; a status that another process gave it in between stands. Either way
  -- the task does not run any more.
  pub run_agent_lem :
      (claimed : Task) (run : Run) (queue : Tasks)
      → let n = claimed.id in
        let after = run.meanwhile (set_pid n run.pid queue) in
        let ended = run_agent tail cfg now claimed run queue in
        (status_of n ended ≡ (if runs n after then some (verdict run.ended) else status_of n after))
        × (runs n ended ≡ false)
  unfolding run_agent set_output
  run_agent_lem claimed run queue =
      let n = claimed.id in
      let after = run.meanwhile (set_pid n run.pid queue) in
      let output : Task → Task =
        λ t. record t { output_text = some (tail (or_empty run.stdout)) } in
      let noted = record after { rows = update (has_id n) output after.rows } in
      let same = status_of-same n output after (λ t. refl) (λ t. refl) in
      let e = status_of-settle n run.ended noted in
      let runs_same =
        runs-status_of n noted ∙ ap running_status same ∙ sym (runs-status_of n after) in
      let first : status_of n (settle tail cfg now n run.ended noted)
          ≡ (if runs n after then some (verdict run.ended) else status_of n after) =
        e
        ∙ ap (λ b. if b then some (verdict run.ended) else status_of n noted) runs_same
        ∙ ap (λ o. if runs n after then some (verdict run.ended) else o) same in
      (first, stops n run.ended after (settle tail cfg now n run.ended noted) first)

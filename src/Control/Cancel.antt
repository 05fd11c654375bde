-- ===== src/Control/Cancel.antt =====
-- After a cancellation the task is cancelled, and no other project is touched.
use mathlib.Core.Option
use claude_email.Prelude.{
  if◌then◌else◌, ℕ, ◌≡◌, ◌≢◌, String, Bool, true, false, none, some, List, [], ◌∷◌, refl, sym, ◌∙◌,
  ap, In, inl, inr, Option-cases, ==_iff, true≢false, Bool-cases, ◌⊎◌, ℤ, Option,
}
use claude_email.Table.{update, In-select}
use claude_email.Db.{Task, Tasks, TaskStatus}
use claude_email.Queue.{
  has_id, running_in, pending_in, get_running, list_pending, cancel, drain_pending, cancelled_at,
}
use claude_email.Queue.Claim.{head?-In}
use claude_email.Queue.Invariant.{IsValid}
use claude_email.Queue.History.{Reach}
use claude_email.Queue.Tables.{drain_pending_lem}
use claude_email.Ghosts.{launched}
use claude_email.Effect.{Result, ok, raise}
use claude_email.Control.{
  Kill, delivered, no_process, denied, Stop, Signal, CancelResult, permission_error, kill_soft,
  stop_process, cancel_running_task, drain_if,
}
use claude_email.Control.Wait.{
  public_row-id, running_row, cancel_running_others, cancel_pending, cancel_running,
}

none≢some : {A : Type 0} {a : A} → none ≢ some a
none≢some e = cc

drain_if_lem :
    (drain : Bool) (now : ℕ) (path : String) (queue : Tasks)
    → let queue' = (drain_if drain now path queue).1 in
      ((q : String) → get_running q queue' ≡ get_running q queue)
      × ((q : String) → q ≢ path → list_pending q queue' ≡ list_pending q queue)
      × (list_pending path queue' ≡ (if drain then [] else list_pending path queue))
drain_if_lem false now path queue = (λ q. refl, λ q n. refl, refl)
drain_if_lem true now path queue =
    let (none_left, others, running, _) = drain_pending_lem now path queue in
    (running, others, none_left)

In-update_more :
    (p : Task → Bool) (f : Task → Task) (t x : Task) (xs : List Task)
    → (In t xs × (p t ≡ false)) ⊎ ((y : Task) × (t ≡ f y))
    → (In t (x ∷ xs) × (p t ≡ false)) ⊎ ((y : Task) × (t ≡ f y))
In-update_more p f t x xs (inl (i, off)) = inl (inr i, off)
In-update_more p f t x xs (inr h) = inr h

-- A row of an UPDATE is one that it leaves, or comes from one that it meets.
In-update :
    (p : Task → Bool) (f : Task → Task) (t : Task) (xs : List Task)
    → In t (update p f xs)
    → (In t xs × (p t ≡ false)) ⊎ ((x : Task) × (t ≡ f x))
In-update p f t [] i = elim i [ ]
In-update p f t (x ∷ xs) i = elim (Bool-cases (p x)) [
  | inl b ↦ elim (rw b at i) [
    | inl e ↦ inr (x, e)
    | inr j ↦ In-update_more p f t x xs (In-update p f t xs j)
  ]
  | inr b ↦ elim (rw b at i) [
    | inl e ↦ inl (inl e, ap p e ∙ b)
    | inr j ↦ In-update_more p f t x xs (In-update p f t xs j)
  ]
]

-- Every row with the id is cancelled.
abbrev pub IsEnded : ℕ → List Task → Type 0
IsEnded n rows = (t : Task) → In t rows → has_id n t ≡ true → t.status ≡ TaskStatus.cancelled

cancel-IsEnded :
    (n now : ℕ) (rows : List Task) → IsEnded n (update (has_id n) (cancelled_at now) rows)
cancel-IsEnded n now rows t i h = elim (In-update (has_id n) (cancelled_at now) t rows i) [
  | inl (j, off) ↦ elim (true≢false (sym h ∙ off)) [ ]
  | inr (x, e) ↦ ap (λ r. r.status) e
]

cancelled : (now n : ℕ) (queue : Tasks) → IsEnded n (cancel now n queue).rows
unfolding cancel
cancelled now n queue = cancel-IsEnded n now queue.rows

drain_if-IsEnded :
    (drain : Bool) (now : ℕ) (path : String) (n : ℕ) (queue : Tasks)
    → IsEnded n queue.rows
    → IsEnded n (drain_if drain now path queue).1.rows
unfolding drain_pending
drain_if-IsEnded false now path n queue h t i w = h t i w
drain_if-IsEnded true now path n queue h t i w =
    elim (In-update (pending_in path) (cancelled_at now) t queue.rows i) [
      | inl (j, off) ↦ h t j w
      | inr (x, e) ↦ ap (λ r. r.status) e
    ]

-- `os.kill` raises PermissionError.
abbrev pub IsDenied : Stop → Type 0
IsDenied stop = (stop.sigterm ≡ denied) ⊎ (stop.sigkill ≡ denied)

kill-cases :
    (soft hard : Kill) (exited : Bool) (pid : ℤ)
    → ((l : List Signal) × (kill_soft soft exited hard pid ≡ ok l))
      ⊎ ((kill_soft soft exited hard pid ≡ raise permission_error)
          × ((soft ≡ denied) ⊎ (hard ≡ denied)))
kill-cases denied hard exited pid = inr (refl, inl refl)
kill-cases no_process hard exited pid = inl (_, refl)
kill-cases delivered hard true pid = inl (_, refl)
kill-cases delivered delivered false pid = inl (_, refl)
kill-cases delivered no_process false pid = inl (_, refl)
kill-cases delivered denied false pid = inr (refl, inr refl)

stop_process-cases :
    (stop : Stop) (o : Option ℤ)
    → ((l : List Signal) × (stop_process stop o ≡ ok l))
      ⊎ ((stop_process stop o ≡ raise permission_error) × IsDenied stop)
unfolding stop_process
stop_process-cases stop none = inl ([], refl)
stop_process-cases stop (some pid) = kill-cases stop.sigterm stop.sigkill stop.exited pid

-- A cancellation returns, or raises since a signal is not permitted.
pub cancel_running_task-cases :
    (stop : Stop) (now : ℕ) (path : String) (drain : Bool) (s : Tasks)
    → ((c : CancelResult) × ((cancel_running_task stop now path drain s).0 ≡ ok c))
      ⊎ (((cancel_running_task stop now path drain s).0 ≡ raise permission_error) × IsDenied stop)
unfolding cancel_running_task
cancel_running_task-cases stop now path drain s = elim (Option-cases (get_running path s)) [
  | inl e ↦ rw (e, cancel_running_task) (inl (_, refl))
  | inr (r, e) ↦ elim (stop_process-cases stop (launched r)) [
    | inl (l, p) ↦ rw (e, cancel_running_task, p) (inl (_, refl))
    | inr (p, d) ↦ rw (e, cancel_running_task, p) (inr (refl, d))
  ]
]

-- The queue when the wait is over: others may write while a task of the project is stopped.
abbrev pub waited : Stop → (running : Option Task) → Tasks → Tasks
waited stop none s = s
waited stop (some t) s = stop.meanwhile s

-- How a cancellation ends: what ran at first, and the queue `m` after the wait.
abbrev pub IsCancelled :
    Stop
    → (path : String) (drain : Bool) (running : Option Task) (m : Tasks)
    → Result CancelResult × Tasks
    → Type 0
IsCancelled stop path drain running m (raise e, s') =
    IsDenied stop × (e ≡ permission_error) × (s' ≡ m)
IsCancelled stop path drain running m (ok r, s') =
    (r.task_id ≡ Option.map (λ t. t.id) running)
    × ((t : Task)
        → get_running path s' ≡ some t
        → (get_running path m ≡ some t) × (r.task_id ≢ some t.id))
    × ((t : Task) → In t s'.rows → r.task_id ≡ some t.id → t.status ≡ TaskStatus.cancelled)
    × (list_pending path s' ≡ (if drain then [] else list_pending path m))
    × ((q : String)
        → q ≢ path
        → (get_running q s' ≡ get_running q m) × (list_pending q s' ≡ list_pending q m))

-- In a queue with ascending ids and at most one running task for each project, a cancellation names
-- the task that runs for the project and leaves it `cancelled`, whatever calls other processes make
-- while it waits: a task that runs for the project afterwards is another one, which was claimed in
-- the meantime. With `drain_queue` no task of the project is pending afterwards; otherwise they are
-- what they are after the wait, and so is all that runs or waits for other projects. It raises only
-- if a signal is not permitted, and then cancels nothing.
pub cancel_running_task_lem :
    (stop : Stop) (now : ℕ) (path : String) (drain : Bool) (s : Tasks)
    → IsValid s
    → Reach s (stop.meanwhile s)
    → IsCancelled stop path drain
        (get_running path s)
        (waited stop (get_running path s) s)
        (cancel_running_task stop now path drain s)
unfolding cancel_running_task
cancel_running_task_lem stop now path drain s v reach = elim (Option-cases (get_running path s)) [
  | inl e ↦
      let (running, others, emptied) = drain_if_lem drain now path s in
      rw (e, cancel_running_task)
        (
          refl,
          λ t h. absurd (none≢some (sym (running path ∙ e) ∙ h)),
          λ t j h. absurd (none≢some h),
          emptied,
          λ q n. (running q, others q n),
        )
  | inr (r, e) ↦
      let m = stop.meanwhile s in
      let (c, h, same) = running_row path s r e in
      let (i, k) = In-select (running_in path) c s.rows (head?-In _ c h) in
      let id : c.id ≡ r.id = sym (public_row-id c) ∙ ap (λ t. t.id) same in
      let (running, others, emptied) = drain_if_lem drain now path (cancel now c.id m) in
      elim (stop_process-cases stop (launched r)) [
        | inl (l, p) ↦
            rw (e, cancel_running_task, p, sym id)
              (
                refl,
                λ t g.
                    let (there, other) =
                      cancel_running now path s m v reach c i k t (sym (running path) ∙ g) in
                    (there, λ q. other (cc q)),
                λ t j q.
                    drain_if-IsEnded drain now path c.id (cancel now c.id m) (cancelled now c.id m)
                      t j ((==_iff t.id c.id).1 (cc q)),
                emptied
                    ∙ ap (λ l. if drain then [] else l)
                        (cancel_pending now path s m v reach c i k path),
                λ q n. (
                  running q ∙ cancel_running_others now path s m v reach c i k q n,
                  others q n ∙ cancel_pending now path s m v reach c i k q,
                ),
              )
        | inr (p, d) ↦ rw (e, cancel_running_task, p) (d, refl, refl)
      ]
]

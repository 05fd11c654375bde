-- ===== src/Queue/History.antt =====
-- The life of a task under the calls of all processes: it goes forward, and keeps what it was asked.
use claude_email.Prelude.{
  ℕ, ◌≤◌, Bool, true, false, sym, true≢false, List, [], ◌∷◌, ◌++◌, ◌≡◌, refl, ◌∙◌, arith,
  Bool-cases, inl, inr, In, In-append_left,
}
use claude_email.Table.{update}
use claude_email.Db.{Task, Tasks, TaskStatus}
use claude_email.Queue
use claude_email.Queue.{
  has_id, pending_in, claimable, is_pending, is_running, started, done_at, failed_at, cancelled_at,
  append_row,
}
use claude_email.Queue.Calls.{
  Call, perform, enqueue, enqueue_routed, claim_next, mark_done, cancel, mark_failed, set_pid,
  set_branch, set_output, drain_pending,
}

-- A call of one of the processes that share the file, and any number of them.
pub data Step : Tasks → Tasks → Type 0 where
  call : (c : Call) (s : Tasks) → Step s (perform c s)

pub data Reach (s : Tasks) : Tasks → Type 0 where
  here : Reach s s
  next : {s' s'' : Tasks} → Reach s s' → Step s' s'' → Reach s s''

-- 0 while it waits, 1 while it runs, and 2 from then on
abbrev pub stage : TaskStatus → ℕ
stage TaskStatus.pending = 0
stage TaskStatus.running = 1
stage _ = 2

-- What the second row may be, if the first is an earlier one of the same task.
pub record IsLater (t t' : Task) : Type 0 where
  pub id : t'.id ≡ t.id
  pub project_path : t'.project_path ≡ t.project_path
  pub body : t'.body ≡ t.body
  pub priority : t'.priority ≡ t.priority
  pub stage : stage t.status ≤ stage t'.status

IsLater-refl : (t : Task) → IsLater t t
IsLater-refl t = record {
  id = refl;
  project_path = refl;
  body = refl;
  priority = refl;
  stage = omega arith;
}

IsLater-trans : (t u v : Task) → IsLater t u → IsLater u v → IsLater t v
IsLater-trans t u v h k = record {
  id = k.id ∙ h.id;
  project_path = k.project_path ∙ h.project_path;
  body = k.body ∙ h.body;
  priority = k.priority ∙ h.priority;
  stage = omega (arith, h.stage, k.stage);
}

-- The table has a later row of the task.
abbrev pub HasLater : Task → List Task → Type 0
HasLater t rows = (t' : Task) × In t' rows × IsLater t t'

update-HasLater :
    (p : Task → Bool) (f : Task → Task) (t : Task) (rows : List Task)
    → ((x : Task) → p x ≡ true → IsLater x (f x))
    → In t rows
    → HasLater t (update p f rows)
update-HasLater p f t [] h i = elim i [ ]
update-HasLater p f t (x ∷ xs) h (inl e) = elim (Bool-cases (p x)) [
  | inl q ↦ rw (q, e) (f x, inl refl, h x q)
  | inr q ↦ rw (q, e) (x, inl refl, IsLater-refl x)
]
update-HasLater p f t (x ∷ xs) h (inr i) =
    let (t', j, l) = update-HasLater p f t xs h i in (t', inr j, l)

append-HasLater : (t u : Task) (rows : List Task) → In t rows → HasLater t (rows ++ u ∷ [])
append-HasLater t u rows i = (t, In-append_left t rows (u ∷ []) i, IsLater-refl t)

ends :
    (t u : Task)
    → u.id ≡ t.id
    → u.project_path ≡ t.project_path
    → u.body ≡ t.body
    → u.priority ≡ t.priority
    → stage u.status ≡ 2
    → IsLater t u
ends t u a b c d e = record {
  id = a;
  project_path = b;
  body = c;
  priority = d;
  stage = ground arith;
}

perform-HasLater : (c : Call) (t : Task) (s : Tasks) → In t s.rows → HasLater t (perform c s).rows
unfolding perform Queue.enqueue Queue.enqueue_routed Queue.claim_next Queue.mark_done Queue.cancel
    Queue.mark_failed Queue.set_pid Queue.set_branch Queue.set_output Queue.drain_pending append_row
perform-HasLater (enqueue now path body pr retry plan o token branch mut) t s i =
    append-HasLater t _ s.rows i
perform-HasLater (enqueue_routed now path body o) t s i = append-HasLater t _ s.rows i
perform-HasLater (claim_next now path) t s i =
    update-HasLater (claimable path s) (started now) t s.rows
      (λ x q. record {
        id = refl;
        project_path = refl;
        body = refl;
        priority = refl;
        stage = ground arith;
      })
      i
perform-HasLater (mark_done now n) t s i =
    update-HasLater (has_id n) (done_at now) t s.rows
      (λ x q. ends x (done_at now x) refl refl refl refl refl) i
perform-HasLater (cancel now n) t s i =
    update-HasLater (has_id n) (cancelled_at now) t s.rows
      (λ x q. ends x (cancelled_at now x) refl refl refl refl refl) i
perform-HasLater (mark_failed now n error) t s i =
    update-HasLater (has_id n) (failed_at now error) t s.rows
      (λ x q. ends x (failed_at now error x) refl refl refl refl refl) i
perform-HasLater (set_pid n pid) t s i =
    update-HasLater (has_id n) _ t s.rows
      (λ x q. record {
        id = refl;
        project_path = refl;
        body = refl;
        priority = refl;
        stage = omega arith;
      })
      i
perform-HasLater (set_branch n branch) t s i =
    update-HasLater (has_id n) _ t s.rows
      (λ x q. record {
        id = refl;
        project_path = refl;
        body = refl;
        priority = refl;
        stage = omega arith;
      })
      i
perform-HasLater (set_output n output) t s i =
    update-HasLater (has_id n) _ t s.rows
      (λ x q. record {
        id = refl;
        project_path = refl;
        body = refl;
        priority = refl;
        stage = omega arith;
      })
      i
perform-HasLater (drain_pending now path) t s i =
    update-HasLater (pending_in path) (cancelled_at now) t s.rows
      (λ x q. ends x (cancelled_at now x) refl refl refl refl refl) i

Step-HasLater : {s s' : Tasks} → Step s s' → (t : Task) → In t s.rows → HasLater t s'.rows
Step-HasLater (call c s) t i = perform-HasLater c t s i

-- Whatever calls the processes make, in whatever order, a task that is in the table stays there,
-- with its project, body and priority, and only goes forward: one that runs never waits again, and
-- one that has ended never waits or runs again.
pub Reach-HasLater : {s s' : Tasks} → Reach s s' → (t : Task) → In t s.rows → HasLater t s'.rows
Reach-HasLater here t i = (t, i, IsLater-refl t)
Reach-HasLater (next r step) t i =
    let (u, j, l) = Reach-HasLater r t i in
    let (v, k, m) = Step-HasLater step u j in (v, k, IsLater-trans t u v l m)

not_running : (t : Task) → is_running t ≡ true → is_running t ≡ false → ⊥
not_running t h e = true≢false (sym h ∙ e)

of_running :
    (s : TaskStatus) (t : Task) → t.status ≡ s → is_running t ≡ true → s ≡ TaskStatus.running
of_running TaskStatus.pending t e h = elim (not_running t h (rw (e) refl)) [ ]
of_running TaskStatus.done t e h = elim (not_running t h (rw (e) refl)) [ ]
of_running TaskStatus.failed t e h = elim (not_running t h (rw (e) refl)) [ ]
of_running TaskStatus.cancelled t e h = elim (not_running t h (rw (e) refl)) [ ]
of_running TaskStatus.routed_via_agent t e h = elim (not_running t h (rw (e) refl)) [ ]
of_running TaskStatus.running t e h = refl

pub running-status : (t : Task) → is_running t ≡ true → t.status ≡ TaskStatus.running
running-status t h = of_running t.status t refl h

ran : (t : Task) → is_running t ≡ true → 1 ≤ stage t.status
ran t h = rw (running-status t h) (omega arith)

past : (s : TaskStatus) (t : Task) → t.status ≡ s → 1 ≤ stage s → is_pending t ≡ false
past TaskStatus.pending t e h = absurd (omega (arith, h))
past TaskStatus.running t e h = rw (e) refl
past TaskStatus.done t e h = rw (e) refl
past TaskStatus.failed t e h = rw (e) refl
past TaskStatus.cancelled t e h = rw (e) refl
past TaskStatus.routed_via_agent t e h = rw (e) refl

-- A task that runs does not wait in any later row.
pub IsLater-not_pending : (t t' : Task) → is_running t ≡ true → IsLater t t' → is_pending t' ≡ false
IsLater-not_pending t t' h l = past t'.status t' refl (omega (arith, ran t h, l.stage))

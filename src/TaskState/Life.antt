-- ===== src/TaskState/Life.antt =====
-- The task state along the life of a task.
use claude_email.Prelude.{
  ℕ, ◌≡◌, ◌≢◌, String, Option, none, some, List, [], ◌∷◌, arith, refl, Bool, true, false, any, In,
  inl, inr, Bool-cases, head?, Option-cases, sym, ◌∙◌, ap, ==_refl,
}
use claude_email.Table.{select, update}
use claude_email.Db.{Task, Tasks}
use claude_email.Queue.{
  get_running, list_pending, running_in, pending_rows, claim_next, latest_task, started, has_id,
}
use claude_email.Queue.Claim.{HasIds, claim_next_starts, pending_rows_first}
use claude_email.TaskState.{working, waiting, task_state_for_project, faded, unless_pending}

any-head? :
    (p : Task → Bool) (xs : List Task)
    → any p xs ≡ true
    → (t : Task) × (head? (select p xs) ≡ some t)
any-head? p [] h = ground arith
any-head? p (x ∷ xs) h = elim (Bool-cases (p x)) [
  | inl e ↦ (x, rw e refl)
  | inr e ↦ let (t, k) = any-head? p xs (ground arith) in (t, rw e k)
]

any-none : (p : Task → Bool) (xs : List Task) → any p xs ≡ false → head? (select p xs) ≡ none
any-none p [] h = refl
any-none p (x ∷ xs) h = ground (arith, any-none p xs)

state_running :
    (now fade : ℕ) (path : String) (s : Tasks)
    → any (running_in path) s.rows ≡ true
    → task_state_for_project now fade path s ≡ some working
unfolding task_state_for_project get_running
state_running now fade path s h =
    let (t, e) = any-head? (running_in path) s.rows h in rw (e, task_state_for_project) refl

some_working : some working ≢ some waiting
some_working e = ground arith

empty-head? : (xs : List Task) → head? xs ≡ none → xs ≡ []
empty-head? [] h = refl
empty-head? (x ∷ xs) h = cc

-- With nothing running and nothing pending, the state is that of the latest task.
state_faded :
    (now fade : ℕ) (path : String) (s : Tasks)
    → any (running_in path) s.rows ≡ false
    → head? (pending_rows path s) ≡ none
    → task_state_for_project now fade path s ≡ faded now fade (latest_task path s)
unfolding task_state_for_project get_running list_pending unless_pending
state_faded now fade path s h k =
    rw
      (
        any-none (running_in path) s.rows h,
        empty-head? (pending_rows path s) k,
        task_state_for_project,
      )
      refl

any-update :
    (p q : Task → Bool) (f : Task → Task) (c : Task) (xs : List Task)
    → In c xs
    → p c ≡ true
    → q (f c) ≡ true
    → any q (update p f xs) ≡ true
any-update p q f c [] m h k = elim m [ ]
any-update p q f c (x ∷ xs) (inl e) h k =
    let w : p x ≡ true = ap p (sym e) ∙ h in rw (w, ap f (sym e), k) refl
any-update p q f c (x ∷ xs) (inr m) h k = let ih = any-update p q f c xs m h k in ground arith

faded≢waiting : (now fade : ℕ) (o : Option Task) → faded now fade o ≢ some waiting
unfolding faded
faded≢waiting now fade o h = ground arith

state_waiting :
    (now fade : ℕ) (path : String) (s : Tasks)
    → task_state_for_project now fade path s ≡ some waiting
    → (any (running_in path) s.rows ≡ false) × (c : Task) × (head? (pending_rows path s) ≡ some c)
unfolding list_pending
state_waiting now fade path s h = elim (Bool-cases (any (running_in path) s.rows)) [
  | inl busy ↦ let q = state_running now fade path s busy in absurd (some_working (sym q ∙ h))
  | inr idle ↦ elim (Option-cases (head? (pending_rows path s))) [
    | inl e ↦
        absurd (
          faded≢waiting now fade (latest_task path s)
            (sym (state_faded now fade path s idle e) ∙ h))
    | inr (c, k) ↦ (idle, c, k)
  ]
]

-- In the state `waiting` a claim returns a task, and the state is then `working`.
pub task_state-claim :
    (now later fade : ℕ) (path : String) (s : Tasks)
    → HasIds s
    → task_state_for_project now fade path s ≡ some waiting
    → let (claimed, s') = claim_next now path s in
      (claimed ≢ none) × (task_state_for_project later fade path s' ≡ some working)
task_state-claim now later fade path s ids h =
    let (idle, c, first) = state_waiting now fade path s h in
    let (i, p, _) = pending_rows_first path s c first in
    let e = claim_next_starts now path s c ids idle first in
    let runs : running_in path (started now c) ≡ true = ground arith in
    rw e (
      λ q. ground arith,
      state_running later fade path (record s { rows = update (has_id c.id) (started now) s.rows })
          (any-update (has_id c.id) (running_in path) (started now) c s.rows i (==_refl c.id) runs),
    )

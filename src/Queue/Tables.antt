-- ===== src/Queue/Tables.antt =====
-- What each method of the queue leaves and what the readers then return.
use claude_email.Prelude.{
  ℕ, ◌+◌, ◌≡◌, ◌≢◌, Bool, true, Option, none, some, [], ◌∷◌, ◌++◌, arith, refl, sym, In,
  In-append_last, String, eq_iff, eq_refl, length, ℤ, or_none,
}
use claude_email.Table.{
  select, select-update_none, select-update_ne, In-select, select-In, length-select,
}
use claude_email.Table.Order.{IsOrdered, In-order_by, order_by-In, order_by-IsOrdered}
use claude_email.Db.{Task, Tasks}
use claude_email.Queue
use claude_email.Queue.{
  row_id, has_id, pending_in, running_in, is_pending, pending_rows, public_row, precedes, Origin,
  cancelled_at, new_task,
}
use claude_email.Table.Ids.{Ascending-append, select-has_id}
use claude_email.Queue.Order.{precedes_total, precedes_trans}
use claude_email.Queue.Claim.{HasIds}

-- The rows that `list_pending` returns stand in the order of dispatch: each precedes all that
-- follow it.
pub pending_rows-IsOrdered : (path : String) (s : Tasks) → IsOrdered precedes (pending_rows path s)
unfolding pending_rows
pending_rows-IsOrdered path s =
    order_by-IsOrdered precedes precedes_total precedes_trans (select (pending_in path) s.rows)

pub pending_rows_iff :
    (path : String) (s : Tasks) (t : Task)
    → (In t (pending_rows path s) → In t s.rows × (pending_in path t ≡ true))
      × (In t s.rows → pending_in path t ≡ true → In t (pending_rows path s))
unfolding pending_rows
pending_rows_iff path s t = (
  λ m.
      In-select (pending_in path) t s.rows
        (In-order_by precedes t (select (pending_in path) s.rows) m),
  λ m e.
      order_by-In precedes t (select (pending_in path) s.rows)
        (select-In (pending_in path) t s.rows m e),
)

-- A drain leaves its project with no pending row, leaves the pending rows of every other project
-- and the running rows of every project, and returns how many rows were pending.
pub drain_pending_lem :
    (now : ℕ) (path : String) (s : Tasks)
    → let (n, s') = Queue.drain_pending now path s in
      (Queue.list_pending path s' ≡ [])
      × ((q : String) → q ≢ path → Queue.list_pending q s' ≡ Queue.list_pending q s)
      × ((q : String) → Queue.get_running q s' ≡ Queue.get_running q s)
      × (n ≡ length (select (pending_in path) s.rows))
unfolding Queue.drain_pending Queue.list_pending Queue.get_running pending_rows
drain_pending_lem now path s = (
  rw (select-update_none (pending_in path) (cancelled_at now) s.rows (λ t. ground arith)),
  λ q h. rw (
      select-update_ne (pending_in q) (pending_in path) (cancelled_at now) s.rows (λ t e.
        (ground (arith, eq_iff t.project_path path, eq_iff t.project_path q), ground arith))),
  λ q. rw (
      select-update_ne (running_in q) (pending_in path) (cancelled_at now) s.rows
        (λ t e. (ground arith, ground arith))),
  sym (length-select (pending_in path) s.rows),
)

-- After `enqueue` the table has one more row `u`, at its end. The id that is returned is that of
-- `u`, and `get` finds `u` under it, without its token. It is pending and not started, and holds
-- the project, body, priority, parent, branch and classification given.
pub get-enqueue :
    (now : ℕ) (path body : String) (pr : ℤ) (retry : Option ℕ) (plan : Bool) (o : Origin)
    (token branch : String) (mut : Option Bool) (s : Tasks)
    → HasIds s
    → let (n, s') = Queue.enqueue now path body pr retry plan o token branch mut s in
      (u : Task) × (s'.rows ≡ s.rows ++ u ∷ [])
      × (u.id ≡ n)
      × (Queue.get n s' ≡ some (public_row u))
      × (pending_in path u ≡ true)
      × (u.body ≡ body)
      × (u.priority ≡ pr)
      × (u.retry_of ≡ retry)
      × (u.branch_name ≡ or_none branch)
      × (u.mutates_repo ≡ mut)
      × (u.started_at ≡ none)
      × (u.pid ≡ none)
unfolding Queue.enqueue Queue.get
get-enqueue now path body pr retry plan o token branch mut s ids =
    let u = new_task s.next_id now path body pr retry plan o token branch mut in
    (
      u,
      refl,
      refl,
      rw (
          select-has_id row_id 0 (s.rows ++ u ∷ []) (s.next_id + 1) u
            (Ascending-append row_id 0 s.rows s.next_id u ids refl) (In-append_last u s.rows)),
      rw (eq_refl path),
      refl,
      refl,
      refl,
      refl,
      refl,
      refl,
      refl,
    )

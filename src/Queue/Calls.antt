-- ===== src/Queue/Calls.antt =====
-- Every call that writes the `tasks` table, and what holds after any sequence of them.
use claude_email.Prelude.{ℕ, ◌≤◌, ◌≡◌, Bool, true, Option, List, [], ◌∷◌, arith, refl, String, ℤ}
use claude_email.Table.{count_by}
use claude_email.Db.{Tasks, empty_tasks}
use claude_email.Queue
use claude_email.Queue.{has_id, pending_in, running_in, Origin}
use claude_email.Queue.Invariant.{IsValid, update-IsValid, append-IsValid, claim_next-IsValid}

-- The calls of any of the processes that share the database, with the clock's value.
pub data Call : Type 0 where
  enqueue :
      ℕ → String → String → ℤ → Option ℕ → Bool → Origin → String → String → Option Bool → Call
  enqueue_routed : ℕ → String → String → Origin → Call
  claim_next : ℕ → String → Call
  mark_done : ℕ → ℕ → Call
  cancel : ℕ → ℕ → Call
  mark_failed : ℕ → ℕ → String → Call
  set_pid : ℕ → ℤ → Call
  set_branch : ℕ → String → Call
  set_output : ℕ → String → Call
  drain_pending : ℕ → String → Call

unfoldable pub perform : Call → Tasks → Tasks
perform (enqueue now path body pr retry plan o token branch mut) s =
    (Queue.enqueue now path body pr retry plan o token branch mut s).1
perform (enqueue_routed now path body o) s = (Queue.enqueue_routed now path body o s).1
perform (claim_next now path) s = (Queue.claim_next now path s).1
perform (mark_done now n) s = Queue.mark_done now n s
perform (cancel now n) s = Queue.cancel now n s
perform (mark_failed now n error) s = Queue.mark_failed now n error s
perform (set_pid n pid) s = Queue.set_pid n pid s
perform (set_branch n branch) s = Queue.set_branch n branch s
perform (set_output n output) s = Queue.set_output n output s
perform (drain_pending now path) s = (Queue.drain_pending now path s).1

unfoldable pub perform_all : List Call → Tasks → Tasks
perform_all [] s = s
perform_all (c ∷ cs) s = perform_all cs (perform c s)

never : {P : Type 0} (b : Bool) → (b ≡ true → ⊥) → b ≡ true → P
never b h e = absurd (h e)

pub perform-IsValid : (c : Call) (s : Tasks) → IsValid s → IsValid (perform c s)
unfolding perform Queue.enqueue Queue.enqueue_routed Queue.mark_done Queue.cancel Queue.mark_failed
    Queue.set_pid Queue.set_branch Queue.set_output Queue.drain_pending
perform-IsValid (enqueue now path body pr retry plan o token branch mut) s v =
    append-IsValid _ s refl refl v
perform-IsValid (enqueue_routed now path body o) s v = append-IsValid _ s refl refl v
perform-IsValid (claim_next now path) s v = claim_next-IsValid now path s v
perform-IsValid (mark_done now n) s v =
    update-IsValid (has_id n) _ s (λ t. refl) (λ q t e. ground arith) v
perform-IsValid (cancel now n) s v =
    update-IsValid (has_id n) _ s (λ t. refl) (λ q t e. ground arith) v
perform-IsValid (mark_failed now n error) s v =
    update-IsValid (has_id n) _ s (λ t. refl) (λ q t e. ground arith) v
perform-IsValid (set_pid n pid) s v = update-IsValid (has_id n) _ s (λ t. refl) (λ q t e. e) v
perform-IsValid (set_branch n branch) s v = update-IsValid (has_id n) _ s (λ t. refl) (λ q t e. e) v
perform-IsValid (set_output n output) s v = update-IsValid (has_id n) _ s (λ t. refl) (λ q t e. e) v
perform-IsValid (drain_pending now path) s v =
    update-IsValid (pending_in path) _ s (λ t. refl) (λ q t e. ground arith) v

pub perform_all-IsValid : (cs : List Call) (s : Tasks) → IsValid s → IsValid (perform_all cs s)
unfolding perform_all
perform_all-IsValid [] s v = v
perform_all-IsValid (c ∷ cs) s v = perform_all-IsValid cs (perform c s) (perform-IsValid c s v)

pub empty_tasks-IsValid : IsValid empty_tasks
empty_tasks-IsValid = record { ids = omega arith; one_running = λ path. omega arith }

-- After any calls of the queue's methods, by any callers and in any order, from an empty table,
-- at most one task of each project has the status `running`.
pub perform_all_one_running :
    (cs : List Call) (path : String)
    → count_by (running_in path) (perform_all cs empty_tasks).rows ≤ 1
perform_all_one_running cs path =
    (perform_all-IsValid cs empty_tasks empty_tasks-IsValid).one_running path

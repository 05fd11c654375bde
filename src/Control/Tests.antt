-- ===== src/Control/Tests.antt =====
-- Tokens and a cancellation at concrete stores.
use mathlib.Core.Option
use claude_email.Prelude.{◌≡◌, true, false, none, some, List, [], ◌∷◌, refl, pos}
use claude_email.Db.{Tasks, empty_tasks}
use claude_email.Queue.{no_origin, get_running, public_row}
use claude_email.Queue.Calls.{
  Call, enqueue, claim_next, mark_failed, perform, perform_all, perform_all-IsValid,
  empty_tasks-IsValid,
}
use claude_email.Control.{
  Token, Stop, delivered, cancel_running_task, stop_process, sigterm, sigkill,
}
use claude_email.Control.Cancel.{IsCancelled, waited, cancel_running_task_lem}
use claude_email.Effect.{ok}
use claude_email.Queue
use claude_email.Queue.History.{here, next, call}

abbrev store : List Token
store = record { token = "t1"; project = "/p"; expires_at = 300 } ∷ []

-- While the process is stopped, the worker fails its task and claims the next one.
abbrev stop : Stop
stop = record {
  sigterm = delivered;
  exited = false;
  sigkill = delivered;
  meanwhile = λ s. perform (claim_next 8 "/p") (perform (mark_failed 7 1 "terminated") s);
}

-- A process that ignores SIGTERM is killed.
stubborn : stop_process stop (some (pos 77)) ≡ ok (sigterm (pos 77) ∷ sigkill (pos 77) ∷ [])
unfolding stop_process
stubborn = refl

abbrev calls : List Call
calls =
    enqueue 1 "/p" "fix it" (pos 0) none true no_origin "" "" none
    ∷ enqueue 2 "/p" "then this" (pos 0) none true no_origin "" "" none
    ∷ claim_next 3 "/p"
    ∷ []

abbrev busy : Tasks
busy = perform_all calls empty_tasks

-- The task that is claimed in the meantime runs on, even with `drain_queue`.
runs_on :
    Option.map (λ t. t.id) (get_running "/p" (cancel_running_task stop 9 "/p" true busy).1) ≡ some 2
unfolding cancel_running_task stop_process get_running public_row perform_all perform Queue.enqueue
    Queue.claim_next Queue.mark_failed Queue.cancel Queue.drain_pending Queue.pending_rows
    Queue.precedes
runs_on = refl

cancel_running_task_lem_example :
    IsCancelled stop "/p" true
      (get_running "/p" busy)
      (waited stop (get_running "/p" busy) busy)
      (cancel_running_task stop 9 "/p" true busy)
cancel_running_task_lem_example =
    cancel_running_task_lem stop 9 "/p" true busy
      (perform_all-IsValid calls empty_tasks empty_tasks-IsValid)
      (next (next here (call (mark_failed 7 1 "terminated") busy)) (call (claim_next 8 "/p") _))

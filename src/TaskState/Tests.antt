-- ===== src/TaskState/Tests.antt =====
-- The task state at a concrete queue.
use claude_email.Prelude.{none, some, [], ◌∷◌, pos, true, ◌≡◌, refl}
use claude_email.Db.{Tasks, empty_tasks}
use claude_email.Queue.{
  new_task, no_origin, get_running, list_pending, latest_task, claim_next, pending_rows,
}
use claude_email.TaskState.{waiting, working, task_state_for_project}

abbrev one_row : Tasks
one_row = record {
  rows = new_task 1 1 "/p" "fix it" (pos 0) none true no_origin "" "" none ∷ [];
  next_id = 2;
}

waits : task_state_for_project 5 60 "/p" one_row ≡ some waiting
unfolding task_state_for_project get_running list_pending latest_task pending_rows
waits = refl

works : task_state_for_project 5 60 "/p" (claim_next 3 "/p" one_row).1 ≡ some working
unfolding task_state_for_project get_running list_pending latest_task pending_rows claim_next
works = refl

idle : task_state_for_project 5 60 "/p" empty_tasks ≡ none
unfolding task_state_for_project get_running list_pending latest_task pending_rows
idle = refl

-- ===== src/Mutations/Tests.antt =====
-- A reset that is requested and confirmed in time, and a token that is used twice.
use claude_email.Prelude.{String, List, ℤ, none, ◌∷◌, ◌≡◌, true, [], refl, pos}
use claude_email.Db.{Tasks}
use claude_email.Tools.{found, resolve_project}
use claude_email.Kinds.Tests.{paths}
use claude_email.Control.{
  Stop, delivered, issue, consume, perform_reset, reset_tree, clean, cancel_running_task,
}
use claude_email.Queue.{new_task, no_origin, get_running, public_row}
use claude_email.Mutations.{reset_project_tool, confirm_reset_tool}
use claude_email.Mutations.Confirm.{confirm_reset_tool_twice}

abbrev tasks : Tasks
tasks = record {
  rows = new_task 1 1 "/base/p" "fix it" (pos 0) none true no_origin "" "" none ∷ [];
  next_id = 2;
}

-- `git` succeeds, and is written down with its directory
abbrev run_git : String → List String → List String → (ℤ × String) × List String
run_git path args w = ((pos 0, ""), path ∷ w)

abbrev stop : Stop
stop = record { sigterm = delivered; exited = true; sigkill = delivered; meanwhile = λ s. s }

resolved : resolve_project paths "/base/p" "/base" ≡ found "/base/p"
unfolding resolve_project
resolved = refl

-- The waiting task is dropped, and git runs twice.
confirmed :
    (confirm_reset_tool paths run_git stop 200 5 "/base/p" "t1" "/base"
      ((tasks, []), (reset_project_tool paths 10 300 "t1" "/base/p" "/base" []).1)).1.0.1
    ≡ "/base/p" ∷ "/base/p" ∷ []
unfolding confirm_reset_tool reset_project_tool resolve_project issue consume perform_reset
    reset_tree clean cancel_running_task get_running public_row
confirmed = refl

used_twice :
    (confirm_reset_tool paths run_git stop 210 6 "/base/p" "t1" "/base" (
      (tasks, []),
      (confirm_reset_tool paths run_git stop 200 5 "/base/p" "t1" "/base"
          ((tasks, []), (reset_project_tool paths 10 300 "t1" "/base/p" "/base" []).1)).1.1,
    )).1.0
    ≡ (tasks, [])
used_twice =
    confirm_reset_tool_twice paths run_git stop "/base" "t1" 200 5 210 6 "/base/p" "/base/p"
      "/base/p" (tasks, []) (tasks, [])
      (reset_project_tool paths 10 300 "t1" "/base/p" "/base" []).1 resolved

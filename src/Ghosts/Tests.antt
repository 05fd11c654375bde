-- ===== src/Ghosts/Tests.antt =====
-- The sweep at a concrete queue.
use claude_email.Prelude.{◌≡◌, ◌↔◌, none, some, [], ◌∷◌, pos, true, false, arith, ℤ, Bool}
use claude_email.Table.{update}
use claude_email.Db.{Task, Tasks, TaskStatus}
use claude_email.Queue.{new_task, no_origin}
use claude_email.Ghosts.{sweep_ghosts}
use claude_email.Ghosts.Sweep.{is_gone, IsGone, fail, sweep_ghosts_lem}

abbrev nobody_alive : ℤ → Bool
nobody_alive p = false

abbrev stray : Task
stray = record (new_task 1 1 "/p" "fix it" (pos 0) none true no_origin "" "" none) {
  status = TaskStatus.running;
  pid = some (pos 77);
  started_at = some 2;
}

abbrev swept : Tasks
swept = record { rows = stray ∷ []; next_id = 2 }

sweep_ghosts_lem_example :
    ((sweep_ghosts nobody_alive 9 swept).1
      ≡ record swept { rows = update (is_gone nobody_alive 9) (fail nobody_alive 9) swept.rows })
    × ((t : Task) → (is_gone nobody_alive 9 t ≡ true) ↔ IsGone nobody_alive 9 t)
sweep_ghosts_lem_example = sweep_ghosts_lem nobody_alive 9 swept (omega arith, omega arith)

-- ===== src/Ghosts.antt =====
-- src/ghost_reaper.py. `alive` gives the answers of `is_alive`. The rows that are returned are
-- those that go to `log_task_finished` and `notify_task_done`, in that order.
pub mod Sweep
mod Tests
use mathlib.Core.Option
use claude_email.Prelude.{
  ℕ, suc, ◌+◌, ◌-◌, ◌*◌, ◌/◌, String, Bool, true, false, not, Option, none, some, List, [], ◌∷◌, ℤ,
  pos, negsuc, leb, ltb, if◌then◌else◌, ◌<+>◌, show_ℕ, show_ℤ, zero,
}
use claude_email.Db.{Task, Tasks}
use claude_email.Queue.{list_running, mark_failed, get}

abbrev pub stuck_no_pid_grace : ℕ
stuck_no_pid_grace = 120 * 1_000_000

-- `row.get("pid") or 0`, if it is positive
abbrev pub launched : Task → Option ℤ
launched t = elim t.pid [
  | none ↦ none
  | some p ↦ elim p [ pos n ↦ (if ltb 0 n then some (pos n) else none) | negsuc n ↦ none ]
]

-- a claim that never set a pid, and is too old; without a time of start the age is infinite
abbrev pub is_stuck : (now : ℕ) → Task → Bool
is_stuck now t = elim t.started_at [ none ↦ true | some at ↦ leb (at + stuck_no_pid_grace) now ]

abbrev pub is_ghost : (ℤ → Bool) → (now : ℕ) → Task → Bool
is_ghost alive now t = elim (launched t) [ some p ↦ not (alive p) | none ↦ is_stuck now t ]

abbrev pub age_str : (now : ℕ) → Task → String
age_str now t = elim t.started_at [
  | none ↦ "unknown"
  | some at ↦ show_ℕ ((now - at) / 1_000_000) <+> "s"
]

unfoldable pub reason : (now : ℕ) → Task → String
reason now t = elim (launched t) [
  | some p ↦ "worker exited unexpectedly (pid " <+> show_ℤ p <+> " gone); rc unknown"
  | none ↦
      "worker claimed task "
      <+> age_str now t
      <+> " ago but never set_pid — "
      <+> "likely crashed before launching claude (check journalctl)"
]

-- the body of the loop, over the rows of `list_running`
sweep : (ℤ → Bool) → (now : ℕ) → List Task → Tasks → List Task × Tasks
sweep alive now [] queue = ([], queue)
sweep alive now (t ∷ rows) queue =
    let failed = mark_failed now t.id (reason now t) queue in
    let hit = is_ghost alive now t in
    let (reaped, queue') = sweep alive now rows (if hit then failed else queue) in
    (if hit then Option.get_or (get t.id failed) t ∷ reaped else reaped, queue')

unfoldable pub sweep_ghosts : (ℤ → Bool) → (now : ℕ) → Tasks → List Task × Tasks
unfolding sweep
sweep_ghosts alive now queue = sweep alive now (list_running queue) queue

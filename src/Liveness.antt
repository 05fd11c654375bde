-- ===== src/Liveness.antt =====
-- src/process_liveness.py: is a process alive, and is it an ancestor of this one. The kernel is
-- outside the repository: `waitpid`, `kill` and /proc are a record, and the process table that
-- they change is its state.
pub mod Probe
pub mod Ancestry
mod Tests
use claude_email.Prelude.{
  ℕ, zero, suc, String, Bool, true, false, Option, none, some, List, [], ◌∷◌, ℤ, pos, negsuc, ◌==◌,
  leb, str_eq, if◌then◌else◌,
}

-- What `os.waitpid(pid, os.WNOHANG)` does: it reaps the child, finds it running, or raises
-- ChildProcessError.
pub data Waited : Type 0 where
  reaped : Waited
  still_running : Waited
  not_a_child : Waited

pub record Kernel (P : Type 0) : Type 0 where
  pub waitpid : ℕ → P → Waited × P
  -- whether `os.kill(pid, 0)` returns
  pub signal_0 : ℕ → P → Bool

module _ {P : Type 0} (k : Kernel P) where
  after_wait : ℕ → Waited × P → Bool × P
  after_wait n (reaped, p) = (false, p)
  after_wait n (still_running, p) = (k.signal_0 n p, p)
  after_wait n (not_a_child, p) = (k.signal_0 n p, p)

  unfoldable pub is_alive : ℤ → P → Bool × P
  unfolding after_wait
  is_alive (pos zero) p = (false, p)
  is_alive (pos (suc n)) p = after_wait (suc n) (k.waitpid (suc n) p)
  is_alive (negsuc n) p = (false, p)

abbrev pub ppid_walk_max_depth : ℕ
ppid_walk_max_depth = 64

-- `_get_ppid` and `_argv0_basename`, which read /proc, are the arguments.
module _ (get_ppid : ℕ → Option ℕ) where
  -- the loop of `is_ancestor_or_self`, with the rounds that are left
  ancestor_from : ℕ → ℕ → ℕ → Bool
  ancestor_from zero current target = false
  ancestor_from (suc rounds) current target = elim (current == target) [
    | true ↦ true
    | false ↦ elim (get_ppid current) [
      | none ↦ false
      | some parent ↦ elim (leb parent 1) [
        | true ↦ false
        | false ↦ ancestor_from rounds parent target
      ]
    ]
  ]

  -- `self` is `os.getpid()`
  unfoldable pub is_ancestor_or_self : (self : ℕ) → ℤ → Bool
  unfolding ancestor_from
  is_ancestor_or_self self (pos zero) = false
  is_ancestor_or_self self (pos (suc n)) = ancestor_from ppid_walk_max_depth self (suc n)
  is_ancestor_or_self self (negsuc n) = false

  module _ (argv0_basename : ℕ → String) where
    -- the loop of `find_ancestor_pid_matching`
    find_from : ℕ → Option ℕ → String → Option ℕ
    find_from zero pid name = none
    find_from (suc rounds) none name = none
    find_from (suc rounds) (some pid) name = elim (leb pid 1) [
      | true ↦ none
      | false ↦ elim (str_eq (argv0_basename pid) name) [
        | true ↦ some pid
        | false ↦ find_from rounds (get_ppid pid) name
      ]
    ]

    unfoldable pub find_ancestor_pid_matching : (self : ℕ) → String → Option ℕ
    unfolding find_from
    find_ancestor_pid_matching self name = find_from ppid_walk_max_depth (get_ppid self) name

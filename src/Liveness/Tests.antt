-- ===== src/Liveness/Tests.antt =====
-- The probes over a small process table: 9 is a child of 7, 7 of 5 and 5 of init.
use claude_email.Prelude.{
  ℕ, suc, ◌≡◌, ◌<◌, true, false, Option, none, some, pos, negsuc, ◌==◌, if◌then◌else◌,
}
use claude_email.Liveness.{is_ancestor_or_self}
use claude_email.Liveness.Ancestry.{Chain, is_ancestor_or_self_iff}

abbrev ppid : ℕ → Option ℕ
ppid n = if n == 9 then some 7 else if n == 7 then some 5 else if n == 5 then some 1 else none

is_ancestor_or_self_iff_example :
    (is_ancestor_or_self ppid 9 (pos (suc 4)) ≡ true → (n : ℕ) × (n < 64) × Chain ppid n 9 (suc 4))
    × ((n : ℕ) → n < 64 → Chain ppid n 9 (suc 4) → is_ancestor_or_self ppid 9 (pos (suc 4)) ≡ true)
    × (is_ancestor_or_self ppid 9 (pos 0) ≡ false)
    × (is_ancestor_or_self ppid 9 (negsuc 4) ≡ false)
is_ancestor_or_self_iff_example = is_ancestor_or_self_iff ppid 9 4

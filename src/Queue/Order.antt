-- ===== src/Queue/Order.antt =====
-- ORDER BY priority DESC, id ASC: the order of dispatch is a total order.
use claude_email.Prelude.{◌≡◌, ◌≤◌, true, false, arith, ltb_ℤ, eqb_ℤ_iff}
use claude_email.Db.{Task}
use claude_email.Queue.{precedes}

pub precedes_total : (a b : Task) → precedes a b ≡ false → precedes b a ≡ true
unfolding precedes
precedes_total a b h = ground arith

pub precedes_trans :
    (a b c : Task) → precedes a b ≡ true → precedes b c ≡ true → precedes a c ≡ true
unfolding precedes
precedes_trans a b c h k = ground arith

pub precedes_refl : (a : Task) → precedes a a ≡ true
unfolding precedes
precedes_refl a = ground arith

-- A row that precedes another has no lower priority, and with the same priority no higher id.
pub precedes_lem :
    (a b : Task)
    → precedes a b ≡ true
    → (ltb_ℤ a.priority b.priority ≡ false) × (a.priority ≡ b.priority → a.id ≤ b.id)
unfolding precedes
precedes_lem a b h = (ground arith, λ e. ground (arith, eqb_ℤ_iff a.priority b.priority))

-- ===== src/Queue/Tests.antt =====
-- The queue's theorems at concrete tables, and runs of its methods.
use claude_email.Prelude.{
  ltb_ℤ, false, ℕ, ◌≤◌, ◌≡◌, ◌≢◌, true, false, none, some, List, [], ◌∷◌, refl, map, pos, any, In,
  String, arith, inl, inr,
}
use claude_email.Table.{count_by, update}
use claude_email.Db.{TaskStatus, Task, Tasks, empty_tasks}
use claude_email.Queue
use claude_email.Queue.{
  running_in, no_origin, new_task, public_row, precedes, started, has_id, pending_in,
}
use claude_email.Queue.Claim.{HasIds, claim_next_first}
use claude_email.Queue.Refinement.{slot_of, claim_slot, claim_next-claim_slot}
use claude_email.Queue.History.{Reach, here, next, call, HasLater, Reach-HasLater}
use mathlib.Core.Option
use claude_email.Queue.Calls.{
  Call, enqueue, claim_next, perform, perform_all, perform_all_one_running,
}

abbrev ask : ℕ → ℕ → Call
ask now priority = enqueue now "/p" "fix it" (pos priority) none true no_origin "" "" none

abbrev morning : List Call
morning = ask 1 0 ∷ ask 2 5 ∷ ask 3 0 ∷ claim_next 4 "/p" ∷ claim_next 5 "/p" ∷ []

perform_all_one_running_example :
    count_by (running_in "/p") (perform_all morning empty_tasks).rows ≤ 1
perform_all_one_running_example = perform_all_one_running morning "/p"

-- The urgent task was started, and the second claim was held back.
morning_list :
    map (λ t. t.id) (Queue.list_pending "/p" (perform_all morning empty_tasks)) ≡ 1 ∷ 3 ∷ []
unfolding perform_all perform Queue.enqueue Queue.claim_next Queue.list_pending Queue.pending_rows
    Queue.precedes Queue.public_row
morning_list = refl

abbrev row : ℕ → ℕ → Task
row id priority = new_task id 1 "/p" "fix it" (pos priority) none true no_origin "" "" none

abbrev two_rows : Tasks
two_rows = record { rows = row 1 0 ∷ row 2 5 ∷ []; next_id = 3 }

abbrev taken : Task
taken = record (started 9 (row 2 5)) { dispatch_token = none }

two_rows-HasIds : HasIds two_rows
two_rows-HasIds = (omega arith, (omega arith, omega arith))

claim_next_first_example :
    (c : Task) × In c two_rows.rows
    × (pending_in "/p" c ≡ true)
    × ((t : Task)
        → In t two_rows.rows
        → pending_in "/p" t ≡ true
        → (ltb_ℤ c.priority t.priority ≡ false) × (c.priority ≡ t.priority → c.id ≤ t.id))
    × (any (running_in "/p") two_rows.rows ≡ false)
    × (taken ≡ public_row (started 9 c))
    × (taken.status ≡ TaskStatus.running)
    × (taken.started_at ≡ some 9)
    × (taken.dispatch_token ≡ none)
    × ((Queue.claim_next 9 "/p" two_rows).1.rows ≡ update (has_id c.id) (started 9) two_rows.rows)
unfolding Queue.claim_next Queue.pending_rows precedes public_row
claim_next_first_example = claim_next_first 9 "/p" two_rows taken two_rows-HasIds refl

claim_next-claim_slot_example :
    let (r, s') = Queue.claim_next 9 "/p" two_rows in
    ((Option.map (λ t. t.id) r, slot_of "/p" s') ≡ claim_slot (slot_of "/p" two_rows))
    × ((q : String) → q ≢ "/p" → slot_of q s' ≡ slot_of q two_rows)
claim_next-claim_slot_example = claim_next-claim_slot 9 "/p" two_rows two_rows-HasIds

-- The urgent task of two is taken first, and the other one waits.
claimed_slot :
    let (r, s') = Queue.claim_next 9 "/p" two_rows in
    slot_of "/p" s' ≡ record { running = some 2; waiting = 1 ∷ [] }
unfolding Queue.claim_next Queue.pending_rows precedes public_row slot_of
claimed_slot = refl

abbrev two_claims : List Call
two_claims = claim_next 3 "/p" ∷ claim_next 4 "/p" ∷ []

two_claims-Reach : Reach two_rows (perform_all two_claims two_rows)
unfolding perform_all
two_claims-Reach = next (next here (call (claim_next 3 "/p") _)) (call (claim_next 4 "/p") _)

Reach-HasLater_example : HasLater (row 2 5) (perform_all two_claims two_rows).rows
Reach-HasLater_example = Reach-HasLater two_claims-Reach (row 2 5) (inr (inl refl))

-- ===== src/Queue/Refinement.antt =====
-- A project's part of the queue as a slot and a waiting list: what `claim_next` promises its workers.
use mathlib.Core.Option
use claude_email.Prelude.{
  ℕ, suc, ◌≤◌, String, Bool, true, false, ◌&&◌, Option, none, some, List, [], ◌∷◌, ◌≡◌, ◌≢◌, refl,
  sym, ◌∙◌, ap, arith, Bool-cases, inl, inr, In, any, head?, map, ◌==◌, ==_iff, ==_refl, eq_iff,
}
use claude_email.Table.{
  select, update, delete, count_by, order_by, update_cong, select-update_ne, returning_lem,
  returning_cong,
}
use claude_email.Table.Ids.{Ascending-unique, Ascending-select, count_by-has_id, select-has_id}
use claude_email.Table.Removal.{
  delete-order_by, count_by-order_by, delete_none, count_by-&&, select-update-delete,
  select-update_new, select-any, any-select, List-cases,
}
use claude_email.Db.{Task, Tasks}
use claude_email.Queue.{
  row_id, has_id, pending_rows, pending_in, running_in, started, claim_next, precedes, public_row,
}
use claude_email.Queue.Order.{precedes_total, precedes_trans}
use claude_email.Queue.Claim.{HasIds, pending_rows_first, claim_next_blocked, claim_next_starts}

-- The ids of the task that runs and of those that wait, in the order of dispatch.
pub record Slot : Type 0 where
  pub running : Option ℕ
  pub waiting : List ℕ

-- What a project's workers see of the table.
unfoldable pub slot_of : String → Tasks → Slot
unfolding pending_rows
slot_of path s = record {
  running = Option.map row_id (head? (select (running_in path) s.rows));
  waiting = map row_id (pending_rows path s);
}

-- The specification: a free slot takes the first that waits.
unfoldable pub claim_slot : Slot → Option ℕ × Slot
claim_slot slot = elim slot.running [
  | some n ↦ (none, slot)
  | none ↦ elim slot.waiting [
    | [] ↦ (none, slot)
    | n ∷ ns ↦ (some n, record { running = some n; waiting = ns })
  ]
]

-- the row that a claim writes, told by its project as well
abbrev pub chosen : String → Task → Task → Bool
chosen path c t = has_id c.id t && pending_in path t

module _ (now : ℕ) (path : String) (s : Tasks) (c : Task) (rest : List Task) (ids : HasIds s)
    (idle : any (running_in path) s.rows ≡ false) (first : pending_rows path s ≡ c ∷ rest) where
  head : head? (pending_rows path s) ≡ some c
  head = ap head? first

  same_hit : (t : Task) → In t s.rows → has_id c.id t ≡ chosen path c t
  same_hit t m = elim (Bool-cases (t.id == c.id)) [
    | inl e ↦
        let (i, p, _) = pending_rows_first path s c head in
        let q : t ≡ c = Ascending-unique row_id 0 s.rows s.next_id t c ids m i ((==_iff _ _).0 e) in
        let w : pending_in path t ≡ true = ap (pending_in path) q ∙ p in rw (e, w) refl
    | inr e ↦ rw (e) refl
  ]

  chosen_first : chosen path c c ≡ true
  chosen_first = let (i, p, _) = pending_rows_first path s c head in rw (p, ==_refl c.id) refl

  rest_not_chosen : count_by (chosen path c) rest ≡ 0
  unfolding pending_rows
  rest_not_chosen =
      let selected = select (pending_in path) s.rows in
      let one : count_by (has_id c.id) selected ≤ 1 =
        count_by-has_id row_id 0 selected s.next_id c.id
          (Ascending-select row_id 0 s.rows s.next_id (pending_in path) ids) in
      let sorted = count_by-order_by precedes (has_id c.id) selected in
      let here : count_by (has_id c.id) (order_by precedes selected)
          ≡ count_by (has_id c.id) (c ∷ rest) =
        ap (count_by (has_id c.id)) first in
      let less : count_by (chosen path c) (c ∷ rest) ≤ count_by (has_id c.id) (c ∷ rest) =
        count_by-&& (has_id c.id) (pending_in path) (c ∷ rest) in
      let full : count_by (chosen path c) (c ∷ rest) ≡ suc (count_by (chosen path c) rest) =
        rw (chosen_first) refl in
      omega (arith, one, sorted, here, less, full)

  claimed : Tasks
  claimed = record s { rows = update (chosen path c) (started now) s.rows }

  waiting_left : pending_rows path claimed ≡ rest
  unfolding pending_rows claimed
  waiting_left =
      let u = chosen path c in
      let selected = select (pending_in path) s.rows in
      ap (order_by precedes)
        (select-update-delete (pending_in path) u (started now) s.rows (λ t. ground arith))
      ∙ sym (delete-order_by precedes precedes_total precedes_trans u selected)
      ∙ ap (delete u) first
      ∙ rw (chosen_first) (delete_none u rest rest_not_chosen)

  running_now : select (running_in path) claimed.rows ≡ started now c ∷ []
  unfolding claimed
  running_now =
      let u = chosen path c in
      let (i, _, _) = pending_rows_first path s c head in
      select-update_new (running_in path) u (started now) s.rows idle (λ t e. ground arith)
      ∙ sym (returning_cong (has_id c.id) u (started now) s.rows same_hit)
      ∙ returning_lem (has_id c.id) (started now) s.rows
      ∙ ap (map (started now)) (select-has_id row_id 0 s.rows s.next_id c ids i)

  slot_after : slot_of path claimed ≡ record { running = some c.id; waiting = map row_id rest }
  unfolding slot_of
  slot_after = rw (waiting_left, running_now) refl

  other_slot : (q : String) → q ≢ path → slot_of q claimed ≡ slot_of q s
  unfolding slot_of pending_rows claimed
  other_slot q n =
      let u = chosen path c in
      rw
        (
          select-update_ne (pending_in q) u (started now) s.rows (λ t e.
              (ground (arith, eq_iff t.project_path path, eq_iff t.project_path q), ground arith)),
          select-update_ne (running_in q) u (started now) s.rows (λ t e.
              (ground arith, ground (arith, eq_iff t.project_path path, eq_iff t.project_path q))),
        )
        refl

  claim_first : claim_next now path s ≡ (some (public_row (started now c)), claimed)
  unfolding claimed
  claim_first =
      claim_next_starts now path s c ids idle head
      ∙ ap (λ rows. (some (public_row (started now c)), record s { rows = rows }))
          (update_cong (has_id c.id) (chosen path c) (started now) s.rows same_hit)

public_row_id : (t : Task) → (public_row t).id ≡ t.id
unfolding public_row
public_row_id t = refl

slot_before :
    (path : String) (s : Tasks) (ts : List Task)
    → any (running_in path) s.rows ≡ false
    → pending_rows path s ≡ ts
    → slot_of path s ≡ record { running = none; waiting = map row_id ts }
unfolding slot_of
slot_before path s ts idle e = rw (select-any (running_in path) s.rows idle, e) refl

busy_slot :
    (path : String) (s : Tasks) (t : Task)
    → head? (select (running_in path) s.rows) ≡ some t
    → claim_slot (slot_of path s) ≡ (none, slot_of path s)
unfolding claim_slot slot_of
busy_slot path s t e = rw (e) refl

-- In a table with ascending ids, a claim does to its project what the specification does to a slot
-- and a waiting list: a busy slot or an empty list is left as it is, and a free slot takes the first
-- that waits, whose row the claim returns. No other project's slot or list is changed.
pub claim_next-claim_slot :
    (now : ℕ) (path : String) (s : Tasks)
    → HasIds s
    → let (r, s') = claim_next now path s in
      ((Option.map row_id r, slot_of path s') ≡ claim_slot (slot_of path s))
      × ((q : String) → q ≢ path → slot_of q s' ≡ slot_of q s)
unfolding claim_slot
claim_next-claim_slot now path s ids = elim (Bool-cases (any (running_in path) s.rows)) [
  | inl busy ↦
      let (t, e) = any-select (running_in path) s.rows busy in
      rw (claim_next_blocked now path s (inl busy)) (sym (busy_slot path s t e), λ q n. refl)
  | inr idle ↦ elim (List-cases (pending_rows path s)) [
    | inl e ↦
        rw (claim_next_blocked now path s (inr (ap head? e)))
          (rw (slot_before path s [] idle e) refl, λ q n. refl)
    | inr (c, rest, e) ↦ rw (claim_first now path s c rest ids idle e) (
      rw
          (
            slot_after now path s c rest ids idle e,
            slot_before path s (c ∷ rest) idle e,
            public_row_id (started now c),
          )
          refl,
      λ q n. other_slot now path s c rest ids idle e q n,
    )
  ]
]

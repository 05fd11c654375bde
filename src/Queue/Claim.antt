-- ===== src/Queue/Claim.antt =====
-- What a claim does: it starts the first pending row of the project, if none is running.
use claude_email.Prelude.{
  refl, ltb_ℤ, ◌≤◌, ℕ, ◌≡◌, ◌≢◌, inl, inr, true, false, none, some, List, [], ◌∷◌, arith, sym, ◌∙◌,
  ap, In, any, ◌==◌, String, Bool-cases, Option-cases, All-In, head?, ==_iff, ◌⊎◌,
}
use claude_email.Table.{
  update_cong, select_cong_none, returning_cong, update, select, returning_lem, In-select,
  select-In,
}
use claude_email.Table.Order.{In-order_by, order_by-In, order_by-IsOrdered, IsOrdered}
use claude_email.Db.{Task, Tasks, TaskStatus}
use claude_email.Queue.{
  row_id, has_id, pending_rows, pending_in, running_in, is_pending, claimable, started, claim_next,
  public_row, precedes,
}
use claude_email.Table.Ids.{Ascending, Ascending-unique, select-has_id}
use claude_email.Queue.Order.{precedes_total, precedes_trans, precedes_refl, precedes_lem}

abbrev pub HasIds : Tasks → Type 0
HasIds s = Ascending row_id 0 s.rows s.next_id

pub head?-In : {A : Type 0} (xs : List A) (x : A) → head? xs ≡ some x → In x xs
head?-In [] x h = cc
head?-In (y ∷ ys) x h = inl (ground arith)

ordered_head :
    (xs : List Task) (c t : Task)
    → IsOrdered precedes xs
    → head? xs ≡ some c
    → In t xs
    → precedes c t ≡ true
ordered_head [] c t o h m = elim m [ ]
ordered_head (x ∷ xs) c t o h (inl e) =
    let q : x ≡ c = ground arith in rw (← q, e) (precedes_refl x)
ordered_head (x ∷ xs) c t o h (inr m) =
    let q : x ≡ c = ground arith in rw (← q) (All-In (λ y. precedes x y ≡ true) t xs o.0 m)

-- The first of the pending rows stands in the table, is pending for the project, and no pending
-- row of the project precedes it.
pub pending_rows_first :
    (path : String) (s : Tasks) (c : Task)
    → head? (pending_rows path s) ≡ some c
    → In c s.rows
      × (pending_in path c ≡ true)
      × ((t : Task) → In t s.rows → pending_in path t ≡ true → precedes c t ≡ true)
unfolding pending_rows
pending_rows_first path s c h =
    let m = In-order_by precedes c (select (pending_in path) s.rows) (head?-In _ c h) in
    let (i, p) = In-select (pending_in path) c s.rows m in
    (
      i,
      p,
      λ t k e.
          ordered_head (pending_rows path s) c t
            (unfold pending_rows in
              order_by-IsOrdered precedes precedes_total precedes_trans
                (select (pending_in path) s.rows))
            h (order_by-In precedes t _ (select-In (pending_in path) t s.rows k e)),
    )

some_inj : (a b : Task) → some a ≡ some b → a ≡ b
some_inj a b e = cc

none≢some : (r : Task) → none ≢ some r
none≢some r e = cc

-- While a task of the project runs, or with none pending, a claim returns None and writes nothing.
pub claim_next_blocked :
    (now : ℕ) (path : String) (s : Tasks)
    → (any (running_in path) s.rows ≡ true) ⊎ (head? (pending_rows path s) ≡ none)
    → claim_next now path s ≡ (none, s)
unfolding claim_next
claim_next_blocked now path s h =
    let idle : (t : Task) → In t s.rows → claimable path s t ≡ false = λ t m. ground arith in
    let (u, r) = select_cong_none (claimable path s) (started now) s.rows idle in rw (u, r)

claimable_iff :
    (path : String) (s : Tasks) (c t : Task)
    → HasIds s
    → any (running_in path) s.rows ≡ false
    → head? (pending_rows path s) ≡ some c
    → In t s.rows
    → claimable path s t ≡ has_id c.id t
claimable_iff path s c t ids idle h m =
    let (i, p, _) = pending_rows_first path s c h in
    let pend : is_pending c ≡ true = ground arith in
    elim (Bool-cases (t.id == c.id)) [
      | inl e ↦
          let q : t ≡ c =
            Ascending-unique row_id 0 s.rows s.next_id t c ids m i ((==_iff _ _).0 e) in
          let w : is_pending t ≡ true = ap is_pending q ∙ pend in rw (idle, h, w, e)
      | inr e ↦ rw (idle, h, e)
    ]

-- With no task of the project running and `c` the first of the pending ones, a claim starts `c`:
-- it returns the row as started, without its token, and writes that row alone.
pub claim_next_starts :
    (now : ℕ) (path : String) (s : Tasks) (c : Task)
    → HasIds s
    → any (running_in path) s.rows ≡ false
    → head? (pending_rows path s) ≡ some c
    → claim_next now path s ≡ (
      some (public_row (started now c)),
      record s { rows = update (has_id c.id) (started now) s.rows },
    )
unfolding claim_next
claim_next_starts now path s c ids idle h =
    let hit : (t : Task) → In t s.rows → claimable path s t ≡ has_id c.id t =
      λ t m. claimable_iff path s c t ids idle h m in
    let (i, _, _) = pending_rows_first path s c h in
    rw (
      update_cong (claimable path s) (has_id c.id) (started now) s.rows hit,
      returning_cong (claimable path s) (has_id c.id) (started now) s.rows hit,
      returning_lem (has_id c.id) (started now) s.rows,
      select-has_id row_id 0 s.rows s.next_id c ids i,
    )

public_row_token : (t : Task) → (public_row t).dispatch_token ≡ none
unfolding public_row
public_row_token t = refl

public_row_status :
    (t : Task) → ((public_row t).status ≡ t.status) × ((public_row t).started_at ≡ t.started_at)
unfolding public_row
public_row_status t = (refl, refl)

-- In a table with ascending ids, a claim that returns a row returns a pending row of its project as
-- running, with the time of start and without its token; no pending row of the project has a higher
-- priority, nor the same priority and a lower id; no task of the project was running; and the table
-- changes in that row alone.
pub claim_next_first :
    (now : ℕ) (path : String) (s : Tasks) (r : Task)
    → HasIds s
    → (claim_next now path s).0 ≡ some r
    → (c : Task) × In c s.rows
      × (pending_in path c ≡ true)
      × ((t : Task)
          → In t s.rows
          → pending_in path t ≡ true
          → (ltb_ℤ c.priority t.priority ≡ false) × (c.priority ≡ t.priority → c.id ≤ t.id))
      × (any (running_in path) s.rows ≡ false)
      × (r ≡ public_row (started now c))
      × (r.status ≡ TaskStatus.running)
      × (r.started_at ≡ some now)
      × (r.dispatch_token ≡ none)
      × ((claim_next now path s).1.rows ≡ update (has_id c.id) (started now) s.rows)
claim_next_first now path s r ids h = elim (Bool-cases (any (running_in path) s.rows)) [
  | inl busy ↦
      let e = claim_next_blocked now path s (inl busy) in
      absurd (none≢some r (sym (ap (λ x. x.0) e) ∙ h))
  | inr idle ↦ elim (Option-cases (head? (pending_rows path s))) [
    | inl empty ↦
        let e = claim_next_blocked now path s (inr empty) in
        absurd (none≢some r (sym (ap (λ x. x.0) e) ∙ h))
    | inr (c, first) ↦
        let e = claim_next_starts now path s c ids idle first in
        let (i, p, o) = pending_rows_first path s c first in
        let q = some_inj r _ (sym h ∙ ap (λ x. x.0) e) in
        (
          c,
          i,
          p,
          λ t m k. precedes_lem c t (o t m k),
          idle,
          q,
          ap (λ x. x.status) q ∙ (public_row_status (started now c)).0,
          ap (λ x. x.started_at) q ∙ (public_row_status (started now c)).1,
          ap (λ x. x.dispatch_token) q ∙ public_row_token (started now c),
          ap (λ x. x.1.rows) e,
        )
  ]
]

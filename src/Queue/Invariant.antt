-- ===== src/Queue/Invariant.antt =====
-- At most one task of a project runs, whatever calls of `TaskQueue` were made in whatever order.
use claude_email.Prelude.{
  ℕ, ◌+◌, ◌≤◌, ◌≡◌, inl, inr, Bool, true, false, some, [], ◌∷◌, ◌++◌, arith, refl, ap, String, any,
  ==_iff, eq_iff, Bool-cases, Option-cases, str_eq, head?,
}
use claude_email.Table.{
  update, count_by, count_by-any, count_by-append, count_by-update_le, count_by-update_le_In,
  count_by-update_add,
}
use claude_email.Db.{Task, Tasks}
use claude_email.Queue.{row_id, has_id, running_in, pending_rows, started, claim_next, is_running}
use claude_email.Table.Ids.{Ascending-append, Ascending-update, Ascending-unique, count_by-has_id}
use claude_email.Queue.Claim.{HasIds, pending_rows_first, claim_next_blocked, claim_next_starts}

pub record IsValid (s : Tasks) : Type 0 where
  pub ids : HasIds s
  pub one_running : (path : String) → count_by (running_in path) s.rows ≤ 1

-- An UPDATE that keeps ids and starts nothing keeps the invariant.
pub update-IsValid :
    (p : Task → Bool) (f : Task → Task) (s : Tasks)
    → ((t : Task) → (f t).id ≡ t.id)
    → ((path : String) (t : Task) → running_in path (f t) ≡ true → running_in path t ≡ true)
    → IsValid s
    → IsValid (record s { rows = update p f s.rows })
update-IsValid p f s same quiet v = record {
  ids = Ascending-update row_id 0 s.rows s.next_id p f same v.ids;
  one_running = λ path. omega (
    arith,
    count_by-update_le (running_in path) p f s.rows (λ t _ e. quiet path t e),
    v.one_running path,
  );
}

pub append-IsValid :
    (t : Task) (s : Tasks)
    → t.id ≡ s.next_id
    → is_running t ≡ false
    → IsValid s
    → IsValid (record { rows = s.rows ++ t ∷ []; next_id = s.next_id + 1 })
append-IsValid t s e idle v = record {
  ids = Ascending-append row_id 0 s.rows s.next_id t v.ids e;
  one_running = λ path.
      ground (arith, count_by-append (running_in path) s.rows (t ∷ []), v.one_running path, idle);
}

started_one :
    (now : ℕ) (path q : String) (s : Tasks) (c : Task)
    → IsValid s
    → any (running_in path) s.rows ≡ false
    → head? (pending_rows path s) ≡ some c
    → count_by (running_in q) (update (has_id c.id) (started now) s.rows) ≤ 1
started_one now path q s c v idle first =
    let (i, p, _) = pending_rows_first path s c first in
    elim (Bool-cases (str_eq c.project_path q)) [
      | inl e ↦
          let same : path ≡ q =
            ground (arith, eq_iff c.project_path path, eq_iff c.project_path q) in
          omega (
            arith,
            count_by-update_add (running_in q) (has_id c.id) (started now) s.rows,
            count_by-has_id row_id 0 s.rows s.next_id c.id v.ids,
            count_by-any (running_in q) s.rows (rw (← same) idle),
          )
      | inr e ↦ omega (
        arith,
        count_by-update_le_In (running_in q) (has_id c.id) (started now) s.rows (λ t m h k.
            let same : t ≡ c =
              Ascending-unique row_id 0 s.rows s.next_id t c v.ids m i ((==_iff _ _).0 h) in
            ground (arith, ap (λ (x : Task). str_eq x.project_path q) same)),
        v.one_running q,
      )
    ]

pub claim_next-IsValid :
    (now : ℕ) (path : String) (s : Tasks) → IsValid s → IsValid (claim_next now path s).1
claim_next-IsValid now path s v = elim (Bool-cases (any (running_in path) s.rows)) [
  | inl busy ↦ rw (claim_next_blocked now path s (inl busy)) v
  | inr idle ↦ elim (Option-cases (head? (pending_rows path s))) [
    | inl empty ↦ rw (claim_next_blocked now path s (inr empty)) v
    | inr (c, first) ↦ rw (claim_next_starts now path s c v.ids idle first) (record {
      ids =
          Ascending-update row_id 0 s.rows s.next_id (has_id c.id) (started now) (λ t. refl) v.ids;
      one_running = λ q. started_one now path q s c v idle first;
    })
  ]
]

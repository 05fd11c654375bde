-- ===== src/Ghosts/Sweep.antt =====
-- The sweep fails exactly the running tasks whose worker is gone.
use claude_email.Prelude.{
  ℕ, suc, ◌≡◌, ◌<◌, Bool, true, false, ◌&&◌, List, [], ◌∷◌, arith, refl, ◌∙◌, ap, map, ℤ, All, ◌⊎◌,
  ◌↔◌, pos, negsuc, zero, Option, none, some, ◌+◌, ◌≤◌, if◌then◌else◌, Option-cases, leb→le, lt→ltb,
  subst, sym, not, &&-true, Bool-cases, inl, inr, ◌==◌, ==_refl,
}
use claude_email.Table.{select, update}
use claude_email.Table.Ids.{Ascending, Ascending-select, order_by-Ascending}
use claude_email.Db.{Task, Tasks, TaskStatus}
use claude_email.Queue.{
  row_id, has_id, is_running, public_row, failed_at, mark_failed, list_running,
}
use claude_email.Queue.Claim.{HasIds}
use claude_email.Queue.History.{running-status}
use claude_email.Ghosts.{launched, is_stuck, is_ghost, reason, sweep, sweep_ghosts}

-- no pid, or one that no process has
abbrev pub NoProcess : Option ℤ → Type 0
NoProcess none = Unit
NoProcess (some (pos n)) = n ≡ 0
NoProcess (some (negsuc n)) = Unit

status-running : (t : Task) → t.status ≡ TaskStatus.running → is_running t ≡ true
status-running t e = rw (e) refl

module _ (alive : ℤ → Bool) (now : ℕ) where
  abbrev pub fail : Task → Task
  fail t = failed_at now (reason now t) t

  -- a running task whose worker is gone
  abbrev pub is_gone : Task → Bool
  is_gone t = is_running t && is_ghost alive now t

  mark_list : List Task → List Task → List Task
  mark_list [] rows = rows
  mark_list (g ∷ gs) rows = mark_list gs (
      if is_ghost alive now g
      then update (has_id g.id) (failed_at now (reason now g)) rows
      else rows)

  rows-sweep :
      (gs : List Task) (s : Tasks)
      → (sweep alive now gs s).1 ≡ record s { rows = mark_list gs s.rows }
  unfolding sweep mark_list mark_failed
  rows-sweep [] s = refl
  rows-sweep (g ∷ gs) s = elim (Bool-cases (is_ghost alive now g)) [
    | inl e ↦ rw e (rows-sweep gs (mark_failed now g.id (reason now g) s))
    | inr e ↦ rw e (rows-sweep gs s)
  ]

  update_below :
      (n lo : ℕ) (f : Task → Task) (rows : List Task) (hi : ℕ)
      → Ascending row_id lo rows hi
      → n < lo
      → update (has_id n) f rows ≡ rows
  update_below n lo f [] hi h l = refl
  update_below n lo f (r ∷ rows) hi h l = ground (arith, update_below n (suc r.id) f rows hi h.1)

  above :
      (n lo : ℕ) (p : Task → Bool) (rows : List Task) (hi : ℕ)
      → Ascending row_id lo rows hi
      → n < lo
      → All (λ g. n < g.id) (map public_row (select p rows))
  unfolding public_row
  above n lo p [] hi h l = tt
  above n lo p (r ∷ rows) hi h l = elim (Bool-cases (p r)) [
    | inl e ↦ rw e (omega arith, above n (suc r.id) p rows hi h.1 (omega arith))
    | inr e ↦ rw e (above n (suc r.id) p rows hi h.1 (omega arith))
  ]

  mark_list_skip :
      (x : Task) (gs rows : List Task)
      → All (λ g. x.id < g.id) gs
      → mark_list gs (x ∷ rows) ≡ x ∷ mark_list gs rows
  unfolding mark_list
  mark_list_skip x [] rows h = refl
  mark_list_skip x (g ∷ gs) rows (l, h) = elim (Bool-cases (is_ghost alive now g)) [
    | inl e ↦
        let off : (x.id == g.id) ≡ false = ground arith in
        rw (e, off)
          (mark_list_skip x gs (update (has_id g.id) (failed_at now (reason now g)) rows) h)
    | inr e ↦ rw e (mark_list_skip x gs rows h)
  ]

  mark_list_keep :
      (x r : Task) (rows : List Task) (hi : ℕ)
      → x.id ≡ r.id
      → Ascending row_id (suc r.id) rows hi
      → mark_list (map public_row (select is_running rows)) rows ≡ update is_gone fail rows
      → mark_list (map public_row (select is_running rows)) (x ∷ rows)
        ≡ x ∷ update is_gone fail rows
  mark_list_keep x r rows hi q h ih =
      mark_list_skip x (map public_row (select is_running rows)) rows
        (rw q (above r.id (suc r.id) is_running rows hi h (omega arith)))
      ∙ ap (λ l. x ∷ l) ih

  mark_head :
      (r : Task) (rows : List Task) (hi : ℕ)
      → Ascending row_id (suc r.id) rows hi
      → is_ghost alive now r ≡ true
      → (if is_ghost alive now r
          then update (has_id r.id) (failed_at now (reason now r)) (r ∷ rows)
          else r ∷ rows)
        ≡ fail r ∷ rows
  mark_head r rows hi h e =
      rw
        (
          e,
          ==_refl r.id,
          update_below r.id (suc r.id) (failed_at now (reason now r)) rows hi h (omega arith),
        )
        refl

  mark_head_off :
      (r : Task) (rows : List Task)
      → is_ghost alive now r ≡ false
      → (if is_ghost alive now r
          then update (has_id r.id) (failed_at now (reason now r)) (r ∷ rows)
          else r ∷ rows)
        ≡ r ∷ rows
  mark_head_off r rows e = rw e refl

  mark_list_lem :
      (lo : ℕ) (rows : List Task) (hi : ℕ)
      → Ascending row_id lo rows hi
      → mark_list (map public_row (select is_running rows)) rows ≡ update is_gone fail rows
  unfolding mark_list public_row reason
  mark_list_lem lo [] hi h = refl
  mark_list_lem lo (r ∷ rows) hi h = elim (Bool-cases (is_running r)) [
    | inl run ↦ elim (Bool-cases (is_ghost alive now r)) [
      | inl e ↦
          rw (run, e)
            (ap (mark_list (map public_row (select is_running rows))) (mark_head r rows hi h.1 e)
              ∙ mark_list_keep (fail r) r rows hi refl h.1 (mark_list_lem (suc r.id) rows hi h.1))
      | inr e ↦
          rw (run, e)
            (ap (mark_list (map public_row (select is_running rows))) (mark_head_off r rows e)
              ∙ mark_list_keep r r rows hi refl h.1 (mark_list_lem (suc r.id) rows hi h.1))
    ]
    | inr idle ↦
        rw idle (mark_list_keep r r rows hi refl h.1 (mark_list_lem (suc r.id) rows hi h.1))
  ]

  abbrev pub IsLate : Option ℕ → Type 0
  IsLate none = Unit
  IsLate (some at) = at + 120_000_000 ≤ now

  -- The worker of a task is gone: its process is dead, or it never had one and has had 120 seconds
  -- for it, or never started.
  abbrev pub IsGone : Task → Type 0
  IsGone t =
      (t.status ≡ TaskStatus.running)
      × (((n : ℕ) × (t.pid ≡ some (pos n)) × (0 < n) × (alive (pos n) ≡ false))
          ⊎ (NoProcess t.pid × IsLate t.started_at))

  pid-cases :
      (o : Option ℤ) (t : Task)
      → t.pid ≡ o
      → ((n : ℕ) × (o ≡ some (pos n)) × (0 < n) × (launched t ≡ some (pos n)))
        ⊎ (NoProcess o × (launched t ≡ none))
  pid-cases none t e = inr (tt, rw (e) refl)
  pid-cases (some (pos zero)) t e = inr (refl, rw (e) refl)
  pid-cases (some (pos (suc n))) t e =
      inl (suc n, refl, omega arith, rw (e, lt→ltb 0 (suc n) (omega arith)) refl)
  pid-cases (some (negsuc n)) t e = inr (tt, rw (e) refl)

  launched-cases :
      (t : Task)
      → ((n : ℕ) × (t.pid ≡ some (pos n)) × (0 < n) × (launched t ≡ some (pos n)))
        ⊎ (NoProcess t.pid × (launched t ≡ none))
  launched-cases t = pid-cases t.pid t refl

  is_stuck_iff : (t : Task) → (is_stuck now t ≡ true) ↔ IsLate t.started_at
  is_stuck_iff t = elim (Option-cases t.started_at) [
    | inl e ↦ rw (e) (λ h. tt, λ h. refl)
    | inr (at, e) ↦ rw (e) (λ h. leb→le (at + 120_000_000) now h, λ h. ground (arith, h))
  ]

  gone_zero : {A : Type 0} → (n : ℕ) → 0 < n → n ≡ 0 → A
  gone_zero n l e = let bad : ⊥ = omega (arith, l, e) in elim bad [ ]

  is_ghost_iff :
      (t : Task)
      → (is_ghost alive now t ≡ true) ↔ (
          ((n : ℕ) × (t.pid ≡ some (pos n)) × (0 < n) × (alive (pos n) ≡ false))
          ⊎ (NoProcess t.pid × IsLate t.started_at))
  is_ghost_iff t = elim (launched-cases t) [
    | inl (n, p, l, e) ↦
        let f : is_ghost alive now t ≡ not (alive (pos n)) = rw (e, is_ghost) refl in
        (
          λ h. inl (n, p, l, ground (arith, h, f)),
          λ g. elim g [
            | inl (k, q, m, d) ↦
                let same : k ≡ n = cc (p, q) in
                ground (arith, f, subst (λ j. alive (pos j) ≡ false) same d)
            | inr (absent, late) ↦ gone_zero n l (subst NoProcess p absent)
          ],
        )
    | inr (none_there, e) ↦
        let f : is_ghost alive now t ≡ is_stuck now t = rw (e, is_ghost) refl in
        (
          λ h. inr (none_there, (is_stuck_iff t).0 (sym f ∙ h)),
          λ g. elim g [
            | inl (k, q, m, d) ↦ gone_zero k m (subst NoProcess q none_there)
            | inr (w, late) ↦ f ∙ (is_stuck_iff t).1 late
          ],
        )
  ]

  is_gone_iff : (t : Task) → (is_gone t ≡ true) ↔ IsGone t
  is_gone_iff t = (
    λ h. (running-status t (&&-true _ _ h).0, (is_ghost_iff t).0 (&&-true _ _ h).1),
    λ h. rw (status-running t h.0, (is_ghost_iff t).1 h.1) refl,
  )

  -- In a table with ascending ids, a sweep fails exactly the running tasks whose worker is gone (a
  -- dead pid, or no pid and started 120 seconds ago or more, or never), each with its reason and
  -- the time; every other row is as it was.
  pub sweep_ghosts_lem :
      (s : Tasks)
      → HasIds s
      → ((sweep_ghosts alive now s).1 ≡ record s { rows = update is_gone fail s.rows })
        × ((t : Task) → (is_gone t ≡ true) ↔ IsGone t)
  unfolding sweep_ghosts list_running
  sweep_ghosts_lem s ids = (
    rw
        (order_by-Ascending row_id 0 (select is_running s.rows) s.next_id
          (Ascending-select row_id 0 s.rows s.next_id is_running ids))
        (rows-sweep (map public_row (select is_running s.rows)) s
          ∙ ap (λ r. record s { rows = r }) (mark_list_lem 0 s.rows s.next_id ids)),
    is_gone_iff,
  )

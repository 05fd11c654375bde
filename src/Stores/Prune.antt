-- ===== src/Stores/Prune.antt =====
-- What pruning deletes, what it keeps, and when it can delete nothing.
use claude_email.Prelude.{
  ℕ, ◌≡◌, ◌≢◌, String, Bool, true, false, not, some, List, [], ◌∷◌, arith, refl, sym, ◌∙◌, ap, any,
  In, inl, inr, Bool-cases, Option-cases, ==_iff, ==_refl,
}
use mathlib.Core.Path.{subst}
use mathlib.Core.Bool.{false≢true}
use claude_email.Table.{select, delete, In-select, select-In, any-In}
use claude_email.Db.{Db, Message}
use claude_email.Effect
use claude_email.Effect.{integrity_error}
use claude_email.Bus.{has_id, holds_id, parent_known, pending_for}
use claude_email.Stores.{
  prune_cutoff, is_old, orphaned, deletable, Pruned, pruned, pruned_counts, cleanup_old,
}

-- Every message that is replied to is in the table.
abbrev pub ParentsKnown : Db → Type 0
ParentsKnown db = (m : Message) → In m db.messages → parent_known m.in_reply_to db ≡ true

any-true :
    (p : Message → Bool) (xs : List Message)
    → any p xs ≡ true
    → (x : Message) × In x xs × (p x ≡ true)
any-true p [] h = absurd (false≢true h)
any-true p (x ∷ xs) h = elim (Bool-cases (p x)) [
  | inl e ↦ (x, inl refl, e)
  | inr e ↦ let (y, i, k) = any-true p xs (ground arith) in (y, inr i, k)
]

select-delete :
    (p r : Message → Bool) (xs : List Message)
    → ((m : Message) → p m ≡ true → r m ≡ false)
    → select p (delete r xs) ≡ select p xs
select-delete p r [] h = refl
select-delete p r (x ∷ xs) h = ground (arith, h x, select-delete p r xs h)

not-false : (b : Bool) → b ≡ false → not b ≡ true
not-false b h = rw h refl

not-true : (b : Bool) → not b ≡ true → b ≡ false
not-true b h = ground arith

ok≢raise : {A : Type 0} (a : A) (e : Effect.Error) → Effect.ok a ≢ Effect.raise e
ok≢raise a e h = cc

ok_inj :
    {a b : Pruned} {d e : Db}
    → ◌≡◌ {A = Effect.Result (Pruned × Db)} (Effect.ok (a, d)) (Effect.ok (b, e))
    → d ≡ e
ok_inj h = cc

cleanup_old-ok :
    (now days : ℕ) (db : Db)
    → deletable (prune_cutoff now days) db.messages ≡ true
    → cleanup_old now days db
      ≡ Effect.ok (pruned_counts (prune_cutoff now days) db, pruned (prune_cutoff now days) db)
unfolding cleanup_old
cleanup_old-ok now days db h = rw (h, cleanup_old) refl

cleanup_old-refused :
    (now days : ℕ) (db : Db)
    → deletable (prune_cutoff now days) db.messages ≡ false
    → cleanup_old now days db ≡ Effect.raise integrity_error
unfolding cleanup_old
cleanup_old-refused now days db h = rw (h, cleanup_old) refl

-- If a message that is kept replies to one that is old, the foreign key refuses the DELETE and the
-- call raises IntegrityError, so nothing at all is pruned.
pub cleanup_old_blocked :
    (now days : ℕ) (db : Db) (kept old : Message)
    → let cut = prune_cutoff now days in
      In kept db.messages
      → In old db.messages
      → is_old cut kept ≡ false
      → is_old cut old ≡ true
      → kept.in_reply_to ≡ some old.id
      → cleanup_old now days db ≡ Effect.raise integrity_error
cleanup_old_blocked now days db kept old i j k o e =
    let cut = prune_cutoff now days in
    let hit : holds_id old.id kept.in_reply_to ≡ true = rw e (==_refl old.id) in
    let gone = select-In (is_old cut) old db.messages j o in
    let orphan : orphaned (select (is_old cut) db.messages) kept ≡ true =
      any-In (λ d. holds_id d.id kept.in_reply_to) old _ gone hit in
    let left =
      select-In (λ x. not (is_old cut x)) kept db.messages i (not-false (is_old cut kept) k) in
    let found = any-In (orphaned (select (is_old cut) db.messages)) kept _ left orphan in
    cleanup_old-refused now days db (ap not found)

kept_parent :
    (cut : ℕ) (db : Db) (m : Message)
    → deletable cut db.messages ≡ true
    → ParentsKnown db
    → In m (pruned cut db).messages
    → parent_known m.in_reply_to (pruned cut db) ≡ true
kept_parent cut db m fine known i =
    let (here, _) = In-select (λ x. not (is_old cut x)) m db.messages i in
    elim (Option-cases m.in_reply_to) [
      | inl e ↦ rw e refl
      | inr (n, e) ↦
          let parent : any (has_id n) db.messages ≡ true =
            ap (λ o. parent_known o db) (sym e) ∙ known m here in
          let (p, j, q) = any-true (has_id n) db.messages parent in
          elim (Bool-cases (is_old cut p)) [
            | inl o ↦
                let hit : holds_id p.id m.in_reply_to ≡ true =
                  rw (e, (==_iff p.id n).0 q) (==_refl n) in
                let orphan =
                  any-In (λ d. holds_id d.id m.in_reply_to) p _
                    (select-In (is_old cut) p db.messages j o) hit in
                let found = any-In (orphaned (select (is_old cut) db.messages)) m _ i orphan in
                absurd (false≢true (ap not (sym found) ∙ fine))
            | inr o ↦ rw e (
                any-In (has_id n) p _
                  (select-In (λ x. not (is_old cut x)) p db.messages j (not-false (is_old cut p) o))
                  q)
          ]
    ]

-- A pruning that goes through deletes old delivered or failed messages alone, keeps every
-- recipient's pending mail, keeps every message that is replied to if all were there before, and
-- does not touch tasks, agents and wake sessions.
pub cleanup_old_kept :
    (now days : ℕ) (db db' : Db) (counts : Pruned)
    → cleanup_old now days db ≡ Effect.ok (counts, db')
    → (db'.messages ≡ delete (is_old (prune_cutoff now days)) db.messages)
      × ((name : String)
          → select (pending_for name) db'.messages ≡ select (pending_for name) db.messages)
      × (ParentsKnown db → ParentsKnown db')
      × (db'.tasks ≡ db.tasks)
      × (db'.agents ≡ db.agents)
      × (db'.wake_sessions ≡ db.wake_sessions)
cleanup_old_kept now days db db' counts h =
    let cut = prune_cutoff now days in
    elim (Bool-cases (deletable cut db.messages)) [
      | inl fine ↦
          let q : pruned cut db ≡ db' = ok_inj (sym (cleanup_old-ok now days db fine) ∙ h) in
          subst
            (λ d.
              (d.messages ≡ delete (is_old cut) db.messages)
              × ((name : String)
                  → select (pending_for name) d.messages ≡ select (pending_for name) db.messages)
              × (ParentsKnown db → ParentsKnown d)
              × (d.tasks ≡ db.tasks)
              × (d.agents ≡ db.agents)
              × (d.wake_sessions ≡ db.wake_sessions))
            q
            (
              refl,
              λ name.
                  select-delete (pending_for name) (is_old cut) db.messages (λ m e. ground arith),
              λ known m i. kept_parent cut db m fine known i,
              refl,
              refl,
              refl,
            )
      | inr bad ↦
          absurd
            (ok≢raise (counts, db') integrity_error (sym h ∙ cleanup_old-refused now days db bad))
    ]

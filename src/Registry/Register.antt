-- ===== src/Registry/Register.antt =====
-- Registration: one live owner of a name, and what a registration writes.
use claude_email.Prelude.{
  ℕ, ◌≡◌, ◌≢◌, inl, inr, Bool, true, false, Option, none, some, List, [], ◌∷◌, ◌++◌, arith, refl,
  sym, ◌∙◌, ap, any, String, eq_iff, eq_refl, Bool-cases, head?, Option-cases, ℤ, eqb_ℤ_iff,
}
use mathlib.Core.Bool.{false≢true}
use claude_email.Table.{update, select, select-update_ne}
use claude_email.Db.{Db, Agent}
use claude_email.Effect
use claude_email.Effect.{name_taken, Error}
use claude_email.Bus.{log_event, recover_failed_messages_for}
use claude_email.Registry.{
  named, get_agent, take_over, new_agent, upsert_agent, conflict, register_agent, register_unless,
  record_agent,
}

ok≢raise : {A : Type 0} (a : A) (e : Error) → Effect.ok a ≢ Effect.raise e
ok≢raise a e h = cc

raise_inj :
    (name : String) (a b : ℤ)
    → ◌≡◌ {A = Effect.Result (Option Agent × Db)}
        (Effect.raise (name_taken name a))
        (Effect.raise (name_taken name b))
    → a ≡ b
raise_inj name a b h = cc

none≢some : (q : ℤ) → none ≢ some q
none≢some q e = cc

-- The agents that a registration leaves: the mail and the events do not touch them.
agents-record :
    (alive : ℤ → Bool) (now : ℕ) (name path : String) (pid : Option ℤ) (db : Db)
    → (record_agent alive now name path pid db).1.agents
      ≡ (upsert_agent now name path pid db).agents
unfolding record_agent log_event recover_failed_messages_for
agents-record alive now name path pid db = ground arith

select-take_over_ne :
    (now : ℕ) (name path other : String) (pid : Option ℤ) (xs : List Agent)
    → other ≢ name
    → select (named other) (update (named name) (take_over now path pid) xs)
      ≡ select (named other) xs
select-take_over_ne now name path other pid xs h =
    select-update_ne (named other) (named name) (take_over now path pid) xs (λ a e.
      let no : named other a ≡ false = ground (arith, eq_iff a.name other, eq_iff a.name name) in
      (no, no))

-- The row of the name after an upsert, from the row of before.
abbrev pub registered : ℕ → String → String → Option ℤ → Option Agent → Agent
registered now name path pid none = new_agent now name path pid
registered now name path pid (some a) = take_over now path pid a

select-taken :
    (now : ℕ) (name path : String) (pid : Option ℤ) (xs : List Agent)
    → any (named name) xs ≡ true
    → head? (select (named name) (update (named name) (take_over now path pid) xs))
      ≡ some (registered now name path pid (head? (select (named name) xs)))
select-taken now name path pid [] h = absurd (false≢true h)
select-taken now name path pid (x ∷ xs) h = ground (arith, select-taken now name path pid xs)

select-added :
    (name : String) (a : Agent) (xs : List Agent)
    → any (named name) xs ≡ false
    → named name a ≡ true
    → (head? (select (named name) (xs ++ a ∷ [])) ≡ some a)
      × (head? (select (named name) xs) ≡ none)
select-added name a [] h e = (rw e, refl)
select-added name a (x ∷ xs) h e = ground (arith, select-added name a xs)

select-added_ne :
    (name : String) (a : Agent) (xs : List Agent)
    → named name a ≡ false
    → select (named name) (xs ++ a ∷ []) ≡ select (named name) xs
select-added_ne name a [] e = rw e
select-added_ne name a (x ∷ xs) e = ground (arith, select-added_ne name a xs)

get-upsert :
    (now : ℕ) (name path : String) (pid : Option ℤ) (db : Db)
    → get_agent name (upsert_agent now name path pid db)
      ≡ some (registered now name path pid (get_agent name db))
unfolding get_agent upsert_agent
get-upsert now name path pid db = elim (Bool-cases (any (named name) db.agents)) [
  | inl e ↦ rw e (select-taken now name path pid db.agents e)
  | inr e ↦
      let (u, v) = select-added name (new_agent now name path pid) db.agents e (eq_refl name) in
      rw (e, v) u
]

get-upsert_ne :
    (now : ℕ) (name path other : String) (pid : Option ℤ) (db : Db)
    → other ≢ name
    → get_agent other (upsert_agent now name path pid db) ≡ get_agent other db
unfolding get_agent upsert_agent
get-upsert_ne now name path other pid db h = elim (Bool-cases (any (named name) db.agents)) [
  | inl e ↦ rw e (ap head? (select-take_over_ne now name path other pid db.agents h))
  | inr e ↦ rw e (
      ap head? (
        select-added_ne other (new_agent now name path pid) db.agents
          (ground (arith, eq_iff name other))))
]

get-agents :
    (name : String) (db db' : Db) → db.agents ≡ db'.agents → get_agent name db ≡ get_agent name db'
unfolding get_agent
get-agents name db db' e = rw e

module _ (alive : ℤ → Bool) where
  conflict-some :
      (pid : Option ℤ) (o : Option Agent) (q : ℤ)
      → conflict alive pid o ≡ some q
      → (p : ℤ) × (a : Agent) × (pid ≡ some p)
        × (o ≡ some a)
        × (a.pid ≡ some q)
        × (q ≢ p)
        × (alive q ≡ true)
  conflict-some none o q h = absurd (none≢some q h)
  conflict-some (some p) none q h = absurd (none≢some q h)
  conflict-some (some p) (some a) q h = elim (Option-cases a.pid) [
    | inl e ↦ absurd (none≢some q (ground arith))
    | inr (k, e) ↦
        let same : k ≡ q = ground arith in
        (p, a, refl, refl, e ∙ ap some same, ground (arith, eqb_ℤ_iff k p), ground arith)
  ]

  some-conflict :
      (p : ℤ) (a : Agent) (q : ℤ)
      → a.pid ≡ some q
      → q ≢ p
      → alive q ≡ true
      → conflict alive (some p) (some a) ≡ some q
  some-conflict p a q e n l = ground (arith, eqb_ℤ_iff q p)

  module _ (now : ℕ) (name path : String) (pid : Option ℤ) (db : Db) where
    register_lem :
        register_agent alive now name path pid db
        ≡ register_unless alive (conflict alive pid (get_agent name db)) now name path pid db
    unfolding register_agent
    register_lem = refl

    register_conflict :
        (q : ℤ)
        → conflict alive pid (get_agent name db) ≡ some q
        → register_agent alive now name path pid db ≡ Effect.raise (name_taken name q)
    unfolding register_unless
    register_conflict q e = rw (register_lem, e)

    register_free :
        conflict alive pid (get_agent name db) ≡ none
        → register_agent alive now name path pid db
          ≡ Effect.ok (record_agent alive now name path pid db)
    unfolding register_unless
    register_free e = rw (register_lem, e)

    returned :
        (record_agent alive now name path pid db).0
        ≡ get_agent name (record_agent alive now name path pid db).1
    unfolding record_agent
    returned = refl

    refused_by :
        (q : ℤ)
        → register_agent alive now name path pid db ≡ Effect.raise (name_taken name q)
        → conflict alive pid (get_agent name db) ≡ some q
    refused_by q h = elim (Option-cases (conflict alive pid (get_agent name db))) [
      | inl e ↦ absurd (ok≢raise _ _ (sym (register_free e) ∙ h))
      | inr (k, e) ↦ e ∙ ap some (raise_inj name k q (sym (register_conflict k e) ∙ h))
    ]

    -- A registration is refused, with the holder's pid, exactly when it comes with a pid and the
    -- name is held under another pid whose process is alive.
    pub register_refused_iff :
        (q : ℤ)
        → (register_agent alive now name path pid db ≡ Effect.raise (name_taken name q)
            → (p : ℤ) × (a : Agent) × (pid ≡ some p)
              × (get_agent name db ≡ some a)
              × (a.pid ≡ some q)
              × (q ≢ p)
              × (alive q ≡ true))
          × ((p : ℤ) (a : Agent)
              → pid ≡ some p
              → get_agent name db ≡ some a
              → a.pid ≡ some q
              → q ≢ p
              → alive q ≡ true
              → register_agent alive now name path pid db ≡ Effect.raise (name_taken name q))
    register_refused_iff q = (
      λ h. conflict-some pid (get_agent name db) q (refused_by q h),
      λ p a e g k n l. register_conflict q (rw (e, g) (some-conflict p a q k n l)),
    )

    -- A registration that is not refused returns the row that `get_agent` then finds. If the name
    -- had no row it is a new one; else it is the old one, under the path given, running, seen now,
    -- and with the pid given if one was given. The rows of all other names are those of before.
    pub register_accepted :
        conflict alive pid (get_agent name db) ≡ none
        → (a : Agent) × (db' : Db) × (register_agent alive now name path pid db
            ≡ Effect.ok (some a, db'))
          × (get_agent name db' ≡ some a)
          × (a ≡ registered now name path pid (get_agent name db))
          × ((other : String) → other ≢ name → get_agent other db' ≡ get_agent other db)
    register_accepted free =
        let done = record_agent alive now name path pid db in
        let same = agents-record alive now name path pid db in
        let found =
          get-agents name done.1 (upsert_agent now name path pid db) same
          ∙ get-upsert now name path pid db in
        (
          registered now name path pid (get_agent name db),
          done.1,
          register_free free ∙ ap (λ o. Effect.ok (o, done.1)) (returned ∙ found),
          found,
          refl,
          λ other h.
              get-agents other done.1 (upsert_agent now name path pid db) same
              ∙ get-upsert_ne now name path other pid db h,
        )

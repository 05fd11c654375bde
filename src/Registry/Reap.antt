-- ===== src/Registry/Reap.antt =====
-- The reaper: which rows it disconnects, and which it leaves.
use mathlib.Core.Bool.{false≢true}
use claude_email.Prelude.{
  ℕ, ◌≡◌, inl, inr, Bool, true, false, ◌||◌, List, [], ◌∷◌, ◌++◌, arith, refl, sym, ◌∙◌, ap, any,
  In, String, eq_iff, eq_refl, Bool-cases, map, ℤ,
}
use claude_email.Table.{
  update, select, select-update_ne, update_cong, select_cong_none, In-select, select-In, any-In,
}
use claude_email.Db.{Db, Agent}
use claude_email.Bus.{log_event}
use claude_email.Registry.{
  named, set_status, disconnect, disconnect_all, is_dead, is_idle, why_dead, reap_dead_agents,
  cutoff,
}

-- PRIMARY KEY (name)
abbrev pub HasUniqueNames : Db → Type 0
HasUniqueNames db = (a b : Agent) → In a db.agents → In b db.agents → a.name ≡ b.name → a ≡ b

abbrev pub disconnected : Agent → Agent
disconnected = set_status "disconnected"

abbrev pub named_in : List Agent → Agent → Bool
named_in rows a = any (λ r. named r.name a) rows

agents-disconnect :
    (now : ℕ) (name why : String) (db : Db)
    → (disconnect now name why db).agents ≡ update (named name) disconnected db.agents
unfolding disconnect log_event
agents-disconnect now name why db = refl

update-update :
    (p q : Agent → Bool) (xs : List Agent)
    → ((a : Agent) → p (disconnected a) ≡ p a)
    → update p disconnected (update q disconnected xs) ≡ update (λ a. q a || p a) disconnected xs
update-update p q [] h = refl
update-update p q (x ∷ xs) h = ground (arith, h x, update-update p q xs h)

agents-disconnect_all :
    (now : ℕ) (why : Agent → String) (rows : List Agent) (db : Db)
    → (disconnect_all now why rows db).agents ≡ update (named_in rows) disconnected db.agents
unfolding disconnect_all
agents-disconnect_all now why [] db =
    sym (select_cong_none (λ a. false) disconnected db.agents (λ a i. refl)).0
agents-disconnect_all now why (r ∷ rows) db =
    agents-disconnect_all now why rows (disconnect now r.name (why r) db)
    ∙ rw (agents-disconnect now r.name (why r) db)
        (update-update (named_in rows) (named r.name) db.agents (λ a. refl))

any-named :
    (rows : List Agent) (a : Agent)
    → named_in rows a ≡ true
    → (r : Agent) × In r rows × (a.name ≡ r.name)
any-named [] a h = absurd (false≢true h)
any-named (r ∷ rows) a h = elim (Bool-cases (named r.name a)) [
  | inl e ↦ (r, inl refl, (eq_iff a.name r.name).0 e)
  | inr e ↦ let (q, m, s) = any-named rows a (ground arith) in (q, inr m, s)
]

named_in-select :
    (p : Agent → Bool) (db : Db) (a : Agent)
    → HasUniqueNames db
    → In a db.agents
    → named_in (select p db.agents) a ≡ p a
named_in-select p db a unique i = elim (Bool-cases (named_in (select p db.agents) a)) [
  | inl e ↦
      let (r, m, s) = any-named (select p db.agents) a e in
      let (j, q) = In-select p r db.agents m in e ∙ sym (ap p (unique a r i j s) ∙ q)
  | inr e ↦ elim (Bool-cases (p a)) [
    | inl q ↦ absurd (
        false≢true
          (sym e ∙ any-In (λ r. named r.name a) a _ (select-In p a db.agents i q) (eq_refl a.name)))
    | inr q ↦ e ∙ sym q
  ]
]

module _ (alive : ℤ → Bool) (now secs : ℕ) (db : Db) where
  -- to be reaped: a running row whose process is dead, or one with no pid that is idle too long
  abbrev pub is_ghost : Agent → Bool
  is_ghost a = is_dead alive a || is_idle (cutoff now secs) a

  -- The reaper disconnects exactly the ghosts, leaves every other row as it is, and returns the
  -- names of the rows with dead processes and then those of the idle ones.
  pub reap_lem :
      HasUniqueNames db
      → let (names, db') = reap_dead_agents alive now secs db in
        (db'.agents ≡ update is_ghost disconnected db.agents)
        × (names
            ≡ map (λ a. a.name) (select (is_dead alive) db.agents)
              ++ map (λ a. a.name) (select (is_idle (cutoff now secs)) db.agents))
  unfolding reap_dead_agents
  reap_lem unique =
      let dead = select (is_dead alive) db.agents in
      let idle = select (is_idle (cutoff now secs)) db.agents in
      let db' = disconnect_all now (why_dead) dead db in
      let first : db'.agents ≡ update (is_dead alive) disconnected db.agents =
        agents-disconnect_all now why_dead dead db
        ∙ update_cong (named_in dead) (is_dead alive) disconnected db.agents
            (λ a i. named_in-select (is_dead alive) db a unique i) in
      let still : select (is_idle (cutoff now secs)) db'.agents ≡ idle =
        ap (select (is_idle (cutoff now secs))) first
        ∙ select-update_ne (is_idle (cutoff now secs)) (is_dead alive) disconnected db.agents
            (λ a e. (ground arith, ground arith)) in
      (
        agents-disconnect_all now (λ a. "no PID, idle past freshness window")
              (select (is_idle (cutoff now secs)) db'.agents) db'
            ∙ ap (λ r. update (named_in r) disconnected db'.agents) still
            ∙ ap (update (named_in idle) disconnected) first
            ∙ update-update (named_in idle) (is_dead alive) db.agents (λ a. refl)
            ∙ update_cong (λ a. is_dead alive a || named_in idle a) is_ghost disconnected db.agents
                (λ a i.
                  ap (λ b. is_dead alive a || b)
                    (named_in-select (is_idle (cutoff now secs)) db a unique i)),
        ap (λ r. map (λ a. a.name) dead ++ map (λ a. a.name) r) still,
      )

-- ===== src/Registry/State.antt =====
-- The liveness of a project is the best of its rows.
use claude_email.Prelude.{
  ℕ, ◌≡◌, Bool, true, false, List, [], ◌∷◌, arith, refl, any, ℤ, String, str_eq, if◌then◌else◌,
}
use claude_email.Table.{select}
use claude_email.Db.{Db, Agent}
use claude_email.Registry.{
  AgentState, online, stale, offline, row_state, best_state, agent_state_for_project, cutoff,
}

abbrev pub is_online : AgentState → Bool
is_online s = elim s [ online ↦ true | _ ↦ false ]

abbrev pub is_stale : AgentState → Bool
is_stale s = elim s [ stale ↦ true | _ ↦ false ]

module _ (alive : ℤ → Bool) where
  abbrev pub some_row : (AgentState → Bool) → ℕ → ℕ → List Agent → Bool
  some_row p fresh stale_cut rows = any (λ a. p (row_state alive a fresh stale_cut)) rows

  best_state_stale :
      (fresh cut : ℕ) (rows : List Agent)
      → best_state alive stale fresh cut rows
        ≡ (if some_row is_online fresh cut rows then online else stale)
  unfolding best_state
  best_state_stale fresh cut [] = refl
  best_state_stale fresh cut (a ∷ rows) = ground (arith, best_state_stale fresh cut rows)

  best_state_lem :
      (fresh cut : ℕ) (rows : List Agent)
      → best_state alive offline fresh cut rows ≡ (
          if some_row is_online fresh cut rows
          then online
          else if some_row is_stale fresh cut rows
          then stale
          else offline)
  unfolding best_state
  best_state_lem fresh cut [] = refl
  best_state_lem fresh cut (a ∷ rows) =
      ground (arith, best_state_lem fresh cut rows, best_state_stale fresh cut rows)

  -- A project is online if a row of it is; else stale if a row of it is; else offline.
  pub agent_state_lem :
      (now : ℕ) (path : String) (freshness stale_sec : ℕ) (db : Db)
      → let rows = select (λ a. str_eq a.project_path path) db.agents in
        let fresh = cutoff now freshness in
        let cut = cutoff now stale_sec in
        agent_state_for_project alive now path freshness stale_sec db ≡ (
          if some_row is_online fresh cut rows
          then online
          else if some_row is_stale fresh cut rows
          then stale
          else offline)
  unfolding agent_state_for_project
  agent_state_lem now path freshness stale_sec db =
      best_state_lem (cutoff now freshness) (cutoff now stale_sec)
        (select (λ a. str_eq a.project_path path) db.agents)

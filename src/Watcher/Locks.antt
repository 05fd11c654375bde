-- ===== src/Watcher/Locks.antt =====
-- One turn at a time for an agent, and none for an agent that needs none.
use claude_email.Prelude.{
  ℕ, String, Bool, true, false, none, some, List, [], ◌∷◌, str_eq, ℤ, ◌≡◌, refl, Bool-cases, inl,
  inr, ◌⊎◌,
}
use claude_email.Json.{Json}
use claude_email.Db.{Agent, Message}
use claude_email.Bus.{get_pending_messages_for}
use claude_email.Registry.{get_agent}
use claude_email.Wake.{has_live_owner}
use claude_email.Wake.Laws.{is_held, held-release, acquire_held, acquire_free}
use claude_email.Watcher.{
  World, Spawned, Ending, returned, WakeWatcherConfig, Clock, process_agent, attempt_turn,
  wake_agent, locked,
}

-- Why no turn is spawned for an agent.
abbrev pub NeedsNoTurn : (ℤ → Bool) → String → World → Type 0
NeedsNoTurn alive name w =
    (is_held name w.held ≡ true)
    ⊎ ((get_agent name w.db ≡ none)
        ⊎ ((a : Agent) × (get_agent name w.db ≡ some a)
            × ((str_eq a.project_path "" ≡ true)
                ⊎ ((get_pending_messages_for name w.db ≡ [])
                    ⊎ ((str_eq a.status "running" ≡ false) ⊎ (has_live_owner alive a ≡ true))))))

module _ (dumps : Json → String) (path_name : String → String) (clock_text : String)
    (refuses : ℕ → Bool) (alive : ℤ → Bool) (new_id : String) (cfg : WakeWatcherConfig)
    (clock : Clock) (name : String) where
  abbrev pub Spawn : Type 0
  Spawn = List String → (cwd : String) → World → Spawned × World

  abbrev pub process : Spawn → World → Ending × World
  process spawn w =
      process_agent dumps path_name clock_text refuses alive new_id spawn cfg clock name w

  -- If the lock of the agent is held, the call leaves everything as it is; otherwise the lock is
  -- free after the call, whatever way the turn ends, an exception included.
  pub process_agent-release :
      (spawn : Spawn) (w : World)
      → ((is_held name w.held ≡ true) × (process spawn w ≡ (returned, w)))
        ⊎ ((is_held name w.held ≡ false) × (is_held name (process spawn w).1.held ≡ false))
  unfolding process_agent locked
  process_agent-release spawn w = elim (Bool-cases (is_held name w.held)) [
    | inl e ↦ inl (e, rw (acquire_held name w.held e) refl)
    | inr e ↦ inr (e, rw (acquire_free name w.held e) (held-release name _))
  ]

  wake_same :
      (spawn spawn' : Spawn) (a : Agent) (ms : List Message) (w : World)
      → (ms ≡ []) ⊎ ((str_eq a.status "running" ≡ false) ⊎ (has_live_owner alive a ≡ true))
      → wake_agent dumps path_name clock_text refuses alive new_id spawn cfg clock name a ms w
        ≡ wake_agent dumps path_name clock_text refuses alive new_id spawn' cfg clock name a ms w
  unfolding wake_agent
  wake_same spawn spawn' a [] w h = refl
  wake_same spawn spawn' a (m ∷ ms) w (inl e) = cc
  wake_same spawn spawn' a (m ∷ ms) w (inr (inl e)) = rw (e) refl
  wake_same spawn spawn' a (m ∷ ms) w (inr (inr e)) =
      elim (Bool-cases (str_eq a.status "running")) [ inl r ↦ rw (r, e) refl | inr r ↦ rw (r) refl ]

  attempt_same :
      (spawn spawn' : Spawn) (held : List String) (w : World)
      → is_held name w.held ≡ false
      → NeedsNoTurn alive name w
      → attempt_turn dumps path_name clock_text refuses alive new_id spawn cfg clock name
          (record w { held = held })
        ≡ attempt_turn dumps path_name clock_text refuses alive new_id spawn' cfg clock name
            (record w { held = held })
  unfolding attempt_turn
  attempt_same spawn spawn' held w free (inl e) = cc (free, e)
  attempt_same spawn spawn' held w free (inr (inl e)) = rw (e, attempt_turn) refl
  attempt_same spawn spawn' held w free (inr (inr (a, e, inl p))) = rw (e, p, attempt_turn) refl
  attempt_same spawn spawn' held w free (inr (inr (a, e, inr c))) =
      rw
        (
          e,
          attempt_turn,
          wake_same spawn spawn' a (get_pending_messages_for name w.db) (record w { held = held })
              c,
        )
        refl

  -- No turn is spawned for an agent whose lock is held, that is unknown or has no project, that
  -- has no pending mail, that is not `running` or whose own process lives: what the call does then
  -- is the same whatever a spawned turn would do.
  pub process_agent_idle :
      (spawn spawn' : Spawn) (w : World)
      → NeedsNoTurn alive name w
      → process spawn w ≡ process spawn' w
  unfolding process_agent locked
  process_agent_idle spawn spawn' w h = elim (Bool-cases (is_held name w.held)) [
    | inl e ↦ rw (acquire_held name w.held e) refl
    | inr e ↦ rw (acquire_free name w.held e, attempt_same spawn spawn' (name ∷ w.held) w e h) refl
  ]

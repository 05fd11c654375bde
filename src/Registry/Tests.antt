-- ===== src/Registry/Tests.antt =====
-- The registry at a concrete table of agents.
use claude_email.Prelude.{◌≡◌, ◌≢◌, Bool, true, some, [], ◌∷◌, ℤ, pos, eqb_ℤ}
use claude_email.Db.{Db, Agent, empty_db}
use claude_email.Effect
use claude_email.Effect.{name_taken}
use claude_email.Registry.{new_agent, get_agent, register_agent}
use claude_email.Registry.Register.{register_refused_iff}

abbrev only_7 : ℤ → Bool
only_7 p = eqb_ℤ p (pos 7)

abbrev row : Agent
row = new_agent 1 "agent-p" "/p" (some (pos 7))

abbrev agents : Db
agents = record empty_db { agents = row ∷ [] }

register_refused_iff_example :
    (register_agent only_7 2 "agent-p" "/p" (some (pos 8)) agents
        ≡ Effect.raise (name_taken "agent-p" (pos 7))
      → (p : ℤ) × (a : Agent) × (some (pos 8) ≡ some p)
        × (get_agent "agent-p" agents ≡ some a)
        × (a.pid ≡ some (pos 7))
        × (pos 7 ≢ p)
        × (only_7 (pos 7) ≡ true))
    × ((p : ℤ) (a : Agent)
        → some (pos 8) ≡ some p
        → get_agent "agent-p" agents ≡ some a
        → a.pid ≡ some (pos 7)
        → pos 7 ≢ p
        → only_7 (pos 7) ≡ true
        → register_agent only_7 2 "agent-p" "/p" (some (pos 8)) agents
          ≡ Effect.raise (name_taken "agent-p" (pos 7)))
register_refused_iff_example =
    register_refused_iff only_7 2 "agent-p" "/p" (some (pos 8)) agents (pos 7)

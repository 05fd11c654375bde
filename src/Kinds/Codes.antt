-- ===== src/Kinds/Codes.antt =====
-- Envelopes that parse are answered: no handler gives a code that the table does not have.
use claude_email.Prelude.{ℕ, String, Bool, Option, none, some, ◌≡◌, ◌⊎◌, ℤ}
use claude_email.Effect.{Error, IsOther, raise}
use claude_email.Control.Cancel.{IsDenied}
use claude_email.Db.{Db, Task}
use claude_email.Json.{Json, Fields}
use claude_email.Envelope.{Envelope}
use claude_email.Envelope.Build.{Code, error_code}
use claude_email.Control.{Stop}
use claude_email.Tools.{Paths, Pool}
use claude_email.Kinds.{Route, to_agent, to_worker, broken}

abbrev pub IsAnswered : Option Json → Type 0
IsAnswered o = (j : Json) × (o ≡ some j)

abbrev pub IsCode : String → Type 0
IsCode code = (c : Code) × (error_code code ≡ some c)

-- A route that is not broken.
abbrev pub IsWhole : Route → Type 0
IsWhole (to_agent a n db) = Unit
IsWhole to_worker = Unit
IsWhole (broken e db) = ⊥

module _ (clock : String) (paths : Paths) (classify : String → Option Bool)
    (branch_name : ℕ → String → String) (strip : String → String) {Workers : Type 0}
    (pool : Pool Workers) (allowed_base : String) where
  -- The manager raises something other than a ValueError for a project.
  abbrev pub IsBroken : Workers → Type 0
  IsBroken w = (path : String) × (e : Error) × (pool.ensure_worker path w ≡ raise e) × IsOther e

  module _ (row : Task → Json) (repr : String → String) (list_projects : ℤ → Db → ℕ × Fields) where
    -- No answer, and why: the manager or a signal raised.
    abbrev pub Escapes : Stop → Workers → Option Json → Type 0
    Escapes stop w o = (o ≡ none) × (IsBroken w ⊎ IsDenied stop)

-- ===== src/Kinds/Routing.antt =====
-- Who may change the state by a JSON envelope.
use claude_email.Prelude.{
  ℕ, String, Bool, false, not, ◌&&◌, Option, str_eq, ◌≡◌, refl, Bool-cases, inl, inr, ◌⊎◌, ℤ,
}
use claude_email.Db.{Db, Task}
use claude_email.Json.{Json, Fields}
use claude_email.Envelope.{Envelope, parsed}
use claude_email.Control.{Stop}
use claude_email.Tools.{Paths, Pool}
use claude_email.Kinds.{Inbound, dispatch, answer_json}

-- The envelope has not the secret that is asked for, or is of a kind that only reads.
abbrev pub MayNotWrite : (expected : String) → Envelope → Type 0
MayNotWrite expected env =
    ((str_eq expected "" ≡ false) × (str_eq env.auth expected ≡ false))
    ⊎ ((str_eq env.kind "command" ≡ false) × (str_eq env.kind "cancel" ≡ false))

module _ (clock : String) (paths : Paths) (classify : String → Option Bool)
    (branch_name : ℕ → String → String) (strip : String → String) {Workers : Type 0}
    (pool : Pool Workers) (allowed_base : String) (row : Task → Json) (repr : String → String)
    (list_projects : ℤ → Db → ℕ × Fields) where
  dispatch-state :
      (stop : Stop) (freshness now : ℕ) (env : Envelope) (i : Inbound) (db : Db) (w : Workers)
      → str_eq env.kind "command" ≡ false
      → str_eq env.kind "cancel" ≡ false
      → (dispatch clock paths classify branch_name strip pool allowed_base row repr list_projects
          stop freshness now env i
          (db, w)).1
        ≡ (db, w)
  unfolding dispatch
  dispatch-state t freshness now env i db w a c = elim (Bool-cases (str_eq env.kind "status")) [
    | inl b ↦ rw (a, b, dispatch) refl
    | inr b ↦ elim (Bool-cases (str_eq env.kind "list_projects")) [
      | inl d ↦ rw (a, b, c, d, dispatch) refl
      | inr d ↦ rw (a, b, c, d, dispatch) refl
    ]
  ]

  -- The store and the workers are left as they are by an envelope without the shared secret, where
  -- there is one, and by every kind but `command` and `cancel`.
  pub answer_json-state :
      (expected : String) (stop : Stop) (freshness now : ℕ) (env : Envelope) (i : Inbound) (db : Db)
      (w : Workers)
      → MayNotWrite expected env
      → (answer_json clock paths classify branch_name strip pool allowed_base row repr list_projects
          expected stop freshness now
          (parsed env)
          i
          (db, w)).1
        ≡ (db, w)
  unfolding answer_json
  answer_json-state expected t freshness now env i db w (inl (a, b)) = rw (a, b, answer_json) refl
  answer_json-state expected t freshness now env i db w (inr (a, c)) =
      elim (Bool-cases (not (str_eq expected "") && not (str_eq env.auth expected))) [
        | inl e ↦ rw (e, answer_json) refl
        | inr e ↦ rw (e, answer_json) (dispatch-state t freshness now env i db w a c)
      ]

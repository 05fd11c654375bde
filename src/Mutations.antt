-- ===== src/Mutations.antt =====
-- chat/project_mutations.py: the tools that change a project's working tree. Signals, git and the
-- clock are arguments, as are paths; `git` takes the directory that it runs in.
pub mod Confirm
mod Tests
use claude_email.Prelude.{ℕ, String, Bool, true, false, Option, none, some, List, if◌then◌else◌, ℤ}
use claude_email.Effect.{Result, ok, raise, Error}
use claude_email.Db.{Tasks}
use claude_email.Tools.{Paths, Refusal, Resolution, found, refused, resolve_project, error_result}
use claude_email.Control.{Token, Stop, issue, consume, Reset, perform_reset}
use claude_email.Branch
use claude_email.Branch.{Output, commit_all, push_current_branch}

-- `str(exc)`
abbrev pub refusal_text : Refusal → String
refusal_text x = (error_result x).error

-- The dict of `reset_project_tool`.
pub data Requested : Type 0 where
  not_requested : (error : String) → Requested
  confirm_required : (confirm_token project : String) → Requested

-- The dict of `confirm_reset_tool`, or an exception.
pub data Confirmed : Type 0 where
  not_confirmed : (error : String) → Confirmed
  performed : Reset → Confirmed
  escaped : Error → Confirmed

-- The dict of `commit_project_tool`.
pub record Commit : Type 0 where
  pub sha : String
  pub project : String
  pub pushed : Bool
  pub push_error : Option String

pub data Committed : Type 0 where
  not_committed : (error : String) → Committed
  committed : Commit → Committed

module _ (paths : Paths) where
  -- `token` is the random text that `issue` draws.
  unfoldable pub reset_project_tool :
      (now ttl : ℕ) (token project allowed_base : String) → List Token → Requested × List Token
  reset_project_tool now ttl token project base tokens = elim (resolve_project paths project base) [
    | refused x ↦ (not_requested (refusal_text x), tokens)
    | found resolved ↦
        let (drawn, tokens') = issue now ttl token resolved tokens in
        (confirm_required drawn resolved, tokens')
  ]

  module _ {World : Type 0} (run_git : String → List String → World → (ℤ × String) × World) where
    -- What `perform_reset` returns; an exception of it leaves the tool.
    abbrev pub performed_by : Result Reset → Confirmed
    performed_by (ok r) = performed r
    performed_by (raise e) = escaped e

    -- what follows `consume`
    abbrev pub reset_if :
        Stop → (now : ℕ) (resolved : String) → Bool → Tasks × World → Confirmed × (Tasks × World)
    reset_if stop now resolved false s = (not_confirmed "invalid or expired confirm token", s)
    reset_if stop now resolved true s =
        let (r, s') = perform_reset (run_git resolved) stop now resolved s in (performed_by r, s')

    -- `monotonic` is the clock of the tokens, `now` that of the queue.
    unfoldable pub confirm_reset_tool :
        Stop
        → (monotonic now : ℕ) (project token allowed_base : String) → (Tasks × World) × List Token
        → Confirmed × ((Tasks × World) × List Token)
    confirm_reset_tool stop monotonic now project token base (s, tokens) =
        elim (resolve_project paths project base) [
          | refused x ↦ (not_confirmed (refusal_text x), (s, tokens))
          | found resolved ↦
              let (good, tokens') = consume monotonic resolved token tokens in
              let (answer, s') = reset_if stop now resolved good s in (answer, (s', tokens'))
        ]

  module _ {World : Type 0} (git : String → List String → World → Output × World) where
    -- the push, after a commit
    abbrev pub push_after : (resolved sha : String) → World → Committed × World
    push_after resolved sha w =
        let ((good, detail), w') = push_current_branch (git resolved) w in
        (
          committed (record {
            sha = sha;
            project = resolved;
            pushed = good;
            push_error = if good then none else some detail;
          }),
          w',
        )

    unfoldable pub commit_project_tool :
        (project message allowed_base : String) (push : Bool) → World → Committed × World
    commit_project_tool project message base push w = elim (resolve_project paths project base) [
      | refused x ↦ (not_committed (refusal_text x), w)
      | found resolved ↦
          let ((good, detail), w') = commit_all (git resolved) message w in
          elim good [
            | false ↦ (not_committed detail, w')
            | true ↦ elim push [
              | true ↦ push_after resolved detail w'
              | false ↦ (
                committed (record {
                  sha = detail;
                  project = resolved;
                  pushed = false;
                  push_error = none;
                }),
                w',
              )
            ]
          ]
    ]

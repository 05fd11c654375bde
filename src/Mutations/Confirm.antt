-- ===== src/Mutations/Confirm.antt =====
-- A reset is confirmed by the token that was drawn for it.
use claude_email.Prelude.{
  ℕ, ◌≡◌, ◌⊎◌, inl, inr, String, Bool, true, false, ◌&&◌, List, refl, ◌∙◌, ap, str_eq,
  if◌then◌else◌, ℤ,
}
use claude_email.Db.{Tasks}
use claude_email.Tools.{Paths, Refusal, Resolution, found, refused, resolve_project}
use claude_email.Control.{Token, Stop, consume, perform_reset}
use claude_email.Control.Tokens.{consume_twice}
use claude_email.Mutations.{confirm_reset_tool, reset_if, not_confirmed, refusal_text}

-- Is the other project the same directory, and is it early enough?
abbrev pub is_good : (resolved : String) (in_time : Bool) → Resolution → Bool
is_good resolved in_time (refused x) = false
is_good resolved in_time (found other) = str_eq resolved other && in_time

Resolution-cases :
    (r : Resolution) → ((x : Refusal) × (r ≡ refused x)) ⊎ ((path : String) × (r ≡ found path))
Resolution-cases (refused x) = inl (x, refl)
Resolution-cases (found path) = inr (path, refl)

module _ (paths : Paths) {World : Type 0}
    (run_git : String → List String → World → (ℤ × String) × World) (stop : Stop)
    (base token : String) where
  -- the queue and the working trees after a confirmation
  abbrev state_after :
      (monotonic now : ℕ) (project : String) → (Tasks × World) × List Token → Tasks × World
  state_after monotonic now project s =
      (confirm_reset_tool paths run_git stop monotonic now project token base s).1.0

  abbrev reset_state : (now : ℕ) (resolved : String) → Tasks × World → Tasks × World
  reset_state now resolved s = (perform_reset (run_git resolved) stop now resolved s).1

  reset_if-state :
      (now : ℕ) (resolved : String) (good : Bool) (s : Tasks × World)
      → (reset_if paths run_git stop now resolved good s).1
        ≡ (if good then reset_state now resolved s else s)
  reset_if-state now resolved true s = refl
  reset_if-state now resolved false s = refl

  -- a confirmation that found its project
  confirm-found :
      (monotonic now : ℕ) (project resolved : String) (queue : Tasks × World) (tokens : List Token)
      → resolve_project paths project base ≡ found resolved
      → let r = consume monotonic resolved token tokens in
        let s = reset_if paths run_git stop now resolved r.0 queue in
        confirm_reset_tool paths run_git stop monotonic now project token base (queue, tokens)
        ≡ (s.0, (s.1, r.1))
  unfolding confirm_reset_tool
  confirm-found monotonic now project resolved queue tokens e = rw (e, confirm_reset_tool) refl

  confirm-refused :
      (monotonic now : ℕ) (project : String) (x : Refusal) (s : (Tasks × World) × List Token)
      → resolve_project paths project base ≡ refused x
      → state_after monotonic now project s ≡ s.0
  unfolding confirm_reset_tool
  confirm-refused monotonic now project x (queue, tokens) e =
      let same : confirm_reset_tool paths run_git stop monotonic now project token base
            (queue, tokens)
          ≡ (not_confirmed (refusal_text x), (queue, tokens)) =
        rw (e, confirm_reset_tool) refl in
      ap (λ r. r.1.0) same

  state_after-found :
      (monotonic now : ℕ) (project resolved : String) (queue : Tasks × World) (tokens : List Token)
      → resolve_project paths project base ≡ found resolved
      → state_after monotonic now project (queue, tokens) ≡ (
          if (consume monotonic resolved token tokens).0
          then reset_state now resolved queue
          else queue)
  state_after-found monotonic now project resolved queue tokens e =
      ap (λ r. r.1.0) (confirm-found monotonic now project resolved queue tokens e)
      ∙ reset_if-state now resolved _ queue

  -- Once a confirmation has looked up its token, whatever it answered, no confirmation with that token
  -- changes the queue or a working tree, for whatever project and at whatever time, until the token is
  -- drawn again.
  pub confirm_reset_tool_twice :
      (monotonic now later now' : ℕ) (project other resolved : String)
      (queue queue' : Tasks × World) (tokens : List Token)
      → resolve_project paths project base ≡ found resolved
      → let tokens' =
          (confirm_reset_tool paths run_git stop monotonic now project token base
            (queue, tokens)).1.1 in
        state_after later now' other (queue', tokens') ≡ queue'
  confirm_reset_tool_twice monotonic now later now' project other resolved queue queue' tokens e =
      let gone = ap (λ r. r.1.1) (confirm-found monotonic now project resolved queue tokens e) in
      ap (λ ts. state_after later now' other (queue', ts)) gone
      ∙ elim (Resolution-cases (resolve_project paths other base)) [
        | inl (x, k) ↦ confirm-refused later now' other x (queue', _) k
        | inr (path, k) ↦
            state_after-found later now' other path queue' _ k
            ∙ ap (λ b. if b then reset_state now' path queue' else queue')
                (consume_twice monotonic later resolved path token tokens)
      ]

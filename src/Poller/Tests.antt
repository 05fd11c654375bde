-- ===== src/Poller/Tests.antt =====
-- Polls with a small cap and the real one.
use claude_email.Prelude.{String, false, List, [], ◌∷◌, ◌++◌, ◌≡◌, ◌≢◌, refl, All, arith}
use claude_email.Poller.{
  Fetched, ids, load_state, mark_processed, fetch_unseen, process_messages, poll, max_processed_ids,
  has_id,
}
use claude_email.Poller.Replay.{process_messages-fetch_unseen}

abbrev mail : String → Fetched String
mail id = record { uid = "1"; message_id = id; message = id }

abbrev log : String → List String → List String
log m seen = seen ++ m ∷ []

-- The oldest id leaves a poller with a cap of two.
oldest_leaves : mark_processed 2 "c" (load_state 2 (ids ("a" ∷ "b" ∷ []))) ≡ "b" ∷ "c" ∷ []
unfolding mark_processed load_state
oldest_leaves = refl

-- A mail that the server answers with twice in one poll is dispatched twice, and in no poll after it.
twice_in_a_poll :
    poll 2 log
      (λ s. false)
      (mail "a" ∷ [])
      (poll 2 log (λ s. false) (mail "a" ∷ mail "a" ∷ []) ([], []))
    ≡ ("a" ∷ "a" ∷ [], "a" ∷ [])
unfolding poll
twice_in_a_poll = refl

not_before :
    has_id (process_messages max_processed_ids log (λ s. false) (mail "a" ∷ []) ([], [])).1 "b"
    ≡ false
unfolding process_messages
not_before = refl

process_messages-fetch_unseen_example :
    All
      (λ a. a.message_id ≢ "b")
      (fetch_unseen
        (process_messages max_processed_ids log
          (λ s. false)
          (mail "a" ∷ mail "b" ∷ mail "c" ∷ [])
          ([], [])).1
        (mail "b" ∷ mail "d" ∷ []))
process_messages-fetch_unseen_example =
    process_messages-fetch_unseen log (mail "a" ∷ []) (mail "b") (mail "c" ∷ []) [] []
      (mail "b" ∷ mail "d" ∷ []) (λ e. cc) not_before (omega arith)

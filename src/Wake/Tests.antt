-- ===== src/Wake/Tests.antt =====
-- The wake watcher's helpers at concrete values.
use claude_email.Prelude.{String, true, false, none, some, List, [], ◌∷◌, ◌≡◌, refl}
use claude_email.Wake.{Cached, Failures, try_acquire, cache_get, should_escalate, record_failure}

abbrev held : List String
held = "agent-q" ∷ []

abbrev counts : List Failures
counts = record { name = "agent-p"; number = 2 } ∷ []

abbrev cache : List Cached
cache = record { name = "agent-p"; session_id = "s0"; at = 1 } ∷ []

taken : try_acquire "agent-q" held ≡ (false, held)
unfolding try_acquire
taken = refl

third : should_escalate 3 "agent-p" (record_failure "agent-p" counts) ≡ true
unfolding should_escalate record_failure
third = refl

fresh : cache_get 60 30 "agent-p" cache ≡ (some "s0", cache)
unfolding cache_get
fresh = refl

-- An expired session is dropped.
expired : cache_get 60 90 "agent-p" cache ≡ (none, [])
unfolding cache_get
expired = refl

-- ===== src/Wake/Laws.antt =====
-- One turn at a time for each agent; a session lives until it is idle; failures in a row add up.
use claude_email.Prelude.{
  ℕ, zero, suc, ◌+◌, ◌≡◌, ◌≢◌, String, Bool, true, false, not, Option, none, some, List, [], ◌∷◌,
  ltb, leb, str_eq, any, arith, refl, sym, ◌∙◌, ap, eq_iff, eq_refl, Option-cases, Bool-cases, inl,
  inr, if◌then◌else◌,
}
use claude_email.Table.{delete}
use claude_email.Table.Keys.{keyed, row_of, upsert, merged, row_of-upsert, row_of-upsert_ne}
use claude_email.Wake.{
  try_acquire, release, Cached, cached_name, cache_get, cache_set, Failures, failures_name,
  number_of, count, record_failure, record_success, should_escalate,
}

abbrev pub is_held : String → List String → Bool
is_held name held = any (str_eq name) held

pub held-release : (name : String) (held : List String) → is_held name (release name held) ≡ false
unfolding release
held-release name [] = refl
held-release name (x ∷ xs) = ground (arith, held-release name xs)

held-release_ne :
    (name other : String) (held : List String)
    → other ≢ name
    → is_held other (release name held) ≡ is_held other held
unfolding release
held-release_ne name other [] n = refl
held-release_ne name other (x ∷ xs) n =
    ground (arith, eq_iff name x, eq_iff other x, held-release_ne name other xs n)

pub acquire_held :
    (name : String) (held : List String)
    → is_held name held ≡ true
    → try_acquire name held ≡ (false, held)
unfolding try_acquire
acquire_held name held e = rw (e, try_acquire) refl

pub acquire_free :
    (name : String) (held : List String)
    → is_held name held ≡ false
    → try_acquire name held ≡ (true, name ∷ held)
unfolding try_acquire
acquire_free name held e = rw (e, try_acquire) refl

free_again : (name : String) (held : List String) → (try_acquire name (release name held)).0 ≡ true
free_again name held =
    ap (λ r. r.0) (acquire_free name (release name held) (held-release name held))

held_first : (name : String) (held : List String) → is_held name (name ∷ held) ≡ true
held_first name held = rw (eq_refl name) refl

held_other :
    (name other : String) (held : List String)
    → other ≢ name
    → is_held other (name ∷ held) ≡ is_held other held
held_other name other held n = ground (arith, eq_iff other name)

-- An attempt at the lock of an agent succeeds exactly if it is not held, and leaves it held, so that
-- the next attempt fails; after a release it is free; and neither changes another agent's lock.
pub try_acquire_lem :
    (name : String) (held : List String)
    → let (got, held') = try_acquire name held in
      (got ≡ not (is_held name held))
      × ((try_acquire name held').0 ≡ false)
      × ((try_acquire name (release name held')).0 ≡ true)
      × ((other : String)
          → other ≢ name
          → (is_held other held' ≡ is_held other held)
            × (is_held other (release name held') ≡ is_held other held))
try_acquire_lem name held = elim (Bool-cases (is_held name held)) [
  | inl e ↦
      let q = acquire_held name held e in
      rw (q, e)
        (
          refl,
          ap (λ r. r.0) q,
          free_again name held,
          λ other n. (refl, held-release_ne name other held n),
        )
  | inr e ↦
      let q = acquire_free name held e in
      rw (q, e)
        (
          refl,
          ap (λ r. r.0) (acquire_held name (name ∷ held) (held_first name held)),
          free_again name (name ∷ held),
          λ other n. (
            held_other name other held n,
            held-release_ne name other (name ∷ held) n ∙ held_other name other held n,
          ),
        )
]

unfoldable pub fail_times : ℕ → String → List Failures → List Failures
fail_times zero name counts = counts
fail_times (suc k) name counts = record_failure name (fail_times k name counts)

number_of-merged :
    (name : String) (o : Option Failures)
    → number_of (
        some (
          merged failures_name
            (record { name = name; number = 1 })
            (λ f. record f { number = suc f.number })
            o))
      ≡ suc (number_of o)
number_of-merged name none = refl
number_of-merged name (some f) = refl

count-success :
    (name : String) (counts : List Failures)
    → row_of failures_name name (delete (keyed failures_name name) counts) ≡ none
count-success name [] = refl
count-success name (f ∷ fs) = ground (arith, count-success name fs)

count-fail_times :
    (k : ℕ) (name : String) (counts : List Failures)
    → count name (fail_times k name (record_success name counts)) ≡ k
unfolding count fail_times record_failure record_success
count-fail_times zero name counts = ap number_of (count-success name counts)
count-fail_times (suc k) name counts =
    ap number_of (
      row_of-upsert failures_name name (record { name = name; number = 1 })
        (λ f. record f { number = suc f.number }) (fail_times k name (record_success name counts))
        (λ f. refl) refl)
    ∙ number_of-merged name
        (row_of failures_name name (fail_times k name (record_success name counts)))
    ∙ ap suc (count-fail_times k name counts)

-- After a success and then `k` failures in a row, an agent's errors are escalated exactly if `k` has
-- reached the maximum.
pub should_escalate_lem :
    (max k : ℕ) (name : String) (counts : List Failures)
    → should_escalate max name (fail_times k name (record_success name counts)) ≡ leb max k
unfolding should_escalate
should_escalate_lem max k name counts = ap (leb max) (count-fail_times k name counts)

-- What the cache answers for the item of a name.
abbrev pub fresh_session : (idle now : ℕ) → Option Cached → Option String
fresh_session idle now none = none
fresh_session idle now (some c) = if ltb (c.at + idle) now then none else some c.session_id

cache_get_lem :
    (idle now : ℕ) (name : String) (cache : List Cached)
    → (cache_get idle now name cache).0 ≡ fresh_session idle now (row_of cached_name name cache)
unfolding cache_get
cache_get_lem idle now name cache = elim (Option-cases (row_of cached_name name cache)) [
  | inl e ↦ rw (e, cache_get) refl
  | inr (c, e) ↦ elim (Bool-cases (ltb (c.at + idle) now)) [
    | inl b ↦ rw (e, cache_get, b) refl
    | inr b ↦ rw (e, cache_get, b) refl
  ]
]

fresh_session-merged :
    (idle now later : ℕ) (name session : String) (o : Option Cached)
    → fresh_session idle later (
        some (
          merged cached_name
            (record { name = name; session_id = session; at = now })
            (λ c. record c { session_id = session; at = now })
            o))
      ≡ (if ltb (now + idle) later then none else some session)
fresh_session-merged idle now later name session none = refl
fresh_session-merged idle now later name session (some c) = refl

-- A session that was set at `now` is found until `idle` has passed, and None from then on; the
-- sessions of other agents are found as before.
pub cache_get-set :
    (idle now later : ℕ) (name session : String) (cache : List Cached)
    → let cache' = cache_set now name session cache in
      ((cache_get idle later name cache').0
        ≡ (if ltb (now + idle) later then none else some session))
      × ((other : String)
          → other ≢ name
          → (cache_get idle later other cache').0 ≡ (cache_get idle later other cache).0)
unfolding cache_set
cache_get-set idle now later name session cache =
    let fresh : Cached = record { name = name; session_id = session; at = now } in
    let again : Cached → Cached = λ c. record c { session_id = session; at = now } in
    let cache' = upsert cached_name name fresh again cache in
    (
      cache_get_lem idle later name cache'
          ∙ ap (fresh_session idle later)
              (row_of-upsert cached_name name fresh again cache (λ c. refl) refl)
          ∙ fresh_session-merged idle now later name session (row_of cached_name name cache),
      λ other n.
          cache_get_lem idle later other cache'
          ∙ ap (fresh_session idle later)
              (row_of-upsert_ne cached_name other name fresh again cache n (λ c. refl) refl)
          ∙ sym (cache_get_lem idle later other cache),
    )

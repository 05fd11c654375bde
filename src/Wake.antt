-- ===== src/Wake.antt =====
-- src/wake_helpers.py: the locks, the cache of sessions and the failures of the wake watcher. Times
-- are those of the injected clock, in microseconds.
pub mod Laws
mod Tests
use claude_email.Prelude.{
  ℕ, suc, ◌+◌, String, Bool, true, false, Option, none, some, List, [], ◌∷◌, ltb, leb, str_eq, any,
  if◌then◌else◌, ℤ, pos, negsuc, eqb_ℤ, not, ◌&&◌,
}
use claude_email.Table.{delete}
use claude_email.Table.Keys.{keyed, row_of, upsert}
use claude_email.Db.{Agent, WakeSession}

-- `bool(pid) and is_alive(pid)`
unfoldable pub has_live_owner : (alive : ℤ → Bool) → Agent → Bool
has_live_owner alive a = elim a.pid [ none ↦ false | some p ↦ not (eqb_ℤ p (pos 0)) && alive p ]

unfoldable pub is_session_fresh : (now idle : ℕ) → WakeSession → Bool
is_session_fresh now idle persisted = leb now (persisted.last_turn_at + idle)

-- `_held`, the set of the names that are locked
unfoldable pub try_acquire : String → List String → Bool × List String
try_acquire name held = if any (str_eq name) held then (false, held) else (true, name ∷ held)

unfoldable pub release : String → List String → List String
release name held = delete (str_eq name) held

-- An item of `_data`.
pub record Cached : Type 0 where
  pub name : String
  pub session_id : String
  pub at : ℕ

abbrev pub cached_name : Cached → String
cached_name c = c.name

unfoldable pub cache_get : (idle now : ℕ) → String → List Cached → Option String × List Cached
cache_get idle now name sessions = elim (row_of cached_name name sessions) [
  | none ↦ (none, sessions)
  | some c ↦
      if ltb (c.at + idle) now
      then (none, delete (keyed cached_name name) sessions)
      else (some c.session_id, sessions)
]

unfoldable pub cache_set : (now : ℕ) (name session_id : String) → List Cached → List Cached
cache_set now name session sessions =
    upsert cached_name name (record { name = name; session_id = session; at = now })
      (λ c. record c { session_id = session; at = now }) sessions

-- An item of `_counts`, and one of `_last_notified`.
pub record Failures : Type 0 where
  pub name : String
  pub number : ℕ

pub record Notified : Type 0 where
  pub name : String
  pub at : ℕ

abbrev pub failures_name : Failures → String
failures_name f = f.name

abbrev pub notified_name : Notified → String
notified_name n = n.name

abbrev pub number_of : Option Failures → ℕ
number_of none = 0
number_of (some f) = f.number

unfoldable pub count : String → List Failures → ℕ
count name counts = number_of (row_of failures_name name counts)

unfoldable pub record_failure : String → List Failures → List Failures
record_failure name counts =
    upsert failures_name name (record { name = name; number = 1 })
      (λ f. record f { number = suc f.number }) counts

unfoldable pub record_success : String → List Failures → List Failures
record_success name counts = delete (keyed failures_name name) counts

unfoldable pub should_escalate : (max_failures : ℕ) → String → List Failures → Bool
unfolding count
should_escalate max name counts = leb max (count name counts)

unfoldable pub can_notify : (rate now : ℕ) → String → List Notified → Bool
can_notify rate now name last = elim (row_of notified_name name last) [
  | none ↦ true
  | some n ↦ leb (n.at + rate) now
]

unfoldable pub mark_notified : (now : ℕ) → String → List Notified → List Notified
mark_notified now name last =
    upsert notified_name name (record { name = name; at = now }) (λ n. record n { at = now }) last

-- ===== src/Stores/Upsert.antt =====
-- The stores of sent mail and of wake sessions: what a write leaves under each key.
use mathlib.Core.Option
use claude_email.Prelude.{
  Option, ap, ◌∙◌, if◌then◌else◌, ℕ, ◌≡◌, ◌≢◌, String, true, false, none, some, List, [], ◌∷◌,
  arith, refl, str_eq, eq_iff,
}
use claude_email.Table.{delete}
use claude_email.Table.Keys.{keyed, row_of, merged, row_of-upsert, row_of-upsert_ne}
use claude_email.Db.{Db, OutboundEmail, WakeSession}
use claude_email.Effect
use claude_email.Stores.{
  Sent, new_email, merge_email, eid_of, task_known, written_task, put_email, record_outbound_email,
  find_outbound_email, agent_of, get_wake_session, upsert_wake_session, delete_wake_session,
}

found :
    (a b : List OutboundEmail) (j : String)
    → row_of eid_of j a ≡ row_of eid_of j b
    → (if str_eq j "" then none else row_of eid_of j a)
      ≡ (if str_eq j "" then none else row_of eid_of j b)
found a b j e = ap (λ o. if str_eq j "" then none else o) e

-- A sent mail with an id and with a task that is known, if it writes one, is recorded, and found
-- under its id: as a new row, or as the row of before, in which only a task, body or parent that
-- was NULL has been filled in. What is found under every other id is what was.
pub record_find_email :
    (now : ℕ) (eid : String) (m : Sent) (db : Db)
    → str_eq eid "" ≡ false
    → task_known (written_task m.task_id (find_outbound_email eid db)) db ≡ true
    → (db' : Db) × (record_outbound_email now eid m db ≡ Effect.ok (tt, db'))
      × (find_outbound_email eid db'
          ≡ some (merged eid_of (new_email now eid m) (merge_email m) (find_outbound_email eid db)))
      × ((j : String) → j ≢ eid → find_outbound_email j db' ≡ find_outbound_email j db)
unfolding record_outbound_email find_outbound_email
record_find_email now eid m db h k =
    let rows = db.outbound_emails in
    let fresh = new_email now eid m in
    let known : task_known (written_task m.task_id (row_of eid_of eid rows)) db ≡ true =
      ground arith in
    (
      put_email now eid m db,
      rw (h, known, record_outbound_email) refl,
      rw h (row_of-upsert eid_of eid fresh (merge_email m) rows (λ r. refl) refl),
      λ j n.
          found _ _ j (row_of-upsert_ne eid_of j eid fresh (merge_email m) rows n (λ r. refl) refl),
    )

delete_same :
    (name : String) (rows : List WakeSession)
    → row_of agent_of name (delete (keyed agent_of name) rows) ≡ none
delete_same name [] = refl
delete_same name (x ∷ xs) = ground (arith, delete_same name xs)

delete_other :
    (j name : String) (rows : List WakeSession)
    → j ≢ name
    → row_of agent_of j (delete (keyed agent_of name) rows) ≡ row_of agent_of j rows
delete_other j name [] n = refl
delete_other j name (x ∷ xs) n =
    ground (arith, eq_iff x.agent_name j, eq_iff x.agent_name name, delete_other j name xs n)

-- The session of a row, and its last turn.
abbrev pub session_of : WakeSession → String × ℕ
session_of r = (r.session_id, r.last_turn_at)

abbrev fresh_session : ℕ → String → String → WakeSession
fresh_session now name session = record {
  agent_name = name;
  session_id = session;
  last_turn_at = now;
}

abbrev next_turn : ℕ → String → WakeSession → WakeSession
next_turn now session r = record r { session_id = session; last_turn_at = now }

session_of-merged :
    (now : ℕ) (name session : String) (o : Option WakeSession)
    → session_of (merged agent_of (fresh_session now name session) (next_turn now session) o)
      ≡ (session, now)
session_of-merged now name session none = refl
session_of-merged now name session (some r) = refl

-- After an upsert the session of the agent is the one given, with the time of the call; after a
-- deletion the agent has none; and neither changes the session of another agent.
pub wake_session_lem :
    (now : ℕ) (name session : String) (db : Db)
    → let up = upsert_wake_session now name session db in
      let down = delete_wake_session name db in
      (Option.map session_of (get_wake_session name up) ≡ some (session, now))
      × (get_wake_session name down ≡ none)
      × ((j : String)
          → j ≢ name
          → (get_wake_session j up ≡ get_wake_session j db)
            × (get_wake_session j down ≡ get_wake_session j db))
unfolding get_wake_session upsert_wake_session delete_wake_session
wake_session_lem now name session db =
    let rows = db.wake_sessions in
    let fresh = fresh_session now name session in
    (
      ap (Option.map session_of)
            (row_of-upsert agent_of name fresh (next_turn now session) rows (λ r. refl) refl)
          ∙ ap some (session_of-merged now name session (row_of agent_of name rows)),
      delete_same name rows,
      λ j n. (
        row_of-upsert_ne agent_of j name fresh (next_turn now session) rows n (λ r. refl) refl,
        delete_other j name rows n,
      ),
    )

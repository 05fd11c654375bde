-- ===== src/Watcher.antt =====
-- src/wake_watcher.py and build_wake_cmd of src/wake_spawn.py: one turn of an agent that has mail. The
-- state is the database and what the watcher keeps: locks, sessions, failures and notices. The spawned
-- turn, during which the rest of the program runs, is an argument that may change all of it.
pub mod Locks
pub mod Escalation
mod Tests
use claude_email.Prelude.{
  suc, ◌+◌, ℕ, String, Bool, true, false, not, ◌&&◌, ◌||◌, Option, none, some, List, [], ◌∷◌,
  str_eq, any, if◌then◌else◌, ◌<+>◌, show_ℕ, show_ℤ, ℤ, pos, eqb_ℤ, length,
}
use claude_email.Effect.{Result, ok, raise}
use claude_email.Json.{Json}
use claude_email.Db.{Db, Message, Agent}
use claude_email.Bus.{
  get_pending_messages_for, get_distinct_pending_recipients, mark_message_failed, insert_message,
  clear_status_dedup_for_project, log_event, Draft, has_id,
}
use claude_email.Registry.{get_agent}
use claude_email.Stores.{get_wake_session, upsert_wake_session, delete_wake_session}
use claude_email.Status.{emit_stalled_for_project}
use claude_email.Wake.{
  Cached, Failures, Notified, try_acquire, release, cache_get, cache_set, has_live_owner,
  is_session_fresh, count, record_failure, record_success, should_escalate, can_notify,
  mark_notified,
}

pub record World : Type 0 where
  pub db : Db
  pub held : List String
  pub sessions : List Cached
  pub counts : List Failures
  pub notified : List Notified

pub record WakeTurnResult : Type 0 where
  pub exit_code : ℤ
  pub timed_out : Bool
  pub error : Option String

-- What `spawn_fn` does: it returns, or an exception leaves it.
pub data Spawned : Type 0 where
  finished : WakeTurnResult → Spawned
  crashed : Spawned

-- How `process_agent` ends.
pub data Ending : Type 0 where
  returned : Ending
  raised : Ending

pub record WakeWatcherConfig : Type 0 where
  pub idle_expiry : ℕ
  pub max_failures : ℕ
  pub rate_limit : ℕ
  pub claude_bin : String
  pub prompt : String
  pub user_avatar : String

-- The clock is read as `before` until the turn is spawned, and as `after` from its end on.
pub record Clock : Type 0 where
  pub before : ℕ
  pub after : ℕ

abbrev pub build_wake_cmd :
    (claude_bin session_id : String) (is_resume : Bool) (prompt : String) → List String
build_wake_cmd claude_bin session_id is_resume prompt =
    claude_bin
    ∷ "--print"
    ∷ (if is_resume then "--resume" else "--session-id")
    ∷ session_id
    ∷ prompt
    ∷ []

abbrev pub show_Bool : Bool → String
show_Bool b = if b then "True" else "False"

abbrev pub or_none_text : Option String → String
or_none_text none = "None"
or_none_text (some s) = s

-- for m in pending: db.mark_message_failed(m["id"])
unfoldable pub fail_all : List Message → Db → Db
fail_all [] db = db
fail_all (m ∷ ms) db = fail_all ms (mark_message_failed m.id db)

abbrev pub escalation_body : (agent path : String) (stuck : ℕ) → WakeTurnResult → String
escalation_body agent path stuck r =
    "[wake-watcher] persistent spawn failure\nagent: "
    <+> agent
    <+> "\nproject: "
    <+> path
    <+> "\nstuck messages: "
    <+> show_ℕ stuck
    <+> "\nlast error: exit="
    <+> show_ℤ r.exit_code
    <+> " timeout="
    <+> show_Bool r.timed_out
    <+> " error="
    <+> or_none_text r.error

abbrev pub notice : (user_avatar body : String) → Draft
notice user_avatar body = record {
  from_name = "wake-watcher";
  to_name = user_avatar;
  body = body;
  msg_type = "notify";
  in_reply_to = none;
  content_type = "";
  task_id = none;
  in_reply_to_eid = "";
  email_message_id = "";
}

abbrev pub ids_subset : List Message → List Message → Bool
ids_subset [] ms = true
ids_subset (x ∷ xs) ms = any (has_id x.id) ms && ids_subset xs ms

-- `refuses k` is whether SQLite raises in the transaction number `k` of `_handle_failure`.
module _ (dumps : Json → String) (path_name : String → String) (clock_text : String)
    (refuses : ℕ → Bool) where
  -- an exception of `emit_stalled_for_project` is swallowed there
  abbrev pub stalled : (now : ℕ) (path : String) (failures : ℕ) → Db → Db
  stalled now path n db =
      if refuses 0
      then db
      else (emit_stalled_for_project dumps path_name clock_text now path
          ("wake turn failed (" <+> show_ℕ n <+> "x)") db).1

  -- the loop over the stuck messages, from the transaction number `k` on
  unfoldable pub fail_stuck : (k : ℕ) → List Message → Db → Ending × Db
  fail_stuck k [] db = (returned, db)
  fail_stuck k (m ∷ ms) db = elim (refuses k) [
    | true ↦ (raised, db)
    | false ↦ fail_stuck (suc k) ms (mark_message_failed m.id db)
  ]

  -- the part of `_handle_failure` behind its two guards, as the transaction number `k`
  unfoldable pub notify_user :
      WakeWatcherConfig → (k now : ℕ) → (body name : String) → World → Ending × World
  notify_user cfg k now body name w = elim (refuses k) [
    | true ↦ (raised, w)
    | false ↦ elim (insert_message now (notice cfg.user_avatar body) w.db) [
      | ok (_, db') ↦
          (returned, record w { db = db'; notified = mark_notified now name w.notified })
      | raise e ↦ (raised, w)
    ]
  ]

  -- what follows the loop over the stuck messages
  unfoldable pub after_stuck :
      WakeWatcherConfig
      → (now stuck : ℕ) (name path : String) → WakeTurnResult
      → Ending
      → World
      → Ending × World
  unfolding notify_user
  after_stuck cfg now stuck name path r raised w = (raised, w)
  after_stuck cfg now stuck name path r returned w =
      let told = notify_user cfg (stuck + 2) now (escalation_body name path stuck r) name w in
      if can_notify cfg.rate_limit now name w.notified then told else (returned, w)

  unfoldable pub escalate :
      WakeWatcherConfig → (now : ℕ) (name path : String) → WakeTurnResult → World → Ending × World
  unfolding fail_stuck after_stuck
  escalate cfg now name path r w =
      let stuck = get_pending_messages_for name w.db in
      let (e, db') = fail_stuck 2 stuck w.db in
      let ended = after_stuck cfg now (length stuck) name path r e (record w { db = db' }) in
      if refuses 1 then (raised, w) else ended

  unfoldable pub handle_failure :
      WakeWatcherConfig → (now : ℕ) (name path : String) → WakeTurnResult → World → Ending × World
  unfolding escalate
  handle_failure cfg now name path r w =
      let counts = record_failure name w.counts in
      let w' = record w { counts = counts; db = stalled now path (count name counts) w.db } in
      let escalated = escalate cfg now name path r w' in
      if should_escalate cfg.max_failures name counts then escalated else (returned, w')

  abbrev pub stall : ℕ → WakeTurnResult
  stall n = record {
    exit_code = pos 0;
    timed_out = false;
    error = some ("no progress (" <+> show_ℕ n <+> " stuck)");
  }

  -- after a turn that ended with 0
  unfoldable pub settle_success :
      WakeWatcherConfig
      → (now : ℕ) (name path session : String) → (before : List Message) → World
      → Ending × World
  unfolding handle_failure
  settle_success cfg now name path session before w =
      let w' = record w {
        sessions = cache_set now name session w.sessions;
        db = upsert_wake_session now name session w.db;
      } in
      if ids_subset before (get_pending_messages_for name w'.db)
      then handle_failure cfg now name path (stall (length before)) w'
      else (
        returned,
        record w' {
          counts = record_success name w'.counts;
          db = clear_status_dedup_for_project path w'.db;
        },
      )

  unfoldable pub settle_turn :
      WakeWatcherConfig
      → (now : ℕ) (name path session : String) → (before : List Message) → Spawned
      → World
      → Ending × World
  unfolding settle_success handle_failure
  settle_turn cfg now name path session before crashed w = (raised, w)
  settle_turn cfg now name path session before (finished r) w =
      let summary = "exit=" <+> show_ℤ r.exit_code <+> " timeout=" <+> show_Bool r.timed_out in
      let w' = record w { db = log_event now name "wake_spawn_end" summary w.db } in
      if eqb_ℤ r.exit_code (pos 0)
      then settle_success cfg now name path session before w'
      else handle_failure cfg now name path r w'

  -- The session to resume, from the cache or the store, which may drop an expired one.
  unfoldable pub find_session : (idle now : ℕ) → String → World → Option String × World
  find_session idle now name w =
      let (cached, sessions) = cache_get idle now name w.sessions in
      let w' = record w { sessions = sessions } in
      elim cached [
        | some s ↦ (some s, w')
        | none ↦ elim (get_wake_session name w.db) [
          | none ↦ (none, w')
          | some p ↦
              if is_session_fresh now idle p
              then (some p.session_id, w')
              else (none, record w' { db = delete_wake_session name w.db })
        ]
      ]

  module _ (alive : ℤ → Bool) (new_id : String)
      (spawn : List String → (cwd : String) → World → Spawned × World) where
    abbrev pub session_or_new : Option String → String
    session_or_new none = new_id
    session_or_new (some s) = if str_eq s "" then new_id else s

    abbrev pub is_resume : Option String → Bool
    is_resume none = false
    is_resume (some s) = true

    unfoldable pub drive_turn :
        WakeWatcherConfig → Clock → (name path : String) → List Message → World → Ending × World
    unfolding find_session settle_turn
    drive_turn cfg clock name path before w =
        let (cached, w₁) = find_session cfg.idle_expiry clock.before name w in
        let session = session_or_new cached in
        let cmd = build_wake_cmd cfg.claude_bin session (is_resume cached) cfg.prompt in
        let summary =
          "resume=" <+> show_Bool (is_resume cached) <+> " pending=" <+> show_ℕ (length before) in
        let w₂ = record w₁ { db = log_event clock.before name "wake_spawn_start" summary w₁.db } in
        let (spawned, w₃) = spawn cmd path w₂ in
        settle_turn cfg clock.after name path session before spawned w₃

    -- what follows the look-up of a registered agent's pending mail
    unfoldable pub wake_agent :
        WakeWatcherConfig → Clock → String → Agent → List Message → World → Ending × World
    unfolding drive_turn fail_all
    wake_agent cfg clock name a [] w = (returned, w)
    wake_agent cfg clock name a (m ∷ ms) w =
        let driven = drive_turn cfg clock name a.project_path (m ∷ ms) w in
        if not (str_eq a.status "running")
        then (returned, record w { db = fail_all (m ∷ ms) w.db })
        else if has_live_owner alive a
        then (returned, w)
        else driven

    -- the `try`
    unfoldable pub attempt_turn : WakeWatcherConfig → Clock → String → World → Ending × World
    unfolding wake_agent
    attempt_turn cfg clock name w = elim (get_agent name w.db) [
      | none ↦ (returned, w)
      | some a ↦
          let woken = wake_agent cfg clock name a (get_pending_messages_for name w.db) w in
          if str_eq a.project_path "" then (returned, w) else woken
    ]

    -- the `finally`
    abbrev pub unlock : String → Ending × World → Ending × World
    unlock name (e, w) = (e, record w { held = release name w.held })

    unfoldable pub locked :
        WakeWatcherConfig → Clock → String → Bool × List String → World → Ending × World
    unfolding attempt_turn
    locked cfg clock name (false, held) w = (returned, w)
    locked cfg clock name (true, held) w =
        unlock name (attempt_turn cfg clock name (record w { held = held }))

    unfoldable pub process_agent : WakeWatcherConfig → Clock → String → World → Ending × World
    unfolding locked
    process_agent cfg clock name w = locked cfg clock name (try_acquire name w.held) w

    -- A pass of `run_wake_watcher`, in an order in which `asyncio.gather` may end the turns.
    unfoldable pub process_all : WakeWatcherConfig → Clock → List String → World → World
    unfolding process_agent
    process_all cfg clock [] w = w
    process_all cfg clock (r ∷ rs) w = process_all cfg clock rs (process_agent cfg clock r w).1

    abbrev pub others : String → List String → List String
    others user [] = []
    others user (r ∷ rs) = let rest = others user rs in if str_eq r user then rest else r ∷ rest

    unfoldable pub watcher_pass : WakeWatcherConfig → Clock → World → World
    unfolding process_all
    watcher_pass cfg clock w =
        process_all cfg clock (others cfg.user_avatar (get_distinct_pending_recipients w.db)) w

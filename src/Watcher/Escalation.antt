-- ===== src/Watcher/Escalation.antt =====
-- What a failed turn does: it is counted, and from the maximum on the agent's mail is given up.
use claude_email.Prelude.{
  ℕ, suc, ◌+◌, Bool, String, true, false, Option, none, some, List, [], ◌∷◌, ◌++◌, str_eq, any,
  if◌then◌else◌, ◌≡◌, ◌≢◌, refl, sym, ap, ◌∙◌, subst, arith, eq_iff, Bool-cases, Option-cases, inl,
  inr, ◌⊎◌, In, ==_refl, head?, length,
}
use claude_email.Table.{select, update, In-select, select-In, any-In, order_by}
use claude_email.Table.Order.{order_by-In}
use claude_email.Effect.{ok}
use claude_email.Json.{Json}
use claude_email.Db.{Db, Message, MessageStatus}
use claude_email.Bus.{
  get_pending_messages_for, mark_message_failed, insert_message, pending_for, has_id, by_id,
  emit_status_message, send_status, task_has_id, holds, log_event,
}
use claude_email.Queue.{get_running}
use claude_email.Status.{emit_stalled_for_project, emit_status, emit_for, was_sent, StatusMail}
use claude_email.Wake.{count, record_failure, should_escalate, can_notify}
use claude_email.Watcher.{
  World, WakeTurnResult, WakeWatcherConfig, Ending, returned, raised, fail_all, fail_stuck,
  after_stuck, notify_user, escalate, handle_failure, stalled, notice, escalation_body,
}

In-failed :
    (name : String) (n : ℕ) (m : Message) (ms : List Message)
    → In m (update (has_id n) (λ m. record m { status = MessageStatus.failed }) ms)
    → pending_for name m ≡ true
    → In m ms × (has_id n m ≡ false)
In-failed name n m [] i h = elim i [ ]
In-failed name n m (x ∷ xs) i h = ground (arith, In-failed name n m xs)

In-fail_all :
    (name : String) (stuck : List Message) (m : Message) (db : Db)
    → In m (fail_all stuck db).messages
    → pending_for name m ≡ true
    → In m db.messages × (any (has_id m.id) stuck ≡ false)
unfolding fail_all mark_message_failed
In-fail_all name [] m db i h = (i, refl)
In-fail_all name (s ∷ ss) m db i h =
    let (j, k) = In-fail_all name ss m (mark_message_failed s.id db) i h in
    let (l, d) = In-failed name s.id m db.messages j h in (l, ground arith)

none_In : (xs : List Message) → ((m : Message) → In m xs → ⊥) → xs ≡ []
none_In [] h = refl
none_In (x ∷ xs) h = elim (h x (inl refl)) [ ]

-- Every pending row of the agent is among the rows that are marked.
fail_all-pending :
    (name : String) (db : Db)
    → get_pending_messages_for name (fail_all (get_pending_messages_for name db) db) ≡ []
unfolding get_pending_messages_for
fail_all-pending name db =
    let stuck = order_by by_id (select (pending_for name) db.messages) in
    let rows = (fail_all stuck db).messages in
    ap (order_by by_id) (
      none_In (select (pending_for name) rows) (λ m i.
        let (j, p) = In-select (pending_for name) m rows i in
        let (k, e) = In-fail_all name stuck m db j p in
        let l =
          order_by-In by_id m (select (pending_for name) db.messages)
            (select-In (pending_for name) m db.messages k p) in
        cc (any-In (has_id m.id) m stuck l (==_refl m.id), e)))

select-append_other :
    (name : String) (m : Message) (ms : List Message)
    → m.to_name ≢ name
    → select (pending_for name) (ms ++ m ∷ []) ≡ select (pending_for name) ms
select-append_other name m [] n = ground (arith, eq_iff m.to_name name)
select-append_other name m (x ∷ xs) n = ground (arith, select-append_other name m xs n)

-- The messages of the second database are those of the first, and perhaps one for the recipient.
abbrev pub AddsFor : String → Db → Db → Type 0
AddsFor to db db' =
    (db'.messages ≡ db.messages)
    ⊎ ((m : Message) × (db'.messages ≡ db.messages ++ m ∷ []) × (m.to_name ≡ to))

AddsFor-pending :
    (to name : String) (db db' : Db)
    → AddsFor to db db'
    → to ≢ name
    → get_pending_messages_for name db' ≡ get_pending_messages_for name db
unfolding get_pending_messages_for
AddsFor-pending to name db db' (inl e) n =
    ap (λ ms. order_by by_id (select (pending_for name) ms)) e
AddsFor-pending to name db db' (inr (m, e, t)) n =
    ap (λ ms. order_by by_id (select (pending_for name) ms)) e
    ∙ ap (order_by by_id) (select-append_other name m db.messages (λ q. n (sym t ∙ q)))

emit_status_message-AddsFor :
    (now n : ℕ) (status agent body ct : String) (db : Db)
    → AddsFor "user" db (emit_status_message now n status agent body ct db).1
unfolding emit_status_message send_status log_event
emit_status_message-AddsFor now n status agent body ct db =
    elim (Option-cases (head? (select (task_has_id n) db.tasks.rows))) [
      | inl e ↦ rw (e, emit_status_message) (inl refl)
      | inr (t, e) ↦ elim (Bool-cases (holds (λ s. str_eq s status) t.last_sent_status)) [
        | inl b ↦ rw (e, emit_status_message, b) (inl refl)
        | inr b ↦ rw (e, emit_status_message, b) (inr (_, refl, refl))
      ]
    ]

insert_message-AddsFor :
    (now : ℕ) (to body : String) (db : Db)
    → (m : Message) × (db' : Db) × (insert_message now (notice to body) db ≡ ok (m, db'))
      × AddsFor to db db'
unfolding insert_message log_event
insert_message-AddsFor now to body db = (_, _, refl, inr (_, refl, refl))

was_sent-db : (r : Option Message × Db) → (was_sent r).1 ≡ r.1
was_sent-db (none, db) = refl
was_sent-db (some m, db) = refl

emit_for-AddsFor :
    (now n : ℕ) (status : String) (o : Option StatusMail) (db : Db)
    → AddsFor "user" db (emit_for now n status o db).1
unfolding emit_for
emit_for-AddsFor now n status none db = inl refl
emit_for-AddsFor now n status (some m) db =
    subst (AddsFor "user" db)
      (sym (was_sent-db (emit_status_message now n status m.from_name m.body m.content_type db)))
      (emit_status_message-AddsFor now n status m.from_name m.body m.content_type db)

module _ (dumps : Json → String) (path_name : String → String) (clock_text : String)
    (refuses : ℕ → Bool) where
  stalled-AddsFor :
      (now : ℕ) (path : String) (k : ℕ) (db : Db)
      → AddsFor "user" db (stalled dumps path_name clock_text refuses now path k db)
  unfolding emit_stalled_for_project emit_status
  stalled-AddsFor now path k db = elim (Bool-cases (refuses 0)) [
    | inl b ↦ rw (b, stalled) (inl refl)
    | inr b ↦ elim (Option-cases (get_running path db.tasks)) [
      | inl e ↦ rw (b, e, stalled, emit_stalled_for_project) (inl refl)
      | inr (t, e) ↦
          rw (b, e, stalled, emit_stalled_for_project) (emit_for-AddsFor now t.id "stalled" _ db)
    ]
  ]

  -- A transaction is refused.
  abbrev pub Refuses : Type 0
  Refuses = (k : ℕ) × (refuses k ≡ true)

  -- How the handling ends: with the pending mail of the agent given up at the maximum and as it was
  -- below it; or, at the maximum alone, with an exception, if a transaction is refused.
  abbrev pub IsHandled : Ending → (escalates : Bool) (before after : List Message) → Type 0
  IsHandled e escalates before after =
      ((e ≡ returned) × (after ≡ (if escalates then [] else before)))
      ⊎ ((e ≡ raised) × (escalates ≡ true) × Refuses)

  fail_stuck_lem :
      (k : ℕ) (ms : List Message) (db : Db)
      → (fail_stuck dumps path_name clock_text refuses k ms db ≡ (returned, fail_all ms db))
        ⊎ (((fail_stuck dumps path_name clock_text refuses k ms db).0 ≡ raised) × Refuses)
  unfolding fail_stuck fail_all
  fail_stuck_lem k [] db = inl refl
  fail_stuck_lem k (m ∷ ms) db = elim (Bool-cases (refuses k)) [
    | inl b ↦ rw (b, fail_stuck) (inr (refl, (k, b)))
    | inr b ↦ rw (b, fail_stuck) (fail_stuck_lem (suc k) ms (mark_message_failed m.id db))
  ]

  -- The notice adds one message for the user, or is refused.
  notify_user_lem :
      (cfg : WakeWatcherConfig) (k now : ℕ) (body name : String) (w : World)
      → let (e, w') = notify_user dumps path_name clock_text refuses cfg k now body name w in
        (w'.counts ≡ w.counts)
        × (((e ≡ returned) × AddsFor cfg.user_avatar w.db w'.db) ⊎ ((e ≡ raised) × Refuses))
  unfolding notify_user
  notify_user_lem cfg k now body name w =
      let (m, db', e, adds) = insert_message-AddsFor now cfg.user_avatar body w.db in
      elim (Bool-cases (refuses k)) [
        | inl b ↦ rw (b, notify_user) (refl, inr (refl, (k, b)))
        | inr b ↦ rw (b, e, notify_user) (refl, inl (refl, adds))
      ]

  -- The agent has no pending mail, or a transaction was refused.
  abbrev IsGivenUp : String → World → Ending × World → Type 0
  IsGivenUp name w (e, w') =
      (w'.counts ≡ w.counts)
      × (((e ≡ returned) × (get_pending_messages_for name w'.db ≡ [])) ⊎ ((e ≡ raised) × Refuses))

  after_stuck_lem :
      (cfg : WakeWatcherConfig) (now stuck : ℕ) (name path : String) (r : WakeTurnResult)
      (w : World)
      → cfg.user_avatar ≢ name
      → get_pending_messages_for name w.db ≡ []
      → IsGivenUp name w
          (after_stuck dumps path_name clock_text refuses cfg now stuck name path r returned w)
  unfolding after_stuck
  after_stuck_lem cfg now stuck name path r w n p =
      let body = escalation_body name path stuck r in
      elim (Bool-cases (can_notify cfg.rate_limit now name w.notified)) [
        | inr b ↦ rw (b, after_stuck) (refl, inl (refl, p))
        | inl b ↦
            let w₂ =
              (notify_user dumps path_name clock_text refuses cfg (stuck + 2) now body name w).1 in
            let (c, ends) = notify_user_lem cfg (stuck + 2) now body name w in
            rw (b, after_stuck)
              (
                c,
                elim ends [
                  | inl (e, adds) ↦
                      inl (e, AddsFor-pending cfg.user_avatar name w.db w₂.db adds n ∙ p)
                  | inr h ↦ inr h
                ],
              )
      ]

  escalate_lem :
      (cfg : WakeWatcherConfig) (now : ℕ) (name path : String) (r : WakeTurnResult) (w : World)
      → cfg.user_avatar ≢ name
      → IsGivenUp name w (escalate dumps path_name clock_text refuses cfg now name path r w)
  unfolding escalate after_stuck
  escalate_lem cfg now name path r w n =
      let stuck = get_pending_messages_for name w.db in
      elim (Bool-cases (refuses 1)) [
        | inl b ↦ rw (b, escalate) (refl, inr (refl, (1, b)))
        | inr b ↦ elim (fail_stuck_lem 2 stuck w.db) [
          | inl e ↦
              rw (b, e, escalate)
                (after_stuck_lem cfg now (length stuck) name path r
                  (record w { db = fail_all stuck w.db }) n (fail_all-pending name w.db))
          | inr (e, h) ↦ rw (b, e, escalate) (refl, inr (refl, h))
        ]
      ]

  -- A failed turn of an agent that is neither `user` nor the user's avatar is counted. If the count
  -- then is at the maximum the agent has no pending mail left, whether or not the user may be
  -- notified; below it the pending mail is what it was. An exception leaves the handling only at the
  -- maximum and if a transaction is refused.
  pub handle_failure_lem :
      (cfg : WakeWatcherConfig) (now : ℕ) (name path : String) (r : WakeTurnResult) (w : World)
      → cfg.user_avatar ≢ name
      → "user" ≢ name
      → let counts = record_failure name w.counts in
        let (e, w') = handle_failure dumps path_name clock_text refuses cfg now name path r w in
        (w'.counts ≡ counts)
        × IsHandled e
            (should_escalate cfg.max_failures name counts)
            (get_pending_messages_for name w.db)
            (get_pending_messages_for name w'.db)
  unfolding handle_failure
  handle_failure_lem cfg now name path r w n user =
      let counts = record_failure name w.counts in
      let k = count name counts in
      let db₁ = stalled dumps path_name clock_text refuses now path k w.db in
      let w₁ = record w { counts = counts; db = db₁ } in
      elim (Bool-cases (should_escalate cfg.max_failures name counts)) [
        | inl b ↦
            let (c, ends) = escalate_lem cfg now name path r w₁ n in
            rw (b, handle_failure) (c, elim ends [ inl h ↦ inl h | inr (e, h) ↦ inr (e, refl, h) ])
        | inr b ↦
            rw (b, handle_failure)
              (
                refl,
                inl (
                  refl,
                  AddsFor-pending "user" name w.db db₁ (stalled-AddsFor now path k w.db) user,
                ),
              )
      ]

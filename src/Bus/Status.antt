-- ===== src/Bus/Status.antt =====
-- Status envelopes: one message for each change of a task's last sent status.
use mathlib.Core.Option
use claude_email.Prelude.{
  ℕ, ◌≡◌, false, Option, none, some, List, [], ◌∷◌, ◌++◌, ◌&&◌, arith, refl, ◌∙◌, ap, String,
  eq_refl, str_eq, head?, if◌then◌else◌,
}
use claude_email.Table.{update, select}
use claude_email.Db.{Db, Task}
use claude_email.Bus.{
  task_has_id, set_last_sent, status_message, emit_status_message, clear_status_dedup, send_status,
  holds, is_some,
}

-- The last status sent for the task with an id, if there is such a task.
abbrev pub last_sent : ℕ → Db → Option (Option String)
last_sent n db = Option.map (λ t. t.last_sent_status) (head? (select (task_has_id n) db.tasks.rows))

head?-update :
    (n : ℕ) (status : Option String) (xs : List Task) (t : Task)
    → head? (select (task_has_id n) xs) ≡ some t
    → head? (select (task_has_id n) (update (task_has_id n) (set_last_sent status) xs))
      ≡ some (set_last_sent status t)
head?-update n status [] t h = cc
head?-update n status (x ∷ xs) t h = ground (arith, head?-update n status xs t)

head?-clear :
    (n : ℕ) (xs : List Task) (t : Task)
    → head? (select (task_has_id n) xs) ≡ some t
    → head? (
        select
          (task_has_id n)
          (update (λ t. task_has_id n t && is_some t.last_sent_status) (set_last_sent none) xs))
      ≡ some (set_last_sent none t)
head?-clear n [] t h = cc
head?-clear n (x ∷ xs) t h = ground (arith, head?-clear n xs t)

known :
    (n : ℕ) (db : Db) (old : Option String)
    → last_sent n db ≡ some old
    → (t : Task) × (head? (select (task_has_id n) db.tasks.rows) ≡ some t)
      × (t.last_sent_status ≡ old)
known n db old h = (Option.map-eq-some_iff _ _).0 h

emit_known :
    (now n : ℕ) (status agent body ct : String) (db : Db) (t : Task)
    → head? (select (task_has_id n) db.tasks.rows) ≡ some t
    → emit_status_message now n status agent body ct db ≡ (
        if holds (λ s. str_eq s status) t.last_sent_status
        then (none, db)
        else send_status now n status agent body ct db)
unfolding emit_status_message
emit_known now n status agent body ct db t e = rw (e, emit_status_message)

-- An emission for a task whose last sent status is another one puts one pending message for the
-- user at the end of `messages`, and marks the task; a second emission of the same status then
-- returns None and leaves the database as it is.
pub emit_status_twice :
    (now later n : ℕ) (status agent body ct agent' body' ct' : String) (db : Db)
    (old : Option String)
    → last_sent n db ≡ some old
    → holds (λ s. str_eq s status) old ≡ false
    → let (sent, db') = emit_status_message now n status agent body ct db in
      (sent ≡ some (status_message db.next_message now n agent body ct))
      × (db'.messages ≡ db.messages ++ status_message db.next_message now n agent body ct ∷ [])
      × (last_sent n db' ≡ some (some status))
      × (emit_status_message later n status agent' body' ct' db' ≡ (none, db'))
emit_status_twice now later n status agent body ct agent' body' ct' db old h new =
    let (t, e, k) = known n db old h in
    let first = emit_known now n status agent body ct db t e in
    let marked = head?-update n (some status) db.tasks.rows t e in
    rw (first, k, new)
      (unfold send_status in
        (
          refl,
          refl,
          ap (Option.map (λ t. t.last_sent_status)) marked,
          emit_known later n status agent' body' ct' (send_status now n status agent body ct db).1
                (set_last_sent (some status) t) marked
              ∙ (rw (eq_refl status)),
        ))

-- Once the mark is cleared the same status is sent again.
pub emit_status-clear :
    (now n : ℕ) (status agent body ct : String) (db : Db) (old : Option String)
    → last_sent n db ≡ some old
    → (emit_status_message now n status agent body ct (clear_status_dedup n db)).0
      ≡ some (status_message db.next_message now n agent body ct)
emit_status-clear now n status agent body ct db old h =
    let (t, e, k) = known n db old h in
    let cleared : head? (select (task_has_id n) (clear_status_dedup n db).tasks.rows)
        ≡ some (set_last_sent none t) =
      unfold clear_status_dedup in head?-clear n db.tasks.rows t e in
    rw
      (emit_known now n status agent body ct (clear_status_dedup n db) (set_last_sent none t)
        cleared)
      (unfold send_status clear_status_dedup in refl)

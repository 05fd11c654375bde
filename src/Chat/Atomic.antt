-- ===== src/Chat/Atomic.antt =====
-- A message is inserted whole and nudges the watcher, or nothing is inserted.
use claude_email.Prelude.{
  ℕ, ◌+◌, ◌≡◌, ◌≢◌, ◌⊎◌, ◌++◌, [], ◌∷◌, Bool, true, false, refl, inl, inr, Bool-cases, ap, sym, ◌∙◌,
}
use claude_email.Db.{Db, Message}
use claude_email.Effect
use claude_email.Effect.{integrity_error}
use claude_email.Tx.{Conn, Attempt}
use claude_email.Tx.Atomic.{IsIdle, run_tx_ok}
use claude_email.Bus
use claude_email.Bus.{Draft, new_message, parent_known}
use claude_email.Chat.{insert_message, body}

-- The database that a body sees.
abbrev view : Db → Db
view db = record db { hooks = 0 }

insert_known :
    (now : ℕ) (d : Draft) (db : Db)
    → parent_known d.in_reply_to (view db) ≡ true
    → let (r, db', hooks) = body (Bus.insert_message now d) db in
      (r ≡ Effect.ok (new_message db.next_message now d))
      × (db'.messages ≡ db.messages ++ new_message db.next_message now d ∷ [])
      × (hooks ≡ 1)
unfolding Bus.insert_message
insert_known now d db h = rw (h, Bus.insert_message) (unfold Bus.log_event in (refl, refl, refl))

insert_unknown :
    (now : ℕ) (d : Draft) (db : Db)
    → parent_known d.in_reply_to (view db) ≡ false
    → (body (Bus.insert_message now d) db).0 ≡ Effect.raise integrity_error
unfolding Bus.insert_message
insert_unknown now d db h = rw (h, Bus.insert_message) refl

ok_inj : (a b : Message) → ◌≡◌ {A = Effect.Result Message} (Effect.ok a) (Effect.ok b) → a ≡ b
ok_inj a b h = cc

ok≢raise : (a : Message) (e : Effect.Error) → Effect.ok a ≢ Effect.raise e
ok≢raise a e h = cc

insert_ok :
    (now : ℕ) (d : Draft) (db : Db) (m : Message) (s : Db) (n : ℕ)
    → body (Bus.insert_message now d) db ≡ (Effect.ok m, s, n)
    → (m ≡ new_message db.next_message now d) × (s.messages ≡ db.messages ++ m ∷ []) × (n ≡ 1)
insert_ok now d db m s n h = elim (Bool-cases (parent_known d.in_reply_to (view db))) [
  | inl k ↦
      let (r, rows, hooks) = insert_known now d db k in
      let q : m ≡ new_message db.next_message now d = ok_inj m _ (sym (ap (λ x. x.0) h) ∙ r) in
      (
        q,
        sym (ap (λ x. x.1.messages) h) ∙ rows ∙ ap (λ t. db.messages ++ t ∷ []) (sym q),
        sym (ap (λ x. x.2) h) ∙ hooks,
      )
  | inr k ↦ absurd (ok≢raise m integrity_error (sym (ap (λ x. x.0) h) ∙ insert_unknown now d db k))
]

-- `m` is made from the draft under the next id, and is the one row that `after` has more.
abbrev pub Inserted : ℕ → Draft → Message → Db → Db → Type 0
Inserted now d m before after =
    (m ≡ new_message before.next_message now d) × (after.messages ≡ before.messages ++ m ∷ [])

-- If an outermost `insert_message` returns a message, that message, made from the draft under the
-- next id, is the one row added to the messages that were committed before the attempt that went
-- through, and one wake hook has fired.
pub insert_message_whole :
    (first again : Attempt Db) (works : Bool) (now : ℕ) (d : Draft) (c : Conn Db) (m : Message)
    → IsIdle c
    → (insert_message first again works now d c).0 ≡ Effect.ok m
    → let c' = (insert_message first again works now d c).1 in
      (Inserted now d m (first.others c.committed) c'.committed
        ⊎ Inserted now d m (again.others (first.others c.committed)) c'.committed)
      × (c'.fired ≡ c.fired + 1)
unfolding insert_message
insert_message_whole first again works now d c m idle h =
    let (s, n, ran, stored, fired) =
      run_tx_ok first again works (body (Bus.insert_message now d)) c m idle h in
    elim ran [
      | inl e ↦
          let (q, rows, one) = insert_ok now d (first.others c.committed) m s n e in
          (inl (q, ap (λ x. x.messages) stored ∙ rows), fired ∙ ap (λ k. c.fired + k) one)
      | inr e ↦
          let (q, rows, one) = insert_ok now d (again.others (first.others c.committed)) m s n e in
          (inr (q, ap (λ x. x.messages) stored ∙ rows), fired ∙ ap (λ k. c.fired + k) one)
    ]

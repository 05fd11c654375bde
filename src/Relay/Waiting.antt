-- ===== src/Relay/Waiting.antt =====
-- The user's queue on the bus, and what each turn of the relay does to it.
use claude_email.Prelude.{
  ℕ, suc, ◌<◌, String, Bool, false, some, List, [], ◌∷◌, str_eq, any, if◌then◌else◌, ◌≡◌, refl, sym,
  ap, ◌∙◌, subst, arith, Bool-cases, inl, inr, ◌⊎◌, In, ◌==◌, ==_refl,
}
use claude_email.Table.{select, update, update_none, In-select}
use claude_email.Table.Ids.{Ascending, Ascending-update, Ascending-In_bounds}
use claude_email.Effect.{Result, ok, raise, value_error, integrity_error, Result-cases}
use claude_email.Table.Keys.{row_of}
use claude_email.Db.{Db, Message, MessageStatus}
use claude_email.Bus.{
  message_id, mark_message_delivered, mark_message_failed, set_email_message_id, pending_for,
  has_id, delivered_row,
}
use claude_email.Bus.Delivery.{HasIds}
use claude_email.Stores.{record_outbound_email, Sent, written_task, task_known, eid_of, put_email}
use claude_email.Relay.Outbox.{
  Smtp, accepted, permanent, transient, unexpected, Turn, next, stopped, raised, sent_of,
  record_sent, deliver, after_smtp,
}

-- The queue as it stands in the table.
abbrev pub waiting : Db → List Message
waiting db = select (pending_for "user") db.messages

none_above :
    (lo n : ℕ) (ms : List Message) (hi : ℕ)
    → Ascending message_id lo ms hi
    → n < lo
    → any (has_id n) ms ≡ false
none_above lo n [] hi h l = refl
none_above lo n (x ∷ xs) hi h l = ground (arith, none_above (suc x.id) n xs hi h.1)

head-In : (m : Message) (ms rest : List Message) → ms ≡ m ∷ rest → In m ms
head-In m [] rest h = cc
head-In m (x ∷ xs) rest h = inl (cc (h))

-- An UPDATE of the first selected row, by its id, changes that row alone.
select-update_first :
    (p : Message → Bool) (f : Message → Message) (lo : ℕ) (ms : List Message) (hi : ℕ) (m : Message)
    (rest : List Message)
    → Ascending message_id lo ms hi
    → select p ms ≡ m ∷ rest
    → select p (update (has_id m.id) f ms) ≡ (if p (f m) then f m ∷ rest else rest)
select-update_first p f lo [] hi m rest h e = cc
select-update_first p f lo (x ∷ xs) hi m rest h e = elim (Bool-cases (p x)) [
  | inl t ↦
      let q : x ≡ m = cc (e, t) in
      let r : select p xs ≡ rest = cc (e, t) in
      let i : m.id < suc x.id = omega (arith, ap message_id q) in
      let same = update_none (has_id m.id) f xs (none_above (suc x.id) m.id xs hi h.1 i) in
      rw (same, r, q, ==_refl m.id) refl
  | inr t ↦
      let e' : select p xs ≡ m ∷ rest = cc (e, t) in
      let (i, k) = In-select p m xs (head-In m (select p xs) rest e') in
      let (above, below) = Ascending-In_bounds message_id (suc x.id) xs hi m h.1 i in
      let other : (x.id == m.id) ≡ false = ground arith in
      rw (other, t) (select-update_first p f (suc x.id) xs hi m rest h.1 e')
]

HasIds-update :
    (f : Message → Message) (n : ℕ) (db : Db)
    → ((m : Message) → (f m).id ≡ m.id)
    → HasIds db
    → HasIds (record db { messages = update (has_id n) f db.messages })
HasIds-update f n db same h =
    Ascending-update message_id 0 db.messages db.next_message (has_id n) f same h

-- The mail with the Message-ID that it was sent under.
abbrev pub with_eid : String → Message → Message
with_eid eid m = record m { email_message_id = some eid }

-- The queue after a turn that raised: the message still waits, perhaps with its Message-ID.
abbrev pub StillWaits : Message → List Message → Db → Type 0
StillWaits m rest db =
    (waiting db ≡ m ∷ rest) ⊎ ((eid : String) × (waiting db ≡ with_eid eid m ∷ rest))

-- What a turn of the loop does to the queue: it takes its message off, or leaves it there.
abbrev pub Turned : Message → List Message → Turn → Db → Type 0
Turned m rest next db' = HasIds db' × (waiting db' ≡ rest)
Turned m rest stopped db' = HasIds db' × (waiting db' ≡ m ∷ rest)
Turned m rest raised db' = HasIds db' × StillWaits m rest db'

pub mark_delivered-waiting :
    (db : Db) (m : Message) (rest : List Message)
    → HasIds db
    → waiting db ≡ m ∷ rest
    → HasIds (mark_message_delivered m.id db) × (waiting (mark_message_delivered m.id db) ≡ rest)
unfolding mark_message_delivered
mark_delivered-waiting db m rest h e = (
  HasIds-update delivered_row m.id db (λ x. refl) h,
  select-update_first (pending_for "user") delivered_row 0 db.messages db.next_message m rest h e
      ∙ ground arith,
)

mark_failed-waiting :
    (db : Db) (m : Message) (rest : List Message)
    → HasIds db
    → waiting db ≡ m ∷ rest
    → HasIds (mark_message_failed m.id db) × (waiting (mark_message_failed m.id db) ≡ rest)
unfolding mark_message_failed
mark_failed-waiting db m rest h e =
    let fail : Message → Message = λ x. record x { status = MessageStatus.failed } in
    (
      HasIds-update fail m.id db (λ x. refl) h,
      select-update_first (pending_for "user") fail 0 db.messages db.next_message m rest h e
          ∙ ground arith,
    )

set_email-waiting :
    (eid : String) (db : Db) (m : Message) (rest : List Message)
    → HasIds db
    → waiting db ≡ m ∷ rest
    → HasIds (set_email_message_id m.id eid db)
      × (waiting (set_email_message_id m.id eid db) ≡ with_eid eid m ∷ rest)
unfolding set_email_message_id
set_email-waiting eid db m rest h e =
    let (i, p) = In-select (pending_for "user") m db.messages (head-In m (waiting db) rest e) in
    (
      HasIds-update (with_eid eid) m.id db (λ x. refl) h,
      select-update_first (pending_for "user") (with_eid eid) 0 db.messages db.next_message m rest h
            e
          ∙ rw (p) refl,
    )

-- Recording a sent mail leaves the messages as they are.
record_outbound_email-messages :
    (now : ℕ) (eid : String) (sent : Sent) (db db' : Db) (u : Unit {0})
    → record_outbound_email now eid sent db ≡ ok (u, db')
    → (db'.messages ≡ db.messages) × (db'.next_message ≡ db.next_message)
unfolding record_outbound_email
record_outbound_email-messages now eid sent db db' u h =
    let known = task_known (written_task sent.task_id (row_of eid_of eid db.outbound_emails)) db in
    elim (Bool-cases (str_eq eid "")) [
      | inl e ↦
          let q : record_outbound_email now eid sent db
              ≡ raise (value_error "email_message_id must not be empty") =
            rw (e, record_outbound_email) refl in
          cc (h, q)
      | inr e ↦ elim (Bool-cases known) [
        | inl k ↦
            let q : record_outbound_email now eid sent db ≡ ok (tt, put_email now eid sent db) =
              rw (e, k, record_outbound_email) refl in
            let d : put_email now eid sent db ≡ db' = cc (h, q) in
            (ap (λ x. x.messages) (sym d), ap (λ x. x.next_message) (sym d))
        | inr k ↦
            let q : record_outbound_email now eid sent db ≡ raise integrity_error =
              rw (e, k, record_outbound_email) refl in
            cc (h, q)
      ]
    ]

deliver-Turned :
    (eid : String) (m : Message) (rest : List Message) (db : Db) (r : Result Db)
    → HasIds db
    → waiting db ≡ m ∷ rest
    → ((db' : Db) → r ≡ ok db' → HasIds db' × StillWaits m rest db')
    → let (t, db') = deliver eid m db r in Turned m rest t db'
unfolding deliver
deliver-Turned eid m rest db (ok db') h e k = elim (k db' refl).1 [
  | inl w ↦ mark_delivered-waiting db' m rest (k db' refl).0 w
  | inr (eid', w) ↦ mark_delivered-waiting db' (with_eid eid' m) rest (k db' refl).0 w
]
deliver-Turned eid m rest db (raise x) h e k =
    let (i, w) = set_email-waiting eid db m rest h e in (i, inr (eid, w))

ok_inj : (a b : Db) → ◌≡◌ {A = Result Db} (ok a) (ok b) → a ≡ b
ok_inj a b h = cc

-- The queue depends on the messages alone.
StillWaits-messages :
    (m : Message) (rest : List Message) (db db' : Db)
    → (db'.messages ≡ db.messages) × (db'.next_message ≡ db.next_message)
    → HasIds db × StillWaits m rest db
    → HasIds db' × StillWaits m rest db'
StillWaits-messages m rest db db' (e, n) (h, w) = rw (e, n) (h, w)

record_sent-StillWaits :
    (now : ℕ) (eid : String) (m : Message) (rest : List Message) (db db' : Db)
    → HasIds db
    → waiting db ≡ m ∷ rest
    → record_sent now eid m db ≡ ok db'
    → HasIds db' × StillWaits m rest db'
unfolding record_sent
record_sent-StillWaits now eid m rest db db' h e k = elim (Bool-cases (str_eq eid "")) [
  | inl b ↦
      let q : record_sent now eid m db ≡ ok db = rw (b, record_sent) refl in
      subst (λ d. HasIds d × StillWaits m rest d) (ok_inj db db' (sym q ∙ k)) (h, inl e)
  | inr b ↦
      let db₁ = set_email_message_id m.id eid db in
      let (i, w) = set_email-waiting eid db m rest h e in
      elim (Result-cases (record_outbound_email now eid (sent_of m) db₁)) [
        | inl ((u, db₂), r) ↦
            let q : record_sent now eid m db ≡ ok db₂ = rw (b, r, record_sent) refl in
            let s = record_outbound_email-messages now eid (sent_of m) db₁ db₂ u r in
            subst (λ d. HasIds d × StillWaits m rest d) (ok_inj db₂ db' (sym q ∙ k))
              (StillWaits-messages m rest db₁ db₂ s (i, inr (eid, w)))
        | inr (x, r) ↦
            let q : record_sent now eid m db ≡ raise x = rw (b, r, record_sent) refl in cc (q, k)
      ]
]

pub after_smtp-Turned :
    (now : ℕ) (answer : Smtp) (m : Message) (rest : List Message) (db : Db)
    → HasIds db
    → waiting db ≡ m ∷ rest
    → let (t, db') = after_smtp now answer m db in Turned m rest t db'
unfolding after_smtp
after_smtp-Turned now (accepted eid) m rest db h e =
    deliver-Turned eid m rest db (record_sent now eid m db) h e
      (λ db' k. record_sent-StillWaits now eid m rest db db' h e k)
after_smtp-Turned now permanent m rest db h e = mark_failed-waiting db m rest h e
after_smtp-Turned now transient m rest db h e = (h, e)
after_smtp-Turned now unexpected m rest db h e = (h, inl e)

-- ===== src/Bus/Delivery.antt =====
-- Delivery on the bus: what a claim hands out and what it leaves, and how failed mail comes back.
use claude_email.Prelude.{
  ◌≡◌, ◌≢◌, inl, inr, Bool, true, List, [], ◌∷◌, arith, refl, sym, ◌∙◌, ap, In, any, ◌==◌, ==_iff,
  ==_refl, true≢false, String, eq_iff, Bool-cases, map, ◌||◌, length,
}
use claude_email.Table.{
  update, select, returning, returning_lem, update_cong, returning_cong, In-select, select-In,
  order_by, select-update_ne, select-update_none, any-In, length-select,
}
use claude_email.Table.Ids.{
  Ascending, Ascending-select, order_by-Ascending, Ascending-map, Ascending-unique,
  Ascending-update,
}
use claude_email.Db.{Db, Message}
use claude_email.Bus.{
  message_id, has_id, pending_for, failed_for, by_id, id_in, delivered_row, pending_row,
  get_pending_messages_for, claim_pending_messages_for, recover_failed_messages_for,
}

abbrev pub HasIds : Db → Type 0
HasIds db = Ascending message_id 0 db.messages db.next_message

-- The pending mail of a recipient, in the order of the ids, is the selected rows as they stand.
pub get_pending_lem :
    (name : String) (db : Db)
    → HasIds db
    → get_pending_messages_for name db ≡ select (pending_for name) db.messages
unfolding get_pending_messages_for
get_pending_lem name db ids =
    order_by-Ascending message_id 0 (select (pending_for name) db.messages) db.next_message
      (Ascending-select message_id 0 db.messages db.next_message (pending_for name) ids)

any-has_id :
    (xs : List Message) (m : Message)
    → any (has_id m.id) xs ≡ true
    → (c : Message) × In c xs × (c.id ≡ m.id)
any-has_id [] m h = cc
any-has_id (x ∷ xs) m h = elim (Bool-cases (x.id == m.id)) [
  | inl e ↦ (x, inl refl, (==_iff _ _).0 e)
  | inr e ↦ let (c, i, s) = any-has_id xs m (ground arith) in (c, inr i, s)
]

-- `id IN (SELECT id …)` picks the rows that the subquery selects.
id_in_iff :
    (p : Message → Bool) (db : Db) (m : Message)
    → HasIds db
    → In m db.messages
    → id_in (select p db.messages) m ≡ p m
id_in_iff p db m ids i = elim (Bool-cases (id_in (select p db.messages) m)) [
  | inl e ↦
      let (c, k, s) = any-has_id (select p db.messages) m e in
      let (j, q) = In-select p c db.messages k in
      let same : c ≡ m = Ascending-unique message_id 0 db.messages db.next_message c m ids j i s in
      e ∙ sym (sym (ap p same) ∙ q)
  | inr e ↦ elim (Bool-cases (p m)) [
    | inl q ↦
        let k = any-In (has_id m.id) m _ (select-In p m db.messages i q) (==_refl m.id) in
        absurd (true≢false (sym k ∙ e))
    | inr q ↦ e ∙ sym q
  ]
]

module _ (name : String) (db : Db) (ids : HasIds db) where
  abbrev hit : Message → Bool
  hit = id_in (get_pending_messages_for name db)

  hit_iff : (m : Message) → In m db.messages → hit m ≡ pending_for name m
  hit_iff m i = rw (get_pending_lem name db ids) (id_in_iff (pending_for name) db m ids i)

  update-hit :
      update hit delivered_row db.messages ≡ update (pending_for name) delivered_row db.messages
  update-hit = update_cong hit (pending_for name) delivered_row db.messages hit_iff

  returning-hit :
      order_by by_id (returning hit delivered_row db.messages)
      ≡ map delivered_row (get_pending_messages_for name db)
  returning-hit =
      rw
        (
          returning_cong hit (pending_for name) delivered_row db.messages hit_iff,
          returning_lem (pending_for name) delivered_row db.messages,
          get_pending_lem name db ids,
        )
        (order_by-Ascending message_id 0 (map delivered_row (select (pending_for name) db.messages))
          db.next_message
          (Ascending-map message_id 0 (select (pending_for name) db.messages) db.next_message
            delivered_row (λ t. refl)
            (Ascending-select message_id 0 db.messages db.next_message (pending_for name) ids)))

  none_left : select (pending_for name) (update (pending_for name) delivered_row db.messages) ≡ []
  none_left = select-update_none (pending_for name) delivered_row db.messages (λ m. ground arith)

  others_left :
      (q : String)
      → q ≢ name
      → select (pending_for q) (update (pending_for name) delivered_row db.messages)
        ≡ select (pending_for q) db.messages
  others_left q h =
      select-update_ne (pending_for q) (pending_for name) delivered_row db.messages
        (λ m e. (ground (arith, eq_iff m.to_name q, eq_iff m.to_name name), ground arith))

-- In a table with ascending ids, a claim returns the pending mail of its recipient in the order of
-- the ids, as delivered, and marks those rows and no others; after it the recipient has no pending
-- mail, and that of every other recipient is unchanged.
pub claim_pending_lem :
    (name : String) (db : Db)
    → HasIds db
    → let (claimed, db') = claim_pending_messages_for name db in
      (claimed ≡ map delivered_row (get_pending_messages_for name db))
      × (db'.messages ≡ update (pending_for name) delivered_row db.messages)
      × (get_pending_messages_for name db' ≡ [])
      × ((q : String) → q ≢ name → get_pending_messages_for q db' ≡ get_pending_messages_for q db)
unfolding claim_pending_messages_for
claim_pending_lem name db ids =
    let u = update-hit name db ids in
    (
      returning-hit name db ids,
      u,
      rw (u, none_left name db ids),
      λ q h. rw (u, others_left name db ids q h),
    )

select-recovered :
    (name : String) (xs : List Message)
    → select (pending_for name) (update (failed_for name) pending_row xs)
      ≡ map pending_row (select (λ m. pending_for name m || failed_for name m) xs)
select-recovered name [] = refl
select-recovered name (m ∷ xs) = ground (arith, select-recovered name xs)

pub recovered-HasIds :
    (name : String) (db : Db)
    → HasIds db
    → Ascending message_id 0 (update (failed_for name) pending_row db.messages) db.next_message
recovered-HasIds name db ids =
    Ascending-update message_id 0 db.messages db.next_message (failed_for name) pending_row
      (λ t. refl) ids

-- After a recovery the pending mail of the recipient is what was pending or failed before, in the
-- order of the ids and as pending; the count returned is that of the failed rows; and the pending
-- mail of every other recipient is what it was.
pub recover_claim :
    (name : String) (db : Db)
    → HasIds db
    → let (n, db') = recover_failed_messages_for name db in
      (get_pending_messages_for name db'
        ≡ map pending_row (select (λ m. pending_for name m || failed_for name m) db.messages))
      × (n ≡ length (select (failed_for name) db.messages))
      × ((q : String) → q ≢ name → get_pending_messages_for q db' ≡ get_pending_messages_for q db)
unfolding recover_failed_messages_for
recover_claim name db ids =
    let db' : Db = record db { messages = update (failed_for name) pending_row db.messages } in
    (
      get_pending_lem name db' (recovered-HasIds name db ids) ∙ select-recovered name db.messages,
      sym (length-select (failed_for name) db.messages),
      λ q h.
          get_pending_lem q db' (recovered-HasIds name db ids)
          ∙ select-update_ne (pending_for q) (failed_for name) pending_row db.messages (λ m e. (
            ground (arith, eq_iff m.to_name q, eq_iff m.to_name name),
            ground (arith, eq_iff m.to_name q, eq_iff m.to_name name),
          ))
          ∙ sym (get_pending_lem q db ids),
    )

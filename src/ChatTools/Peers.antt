-- ===== src/ChatTools/Peers.antt =====
-- Mail between agents: what is sent to a peer, and what an agent collects.
use claude_email.Prelude.{
  ℕ, ◌≡◌, ◌≢◌, ◌⊎◌, inl, inr, String, Bool, true, false, ◌||◌, Option, none, some, List, [], ◌∷◌,
  ◌++◌, map, arith, refl, ◌∙◌, ap, str_eq, eq_iff, any, head?, Bool-cases, Option-cases,
}
use claude_email.Table.{select, update}
use claude_email.Effect.{Result, ok, raise, Error}
use claude_email.Db.{Db, Message, Agent}
use claude_email.Bus.{
  new_message, insert_message, log_event, pending_for, failed_for, delivered_row, pending_row,
  get_pending_messages_for, recover_failed_messages_for,
}
use claude_email.Bus.Delivery.{HasIds, recovered-HasIds, recover_claim, claim_pending_lem}
use claude_email.Registry.{named, touch_agent, get_agent}
use claude_email.ChatTools.{
  PeerAnswer, told, error, draft_of, Refusals, send_to_peer, find_peer, message_agent,
  check_messages,
}

-- The mail that waits for an agent: pending, or left by a delivery that failed.
abbrev pub waits_for : String → Message → Bool
waits_for name m = pending_for name m || failed_for name m

delivered-pending :
    (ms : List Message) → map delivered_row (map pending_row ms) ≡ map delivered_row ms
delivered-pending [] = refl
delivered-pending (m ∷ ms) = ap (λ r. delivered_row m ∷ r) (delivered-pending ms)

-- In a table with ascending ids, an agent that checks its messages gets those that are pending for
-- it and those whose delivery failed, in the order of the ids and as delivered; after it none is
-- pending for the agent, and what is pending for every other is unchanged.
pub check_messages_lem :
    (now : ℕ) (caller : String) (db : Db)
    → HasIds db
    → let (mail, db') = check_messages now caller db in
      (mail ≡ map delivered_row (select (waits_for caller) db.messages))
      × (get_pending_messages_for caller db' ≡ [])
      × ((q : String) → q ≢ caller → get_pending_messages_for q db' ≡ get_pending_messages_for q db)
unfolding check_messages touch_agent recover_failed_messages_for get_pending_messages_for
check_messages_lem now caller db ids =
    let touched = touch_agent now caller db in
    let again = (recover_failed_messages_for caller touched).1 in
    let (found, count, others) = recover_claim caller touched ids in
    let (mail, rows, none_left, rest) =
      claim_pending_lem caller again (recovered-HasIds caller touched ids) in
    (
      mail ∙ ap (map delivered_row) found ∙ delivered-pending _,
      none_left,
      λ q h. rest q h ∙ others q h,
    )

abbrev is_registered : Option Agent → Bool
is_registered none = false
is_registered (some a) = true

any-touched :
    (to : String) (f : Agent → Agent) (p : Agent → Bool) (rows : List Agent)
    → ((a : Agent) → named to (f a) ≡ named to a)
    → any (named to) rows ≡ is_registered (head? (select (named to) (update p f rows)))
any-touched to f p [] same = refl
any-touched to f p (a ∷ rows) same = elim (Bool-cases (p a)) [
  | inl e ↦ elim (Bool-cases (named to a)) [
    | inl n ↦ rw (e, same a, n) refl
    | inr n ↦ rw (e, same a, n) (any-touched to f p rows same)
  ]
  | inr e ↦ elim (Bool-cases (named to a)) [
    | inl n ↦ rw (e, n) refl
    | inr n ↦ rw (e, n) (any-touched to f p rows same)
  ]
]

-- What a message to a peer does to the bus: it is told, as one pending row, or refused.
abbrev pub IsTold :
    (now : ℕ) (caller to message : String) → Option ℕ → Db → PeerAnswer × Db → Type 0
IsTold now caller to message task_id db (answer, db') =
    ((answer ≡ told to)
      × (to ≢ "")
      × (to ≢ "user")
      × (any (named to) db.agents ≡ true)
      × (db'.messages
          ≡ db.messages
            ++ new_message db.next_message now (draft_of caller to message "notify" "" task_id)
              ∷ []))
    ⊎ ((s : String) × (answer ≡ error s)
        × (db'.messages ≡ db.messages)
        × ((to ≡ "") ⊎ ((to ≡ "user") ⊎ (any (named to) db.agents ≡ false))))

-- A transaction of the call raises the error.
abbrev pub IsRefused : Refusals → Error → Type 0
IsRefused refuses e = (k : ℕ) × (refuses k ≡ some e)

-- How the tool ends.
abbrev pub EndsTold :
    Refusals
    → (now : ℕ) (caller to message : String) → Option ℕ
    → Db
    → Result PeerAnswer × Db
    → Type 0
EndsTold refuses now caller to message task_id db (ok a, db') =
    IsTold now caller to message task_id db (a, db')
EndsTold refuses now caller to message task_id db (raise e, db') =
    IsRefused refuses e × (db'.messages ≡ db.messages)

module _ (refuses : Refusals) (repr : String → String) (now : ℕ) (caller to message : String)
    (task_id : Option ℕ) where
  not-empty : str_eq to "" ≡ false → to ≢ ""
  not-empty e q = ground (arith, e, (eq_iff to "").1 q)

  not-user : str_eq to "user" ≡ false → to ≢ "user"
  not-user e q = ground (arith, e, (eq_iff to "user").1 q)

  -- A message to a peer appends one pending row for that peer, if the peer is registered and is not
  -- the user; otherwise the answer is an error, and the messages are as they were. An exception
  -- leaves the tool only if a transaction raises it, and then too the messages are as they were.
  pub message_agent-EndsTold :
      (db : Db)
      → EndsTold refuses now caller to message task_id db
          (message_agent refuses repr now caller to message task_id db)
  unfolding message_agent find_peer send_to_peer insert_message log_event get_agent touch_agent
  message_agent-EndsTold db =
      let touch : Agent → Agent = λ a. record a { last_seen_at = now } in
      let known = any-touched to touch (named caller) db.agents (λ a. refl) in
      let row = head? (select (named to) (update (named caller) touch db.agents)) in
      elim (Option-cases (refuses 0)) [
        | inr (x, z) ↦ rw (z, message_agent) ((0, z), refl)
        | inl z ↦ elim (Bool-cases (str_eq to "")) [
          | inl e ↦ rw (z, e, message_agent) (inr (_, refl, refl, inl ((eq_iff to "").0 e)))
          | inr e ↦ elim (Bool-cases (str_eq to "user")) [
            | inl u ↦
                rw (z, e, u, message_agent)
                  (inr (_, refl, refl, inr (inl ((eq_iff to "user").0 u))))
            | inr u ↦ elim (Option-cases (refuses 1)) [
              | inr (x, f) ↦ rw (z, e, u, f, message_agent, find_peer) ((1, f), refl)
              | inl f ↦ elim (Option-cases row) [
                | inl k ↦
                    rw (z, e, u, f, k, message_agent, find_peer)
                      (inr (_, refl, refl, inr (inr (known ∙ ap is_registered k))))
                | inr (a, k) ↦ elim (Option-cases (refuses 2)) [
                  | inr (x, g) ↦
                      rw (z, e, u, f, k, g, message_agent, find_peer, send_to_peer) ((2, g), refl)
                  | inl g ↦
                      rw (z, e, u, f, k, g, message_agent, find_peer, send_to_peer)
                        (inl (refl, not-empty e, not-user u, known ∙ ap is_registered k, refl))
                ]
              ]
            ]
          ]
        ]
      ]

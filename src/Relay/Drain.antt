-- ===== src/Relay/Drain.antt =====
-- What a pass of the relay leaves in the user's queue.
use claude_email.Prelude.{
  ℕ, String, Bool, List, [], ◌∷◌, ◌++◌, ◌≡◌, refl, sym, ap, Bool-cases, inl, inr,
}
use claude_email.Db.{Db, Message}
use claude_email.Bus.{get_pending_messages_for}
use claude_email.Bus.Delivery.{HasIds, get_pending_lem}
use claude_email.Relay.{Config}
use claude_email.Relay.Outbox.{
  Outgoing, Smtp, Turn, next, stopped, raised, should_relay, compose, relay_one, relay_from,
  relay_outbound_messages,
}
use claude_email.Relay.Waiting.{
  waiting, Turned, StillWaits, mark_delivered-waiting, after_smtp-Turned,
}

-- The queue at the end of a pass over `ms`.
abbrev pub Relayed : List Message → Turn → Db → Type 0
Relayed ms next db' = waiting db' ≡ []
Relayed ms stopped db' =
    (done : List Message) × (m : Message) × (rest : List Message) × (done ++ m ∷ rest ≡ ms)
    × (waiting db' ≡ m ∷ rest)
Relayed ms raised db' =
    (done : List Message) × (m : Message) × (rest : List Message) × (done ++ m ∷ rest ≡ ms)
    × StillWaits m rest db'

module _ (rstrip_slash : String → String) (startswith contains : String → String → Bool)
    (config : Config) {Server : Type 0} (send_reply : Outgoing → Server → Smtp × Server)
    (now : ℕ) where
  relay_one-Turned :
      (m : Message) (rest : List Message) (db : Db) (s : Server)
      → HasIds db
      → waiting db ≡ m ∷ rest
      → let (t, (db', s')) =
          relay_one rstrip_slash startswith contains config send_reply now m db s in
        Turned m rest t db'
  unfolding relay_one
  relay_one-Turned m rest db s h e = elim (Bool-cases (should_relay m db)) [
    | inl b ↦ rw (b) (
        after_smtp-Turned now
          (send_reply (compose rstrip_slash startswith contains config m db) s).0 m rest db h e)
    | inr b ↦ rw (b) (mark_delivered-waiting db m rest h e)
  ]

  later :
      (m : Message) (ms : List Message) (t : Turn) (db' : Db)
      → Relayed ms t db'
      → Relayed (m ∷ ms) t db'
  later m ms next db' h = h
  later m ms stopped db' (done, x, rest, e, w) = (m ∷ done, x, rest, ap (λ l. m ∷ l) e, w)
  later m ms raised db' (done, x, rest, e, w) = (m ∷ done, x, rest, ap (λ l. m ∷ l) e, w)

  after_turn :
      (m : Message) (ms : List Message) (t : Turn) (db' : Db) (s' : Server)
      → Turned m ms t db'
      → (HasIds db'
          → waiting db' ≡ ms
          → let (t', (db'', s'')) =
              relay_from rstrip_slash startswith contains config send_reply now ms db' s' in
            Relayed ms t' db'')
      → let (t', (db'', s'')) : Turn × (Db × Server) = elim t [
        | next ↦ relay_from rstrip_slash startswith contains config send_reply now ms db' s'
        | stopped ↦ (stopped, (db', s'))
        | raised ↦ (raised, (db', s'))
      ] in
        Relayed (m ∷ ms) t' db''
  after_turn m ms next db' s' (i, w) k = later m ms _ _ (k i w)
  after_turn m ms stopped db' s' (i, w) k = ([], m, ms, refl, w)
  after_turn m ms raised db' s' (i, w) k = ([], m, ms, refl, w)

  relay_from-Relayed :
      (ms : List Message) (db : Db) (s : Server)
      → HasIds db
      → waiting db ≡ ms
      → let (t, (db', s')) =
          relay_from rstrip_slash startswith contains config send_reply now ms db s in
        Relayed ms t db'
  unfolding relay_from
  relay_from-Relayed [] db s h e = e
  relay_from-Relayed (m ∷ ms) db s h e =
      let turned = relay_one-Turned m ms db s h e in
      let r = relay_one rstrip_slash startswith contains config send_reply now m db s in
      after_turn m ms r.0 r.1.0 r.1.1 turned (λ i w. relay_from-Relayed ms r.1.0 r.1.1 i w)

  -- With ascending ids, a pass over the user's queue that runs to its end leaves it empty; one that
  -- stops at a transient error leaves that message and those after it, as they were; one that an
  -- exception ends does so too, but the message may have its Message-ID by then.
  pub relay_outbound_messages-Relayed :
      (db : Db) (s : Server)
      → HasIds db
      → let (t, (db', s')) =
          relay_outbound_messages rstrip_slash startswith contains config send_reply now db s in
        Relayed (get_pending_messages_for "user" db) t db'
  unfolding relay_outbound_messages
  relay_outbound_messages-Relayed db s h =
      relay_from-Relayed (get_pending_messages_for "user" db) db s h
        (sym (get_pending_lem "user" db h))

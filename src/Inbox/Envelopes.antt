-- ===== src/Inbox/Envelopes.antt =====
-- What a JSON mail does in src/main.py: without the secret, and under a fingerprint.
use claude_email.Prelude.{
  ℕ, String, Bool, true, Option, none, some, [], ◌∷◌, ◌++◌, ◌≡◌, inl, inr, refl, Option-cases,
  arith,
}
use claude_email.Stores.{Sent, record_outbound_email}
use claude_email.Envelope.{Envelope, parsed, parse_envelope, is_json_email}
use claude_email.Kinds.Routing.{MayNotWrite, answer_json-state}
use claude_email.Mime.{EmailMessage}
use claude_email.Relay.Outbox.{Outgoing}
use claude_email.Security.{Credentials, identify_sender}
use claude_email.Json.{Json}
use claude_email.Inbox.{continue, World, Outside, Config}
use claude_email.Inbox.Answers.{
  send_reply, record_sent, send_json_reply, json_mail, json_row, json_answer, expected_secret,
  allowed_base, told, inbound, handle_json_email,
}
use claude_email.Inbox.Main.{allowed_of, process_email}

-- Tasks, messages, agents, workers and the acts outside are as they were.
pub record IsKept {W : Type 0} (w w' : World W) : Type 0 where
  pub tasks : w'.db.tasks ≡ w.db.tasks
  pub messages : w'.db.messages ≡ w.db.messages
  pub agents : w'.db.agents ≡ w.db.agents
  pub workers : w'.workers ≡ w.workers
  pub acts : w'.acts ≡ w.acts

module _ {Workers : Type 0} (out : Outside Workers) where
  pub record_sent-IsKept :
      (has_chat : Bool) (now : ℕ) (sent : Sent) (sent_id : String) (w : World Workers)
      → IsKept w (record_sent out has_chat now sent sent_id w).1
  unfolding record_sent record_outbound_email
  record_sent-IsKept has_chat now sent sent_id w = ground arith

  -- A mail that is sent, and recorded, keeps the world.
  pub after_send-IsKept :
      (mail : Outgoing) (has_chat : Bool) (now : ℕ) (row : Sent) (w : World Workers)
      → IsKept w (continue (record_sent out has_chat now row) (send_reply out mail w)).1
  unfolding send_reply
  after_send-IsKept mail has_chat now row w = elim (Option-cases (out.send_reply w.sent mail)) [
    | inl e ↦
        rw (e, send_reply)
          (record { tasks = refl; messages = refl; agents = refl; workers = refl; acts = refl })
    | inr (sent_id, e) ↦
        rw (e, send_reply)
          (let k =
              record_sent-IsKept has_chat now row sent_id
                (record w { sent = w.sent ++ mail ∷ [] }) in
            record {
              tasks = k.tasks;
              messages = k.messages;
              agents = k.agents;
              workers = k.workers;
              acts = k.acts;
            })
  ]

  send_json_reply-IsKept :
      (now : ℕ) (config : Config) (message : EmailMessage) (body_json : String) (w : World Workers)
      → IsKept w (send_json_reply out now config message body_json w).1
  unfolding send_json_reply send_reply
  send_json_reply-IsKept now config message body w =
      let mail = json_mail out now config message body in
      let k = after_send-IsKept mail true now (json_row out now config message) w in
      elim (Option-cases (out.send_reply w.sent mail)) [
        | inl e ↦ rw (e, send_json_reply, send_reply) (rw (e, send_reply) (rw (e, send_reply) at k))
        | inr (sent_id, e) ↦
            rw (e, send_json_reply, send_reply) (rw (e, send_reply) (rw (e, send_reply) at k))
      ]

  told-IsKept :
      (now : ℕ) (config : Config) (message : EmailMessage) (answer : Option Json)
      (w : World Workers)
      → IsKept w (told out now config message answer w).1
  told-IsKept now config message none w = record {
    tasks = refl;
    messages = refl;
    agents = refl;
    workers = refl;
    acts = refl;
  }
  told-IsKept now config message (some j) w =
      send_json_reply-IsKept now config message (out.dumps j) w

  -- A JSON mail whose envelope has not the shared secret, where there is one, or is of a kind that
  -- only reads leaves tasks, messages, agents and workers as they are, and runs nothing outside.
  pub handle_json_email-IsKept :
      (now : ℕ) (config : Config) (message : EmailMessage) (env : Envelope) (w : World Workers)
      → parse_envelope out.python out.lib.strip out.loads message.content ≡ parsed env
      → MayNotWrite (expected_secret out now config message) env
      → IsKept w (handle_json_email out now config message w).1
  unfolding handle_json_email
  handle_json_email-IsKept now config message env w p h =
      let same : (json_answer out now config message w).1 ≡ (w.db, w.workers) = rw p (
        answer_json-state (out.isoformat now) out.paths out.classify out.branch_name out.lib.strip
          out.pool (allowed_base out now config message) out.row out.lib.repr out.list_projects
          (expected_secret out now config message) out.stop out.freshness now env
          (inbound out now config message) w.db w.workers h) in
      rw same (told-IsKept now config message (json_answer out now config message w).0 w)

-- The same configuration with another key of gpg.
abbrev pub with_key : (fingerprint : String) (home : Option String) → Credentials → Credentials
with_key fingerprint home c = record c { gpg_fingerprint = fingerprint; gpg_home = home }

abbrev pub signed_by : (fingerprint : String) (home : Option String) → Config → Config
signed_by fingerprint home config = record config {
  credentials = with_key fingerprint home config.credentials;
  universe = elim config.universe [
    | none ↦ none
    | some u ↦ some (record u { credentials = with_key fingerprint home u.credentials })
  ];
}

module _ {Workers : Type 0} (out : Outside Workers) (fingerprint : String) (home : Option String)
    (now : ℕ) (token : String) (message : EmailMessage) where
  secret-signed_by :
      (config : Config)
      → (expected_secret out now (signed_by fingerprint home config) message
          ≡ expected_secret out now config message)
        × (allowed_base out now (signed_by fingerprint home config) message
            ≡ allowed_base out now config message)
  secret-signed_by config = ground arith

  told-signed_by :
      (config : Config) (answer : Option Json) (w : World Workers)
      → told out now (signed_by fingerprint home config) message answer w
        ≡ told out now config message answer w
  unfolding send_json_reply
  told-signed_by config none w = refl
  told-signed_by config (some j) w = refl

  handle_json_email-signed_by :
      (config : Config) (w : World Workers)
      → handle_json_email out now (signed_by fingerprint home config) message w
        ≡ handle_json_email out now config message w
  unfolding handle_json_email send_json_reply
  handle_json_email-signed_by config w =
      let (secret, base) = secret-signed_by config in rw (secret, base) (told-signed_by config _ _)

  -- A JSON mail does the same whatever fingerprint is configured: no signature is asked of it.
  pub process_email-signed_by :
      (config : Config) (w : World Workers)
      → is_json_email message.content ≡ true
      → process_email out now token true (signed_by fingerprint home config) message w
        ≡ process_email out now token true config message w
  unfolding process_email
  process_email-signed_by config w j =
      elim (Option-cases (identify_sender out.lib message (allowed_of config))) [
        | inl e ↦ rw (e, process_email) refl
        | inr (sender, e) ↦ rw (e, j, process_email) (handle_json_email-signed_by config w)
      ]

-- ===== src/Inbox/Agents.antt =====
-- What a command for an agent and a reaction leave in the store (src/chat_handlers.py).
use claude_email.Prelude.{
  ℕ, String, Bool, true, Option, none, some, [], ◌∷◌, ◌++◌, ◌≡◌, ◌⊎◌, inl, inr, refl, ◌<+>◌,
  Option-cases,
}
use claude_email.Db.{Message, Agent}
use claude_email.Bus.{new_message, insert_message}
use claude_email.Registry.{get_agent}
use claude_email.Mime.{EmailMessage}
use claude_email.Commands.{agent_command, user_draft, classify_email}
use claude_email.Inbox.{World, Outside, Config, continue, pure, transact}
use claude_email.Inbox.Answers.{send_threaded_reply, err_reply, threaded_mail, sent_row}
use claude_email.Inbox.Handlers.{handle_agent_command, handle_chat_email, handle_route, known_text}
use claude_email.Inbox.Envelopes.{IsKept, after_send-IsKept}

-- The state is that of the first action.
continue-pure :
    {W A B : Type 0} (b : B) (r : Option A × World W) → (continue (λ _. pure b) r).1 ≡ r.1
continue-pure b (none, w) = refl
continue-pure b (some a, w) = refl

module _ {Workers : Type 0} (out : Outside Workers) (now : ℕ) (config : Config)
    (message : EmailMessage) where
  send_threaded_reply-IsKept :
      (has_chat : Bool) (body tag kind sender_agent : String) (w : World Workers)
      → IsKept w
          (send_threaded_reply out now config message has_chat body tag kind sender_agent w).1
  unfolding send_threaded_reply
  send_threaded_reply-IsKept has_chat body tag kind agent w =
      after_send-IsKept out (threaded_mail out now config message body tag) has_chat now
        (sent_row out now config message body kind agent) w

  -- The message that a command for an agent adds to the bus.
  abbrev pub command_row : (name body : String) → World Workers → Message
  command_row name body w = new_message w.db.next_message now (user_draft name body "command" none)

  -- What a command for an agent leaves.
  abbrev pub Told : (name body : String) (w w' : World Workers) → Type 0
  Told name body w w' =
      (w'.db.tasks ≡ w.db.tasks)
      × (w'.workers ≡ w.workers)
      × (w'.acts ≡ w.acts)
      × (((get_agent name w.db ≡ none) × (w'.db.messages ≡ w.db.messages))
          ⊎ ((a : Agent) × (get_agent name w.db ≡ some a)
              × (w'.db.messages ≡ w.db.messages ++ command_row name body w ∷ [])))

  handle_agent_command-Told :
      (name body : String) (w : World Workers)
      → Told name body w (handle_agent_command out now config message name body w).1
  unfolding insert_message handle_agent_command err_reply
  handle_agent_command-Told name body w = elim (Option-cases (get_agent name w.db)) [
    | inl e ↦
        let k =
          send_threaded_reply-IsKept true
            ("Unknown agent " <+> name <+> ". Known agents: " <+> known_text w.db.agents) "Error"
            "error" "" w in
        rw (e, handle_agent_command) (k.tasks, k.workers, k.acts, inl (refl, k.messages))
    | inr (a, e) ↦
        let w1 = (transact (insert_message now (user_draft name body "command" none)) w).1 in
        let k =
          send_threaded_reply-IsKept true ("Command dispatched to " <+> name) "Dispatched" "ack"
            name w1 in
        rw (e, handle_agent_command) (k.tasks, k.workers, k.acts, inr (a, refl, k.messages))
  ]

  -- A mail that is a command for an agent adds one pending message for that agent, with the body of
  -- the command, if the agent is registered, and none otherwise; it adds no task, and starts no
  -- worker and no process, whether or not the answer to it can be sent.
  pub handle_chat_email-agent_command :
      (name body : String) (w : World Workers)
      → classify_email out.lib message w.db config.auth_prefix ≡ agent_command name body
      → Told name body w (handle_chat_email out now config message w).1
  unfolding handle_chat_email
  handle_chat_email-agent_command name body w h =
      rw (h, handle_route)
        (rw (continue-pure true (handle_agent_command out now config message name body w))
          (handle_agent_command-Told name body w))

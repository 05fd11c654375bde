-- ===== src/Inbox/Gate.antt =====
-- Who makes `process_email` of src/main.py do anything.
use claude_email.Prelude.{
  ℕ, String, Bool, true, false, ◌&&◌, Option, List, none, some, ◌≡◌, ◌⊎◌, inl, inr, refl,
  Option-cases, Bool-cases, if◌then◌else◌,
}
use claude_email.Db.{Db}
use claude_email.Envelope.{is_json_email}
use claude_email.Mime.{EmailMessage}
use claude_email.Security.{Credentials, identify_sender, is_authorized}
use claude_email.Security.Gate.{IsFrom, IsCleared, identify_sender-IsFrom, is_authorized-IsCleared}
use claude_email.Inbox.{World, Outside, Config}
use claude_email.Inbox.Main.{allowed_of, if_authorized, process_email}

-- the store that the gate looks replies up in
abbrev pub chat_db : {W : Type 0} → (has_chat : Bool) → World W → Option Db
chat_db has_chat w = if has_chat then some w.db else none

-- A mail of an allowed sender that is a JSON envelope, or has what the plain gate asks for.
abbrev pub MayAct :
    {W : Type 0}
    → Outside W
    → Bool
    → (senders : List String) → Credentials
    → EmailMessage
    → World W
    → Type 0
MayAct out has_chat senders creds message w =
    ((sender : String) × IsFrom out.lib message senders sender)
    × (((is_json_email message.content && has_chat) ≡ true)
        ⊎ IsCleared out.lib message creds (chat_db has_chat w))

module _ {Workers : Type 0} (out : Outside Workers)
    (exact : (a b : String) → out.lib.compare_digest a b ≡ some true → a ≡ b) (now : ℕ)
    (token : String) (has_chat : Bool) (config : Config) (message : EmailMessage) where
  if_authorized-refused :
      (r : Option Bool) (w : World Workers)
      → ¬ (r ≡ some true)
      → (if_authorized out now token has_chat config message r w).1 ≡ w
  unfolding if_authorized
  if_authorized-refused none w h = refl
  if_authorized-refused (some false) w h = refl
  if_authorized-refused (some true) w h = absurd (h refl)

  -- The world is as it was, or the mail may act.
  pub process_email-cases :
      (w : World Workers)
      → ((process_email out now token has_chat config message w).1 ≡ w)
        ⊎ MayAct out has_chat (allowed_of config) config.credentials message w
  unfolding process_email
  process_email-cases w =
      elim (Option-cases (identify_sender out.lib message (allowed_of config))) [
        | inl e ↦ inl (rw (e, process_email) refl)
        | inr (sender, e) ↦
            let from = identify_sender-IsFrom out.lib message (allowed_of config) sender e in
            elim (Bool-cases (is_json_email message.content && has_chat)) [
              | inl j ↦ inr ((sender, from), inl j)
              | inr j ↦
                  let verdict =
                    is_authorized out.lib message (allowed_of config) config.credentials
                      (chat_db has_chat w) in
                  elim (Option-cases verdict) [
                    | inl v ↦ inl (rw (e, j, v, process_email) refl)
                    | inr (b, v) ↦ elim (Bool-cases b) [
                      | inl t ↦ inr (
                        (sender, from),
                        inr (
                            (is_authorized-IsCleared out.lib exact message (allowed_of config)
                              config.credentials (chat_db has_chat w) (cc (v, t))).1),
                      )
                      | inr f ↦ inl (
                          rw (e, j, process_email)
                            (if_authorized-refused verdict w (λ x. cc (v, f, x))))
                    ]
                  ]
            ]
      ]

  -- A mail changes nothing, sends nothing and runs nothing, unless its From and its Return-Path name
  -- the same allowed sender, and it is a JSON envelope or passes the plain gate: as a reply to a mail
  -- that was sent from here, by its signature where a fingerprint is set, or by the secret where none
  -- is. The digests' comparison is true of equal texts alone.
  pub process_email-MayAct :
      (w : World Workers)
      → ¬ ((process_email out now token has_chat config message w).1 ≡ w)
      → MayAct out has_chat (allowed_of config) config.credentials message w
  process_email-MayAct w h = elim (process_email-cases w) [
    | inl same ↦ absurd (h same)
    | inr may ↦ may
  ]

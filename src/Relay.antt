-- ===== src/Relay.antt =====
-- src/relay_routing.py: the thread, the subject and the recipient of an outbound mail. Texts are cut
-- and compared by Python's `rstrip` and `startswith`, which are arguments.
pub mod Recipient
pub mod Outbox
pub mod Waiting
pub mod Drain
mod Tests
use claude_email.Prelude.{
  ℕ, String, Bool, true, false, not, ◌&&◌, ◌||◌, Option, none, some, List, [], ◌∷◌, str_eq,
  if◌then◌else◌, ◌<+>◌, or_empty, or_text, ◌==◌,
}
use claude_email.Db.{Db, Message}
use claude_email.Bus.{get_last_email_message_id_for_agent}
use claude_email.Stores.{
  lookup_task_origin_message_id, lookup_task_origin_subject, lookup_task_routing,
}

pub record Universe : Type 0 where
  pub allowed_base : String
  pub sender : String

pub record Config : Type 0 where
  pub universes : List Universe
  pub authorized_sender : String

-- `if task_id`: neither None nor 0
abbrev pub linked : Message → Option ℕ
linked m = elim m.task_id [ none ↦ none | some n ↦ if n == 0 then none else some n ]

-- the column of a look-up, "" without a row or where it is NULL
abbrev pub column : Option (Option String) → String
column none = ""
column (some s) = or_empty s

unfoldable pub thread_id_for_message : Message → Db → String
thread_id_for_message m db =
    let last = or_empty (get_last_email_message_id_for_agent m.from_name db) in
    elim (linked m) [
      | none ↦ last
      | some n ↦ or_text (column (lookup_task_origin_message_id n db)) last
    ]

unfoldable pub subject_base_for_message : Message → Db → String
subject_base_for_message m db =
    let fallback = "[" <+> or_text m.from_name "agent" <+> "] message" in
    elim (linked m) [
      | none ↦ fallback
      | some n ↦ or_text (column (lookup_task_origin_subject n db)) fallback
    ]

module _ (rstrip_slash : String → String) (startswith : String → String → Bool) where
  abbrev pub owns : String → Universe → Bool
  owns path u =
      not (str_eq u.allowed_base "")
      && (str_eq path u.allowed_base || startswith path (rstrip_slash u.allowed_base <+> "/"))

  -- the `for` loop, and what follows it
  unfoldable pub owner_sender : String → List Universe → String → String
  owner_sender path [] otherwise = otherwise
  owner_sender path (u ∷ us) otherwise =
      let rest = owner_sender path us otherwise in if owns path u then u.sender else rest

  unfoldable pub by_routing : Option (String × Option String) → Config → String
  unfolding owner_sender
  by_routing none config = config.authorized_sender
  by_routing (some (path, origin)) config =
      if not (str_eq (or_empty origin) "")
      then or_empty origin
      else if not (str_eq path "")
      then owner_sender path config.universes config.authorized_sender
      else config.authorized_sender

  unfoldable pub recipient_for_message : Message → Config → Db → String
  unfolding by_routing
  recipient_for_message m config db = elim (linked m) [
    | none ↦ config.authorized_sender
    | some n ↦ by_routing (lookup_task_routing n db) config
  ]

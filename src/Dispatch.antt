-- ===== src/Dispatch.antt =====
-- src/dispatch.py: a mail goes to the universe of its sender, whose configuration it is read under.
-- The stores of the universes are numbered as the list of the universes.
pub mod Isolation
mod Tests
use claude_email.Prelude.{
  ℕ, suc, String, Bool, true, false, Option, none, some, List, [], ◌∷◌, map, str_eq, any, ◌==◌,
  if◌then◌else◌,
}
use claude_email.Mime.{EmailMessage}
use claude_email.Security.{identify_sender}
use claude_email.Universes.{Universe, all_senders, prefix_of}
use claude_email.Inbox.{World, Outside, Config}
use claude_email.Inbox.Main.{process_email}

-- The bundles of `resources`; `outer` is where a mail acts that comes with no store.
pub record System (Workers : Type 0) : Type 0 where
  pub worlds : ℕ → World Workers
  pub outer : World Workers

module _ (lower : String → String) where
  -- `resources[address]` of the universes from the number `i` on: the last entry of a key stands
  unfoldable pub resource_from :
      (i : ℕ) → List Universe → (address : String) → Option (ℕ × Universe)
  resource_from i [] address = none
  resource_from i (u ∷ us) address =
      let rest = resource_from (suc i) us address in
      let own : Option (ℕ × Universe) =
        if any (str_eq address) (map lower (all_senders u)) then some (i, u) else none in
      elim rest [ none ↦ own | some r ↦ some r ]

  unfoldable pub build_universe_resources :
      List Universe → (address : String) → Option (ℕ × Universe)
  unfolding resource_from
  build_universe_resources us address = resource_from 0 us address

-- `config` under a universe, for a mail of `sender`
abbrev pub scoped : Config → Universe → (sender : String) → Config
scoped config u sender = record config {
  universe = some u;
  claude_cwd = u.allowed_base;
  credentials = u.credentials;
  auth_prefix = prefix_of u;
  authorized_sender = u.sender;
  authorized_senders = all_senders u;
  reply_to = sender;
}

abbrev pub set_world : {W : Type 0} → (i : ℕ) → World W → System W → System W
set_world i w s = record s { worlds = λ j. if j == i then w else s.worlds j }

module _ {Workers : Type 0} (out : Outside Workers) (now : ℕ) (token : String) (config : Config)
    (universes : List Universe) (message : EmailMessage) where
  -- none where a KeyError or an exception of `process_email` leaves it
  unfoldable pub dispatch_by_sender : System Workers → Option (Unit {0}) × System Workers
  unfolding build_universe_resources
  dispatch_by_sender s = elim (identify_sender out.lib message config.authorized_senders) [
    | none ↦
        let (r, w) = process_email out now token false config message s.outer in
        (r, record s { outer = w })
    | some sender ↦ elim (build_universe_resources out.lib.lower universes sender) [
      | none ↦ (none, s)
      | some (i, u) ↦
          let (r, w) =
            process_email out now token true (scoped config u sender) message (s.worlds i) in
          (r, set_world i w s)
    ]
  ]

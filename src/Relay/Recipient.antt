-- ===== src/Relay/Recipient.antt =====
-- To whom an outbound mail goes.
use claude_email.Prelude.{
  arith, ◌≡◌, ◌≢◌, ◌⊎◌, inl, inr, String, Bool, true, false, Option, none, some, List, [], ◌∷◌,
  refl, sym, ◌∙◌, or_empty, str_eq, eq_iff, true≢false, Bool-cases, Option-cases, ◌<+>◌,
}
use claude_email.Db.{Db, Message}
use claude_email.Stores.{lookup_task_routing}
use claude_email.Relay.{
  Universe, Config, linked, owns, owner_sender, by_routing, recipient_for_message,
}

-- The project and the sender of the task that a message is linked to.
unfoldable pub routing : Message → Db → Option (String × Option String)
routing m db = elim (linked m) [ none ↦ none | some n ↦ lookup_task_routing n db ]

module _ (rstrip_slash : String → String) (startswith : String → String → Bool) where
  -- The directory of the universe is set, and is the path or above it.
  abbrev pub Owns : String → Universe → Type 0
  Owns path u =
      (u.allowed_base ≢ "")
      × ((path ≡ u.allowed_base) ⊎ (startswith path (rstrip_slash u.allowed_base <+> "/") ≡ true))

  -- `to` is the sender of the first universe that owns the path, or `otherwise` if none does.
  abbrev pub IsFirstOwner : (path otherwise : String) → List Universe → (to : String) → Type 0
  IsFirstOwner path otherwise [] to = to ≡ otherwise
  IsFirstOwner path otherwise (u ∷ us) to =
      (Owns path u × (to ≡ u.sender)) ⊎ ((Owns path u → ⊥) × IsFirstOwner path otherwise us to)

  -- The recipient by the priorities: the sender of the task, if it is set; else, if the task has a
  -- project, the sender of the first universe that owns it; else the authorized sender.
  abbrev pub IsRecipient : Option (String × Option String) → Config → (to : String) → Type 0
  IsRecipient none config to = to ≡ config.authorized_sender
  IsRecipient (some (path, origin)) config to =
      ((or_empty origin ≢ "") × (to ≡ or_empty origin))
      ⊎ (((or_empty origin ≡ "")
            × (path ≢ "")
            × IsFirstOwner path config.authorized_sender config.universes to)
          ⊎ ((or_empty origin ≡ "") × (path ≡ "") × (to ≡ config.authorized_sender)))

  differ : {s t : String} → str_eq s t ≡ false → s ≢ t
  differ {s} {t} e q = true≢false (sym ((eq_iff s t).1 q) ∙ e)

  owns-Owns :
      (path : String) (u : Universe) → owns rstrip_slash startswith path u ≡ true → Owns path u
  owns-Owns path u e = elim (Bool-cases (str_eq u.allowed_base "")) [
    | inl b ↦ let bad : ⊥ = ground (arith, e, b) in elim bad [ ]
    | inr b ↦ elim (Bool-cases (str_eq path u.allowed_base)) [
      | inl c ↦ (differ b, inl ((eq_iff path u.allowed_base).0 c))
      | inr c ↦ (differ b, inr (ground (arith, e, b, c)))
    ]
  ]

  not_owns-Owns :
      (path : String) (u : Universe) → owns rstrip_slash startswith path u ≡ false → Owns path u → ⊥
  not_owns-Owns path u e (n, h) = elim (Bool-cases (str_eq u.allowed_base "")) [
    | inl b ↦ n ((eq_iff u.allowed_base "").0 b)
    | inr b ↦ elim h [
      | inl q ↦ ground (arith, e, b, (eq_iff path u.allowed_base).1 q)
      | inr q ↦ ground (arith, e, b, q)
    ]
  ]

  owner_sender-IsFirstOwner :
      (path otherwise : String) (us : List Universe)
      → IsFirstOwner path otherwise us (owner_sender rstrip_slash startswith path us otherwise)
  unfolding owner_sender
  owner_sender-IsFirstOwner path otherwise [] = refl
  owner_sender-IsFirstOwner path otherwise (u ∷ us) =
      elim (Bool-cases (owns rstrip_slash startswith path u)) [
        | inl e ↦ inl (owns-Owns path u e, rw e refl)
        | inr e ↦ inr (not_owns-Owns path u e, rw e (owner_sender-IsFirstOwner path otherwise us))
      ]

  by_routing-IsRecipient :
      (row : Option (String × Option String)) (config : Config)
      → IsRecipient row config (by_routing rstrip_slash startswith row config)
  unfolding by_routing
  by_routing-IsRecipient none config = refl
  by_routing-IsRecipient (some (path, origin)) config =
      elim (Bool-cases (str_eq (or_empty origin) "")) [
        | inr e ↦ inl (differ e, rw (e, by_routing) refl)
        | inl e ↦ elim (Bool-cases (str_eq path "")) [
          | inl k ↦ inr (inr ((eq_iff _ _).0 e, (eq_iff _ _).0 k, rw (e, k, by_routing) refl))
          | inr k ↦ inr (
              inl (
                (eq_iff _ _).0 e,
                differ k,
                rw (e, k, by_routing)
                    (owner_sender-IsFirstOwner path config.authorized_sender config.universes),
              ))
        ]
      ]

  -- An outbound mail goes to the sender of the task that its message is linked to, if that is set;
  -- else to the sender of the first universe whose directory is the task's project or above it; and
  -- to the authorized sender if no universe is, if the task has no project, or without such a task.
  pub recipient_for_message-IsRecipient :
      (m : Message) (config : Config) (db : Db)
      → IsRecipient
          (routing m db)
          config
          (recipient_for_message rstrip_slash startswith m config db)
  unfolding recipient_for_message routing by_routing
  recipient_for_message-IsRecipient m config db = elim (Option-cases (linked m)) [
    | inl e ↦ rw (e, recipient_for_message, routing) refl
    | inr (n, e) ↦
        rw (e, recipient_for_message, routing)
          (by_routing-IsRecipient (lookup_task_routing n db) config)
  ]

-- ===== src/Dispatch/Isolation.antt =====
-- A mail reaches its own universe alone.
use claude_email.Prelude.{
  ℕ, String, true, false, none, some, List, ◌≡◌, ◌⊎◌, inl, inr, refl, Option-cases, Bool-cases,
  ◌==◌, ==_iff, subst, ap, ◌∙◌, arith,
}
use claude_email.Mime.{EmailMessage, is_empty}
use claude_email.Security.{identify_sender}
use claude_email.Universes.{Universe, all_senders}
use claude_email.Inbox.{World, Outside, Config}
use claude_email.Inbox.Main.{process_email, allowed_of}
use claude_email.Inbox.Gate.{MayAct, process_email-cases}
use claude_email.Dispatch.{System, build_universe_resources, scoped, set_world, dispatch_by_sender}

module _ {Workers : Type 0} (out : Outside Workers)
    (exact : (a b : String) → out.lib.compare_digest a b ≡ some true → a ≡ b) (now : ℕ)
    (token : String) (config : Config) (universes : List Universe) (message : EmailMessage) where
  -- The mail may act on the world with the number `j`: its sender's universe has that number, and the
  -- gate of that universe lets it pass.
  pub record IsOwn (s : System Workers) (j : ℕ) : Type 0 where
    pub sender : String
    pub universe : Universe
    pub from : identify_sender out.lib message config.authorized_senders ≡ some sender
    pub own : build_universe_resources out.lib.lower universes sender ≡ some (j, universe)
    pub may : MayAct out true (all_senders universe) universe.credentials message (s.worlds j)

  unmatched :
      (w : World Workers)
      → is_empty config.authorized_senders ≡ false
      → identify_sender out.lib message config.authorized_senders ≡ none
      → (process_email out now token false config message w).1 ≡ w
  unfolding process_email
  unmatched w full e =
      let same : allowed_of config ≡ config.authorized_senders = rw full refl in
      rw (same, e, process_email) refl

  only :
      (s : System Workers) (sender : String) (i : ℕ) (u : Universe)
      → identify_sender out.lib message config.authorized_senders ≡ some sender
      → build_universe_resources out.lib.lower universes sender ≡ some (i, u)
      → let w' =
          (process_email out now token true (scoped config u sender) message (s.worlds i)).1 in
        (j : ℕ) → ((set_world i w' s).worlds j ≡ s.worlds j) ⊎ IsOwn s j
  only s sender i u e k j = elim (Bool-cases (j == i)) [
    | inr h ↦ rw h (inl refl)
    | inl h ↦
        let same : i ≡ j = omega (arith, (==_iff j i).0 h) in
        elim (process_email-cases out exact now token true (scoped config u sender) message
          (s.worlds i)) [
            | inl kept ↦ rw h (inl (kept ∙ ap s.worlds same))
            | inr may ↦ rw h (
                inr (record {
                  sender = sender;
                  universe = u;
                  from = e;
                  own =
                      subst
                        (λ n. build_universe_resources out.lib.lower universes sender ≡ some (n, u))
                        same k;
                  may =
                      subst
                        (λ n. MayAct out true (all_senders u) u.credentials message (s.worlds n))
                        same may;
                }))
          ]
  ]

  -- If the configuration has senders, a mail changes at most the world of the universe that its
  -- sender belongs to, and that only if it passes the gate with the credentials of this universe: by
  -- its From and Return-Path, and as a JSON envelope, a known reply, by the signature or the secret.
  -- The digests' comparison is true of equal texts alone.
  pub dispatch_by_sender-IsOwn :
      (s : System Workers)
      → is_empty config.authorized_senders ≡ false
      → let s' = (dispatch_by_sender out now token config universes message s).1 in
        (s'.outer ≡ s.outer) × ((j : ℕ) → (s'.worlds j ≡ s.worlds j) ⊎ IsOwn s j)
  unfolding dispatch_by_sender
  dispatch_by_sender-IsOwn s full =
      elim (Option-cases (identify_sender out.lib message config.authorized_senders)) [
        | inl e ↦ rw (e, dispatch_by_sender) (unmatched s.outer full e, λ j. inl refl)
        | inr (sender, e) ↦
            elim (Option-cases (build_universe_resources out.lib.lower universes sender)) [
              | inl k ↦ rw (e, k, dispatch_by_sender) (refl, λ j. inl refl)
              | inr ((i, u), k) ↦ rw (e, k, dispatch_by_sender) (refl, only s sender i u e k)
            ]
      ]

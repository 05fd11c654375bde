-- ===== src/Security/Gate.antt =====
-- What a mail has that passes the gate of src/security.py.
use claude_email.Prelude.{
  String, true, Option, some, List, str_eq, any, ◌≡◌, ◌≢◌, subst, text_length, arith, eq_iff, ◌⊎◌,
  inl, inr, Bool-cases, Option-cases,
}
use claude_email.Db.{Db}
use claude_email.Mime.{Library, EmailMessage, auth_prefix}
use claude_email.Security.{
  Credentials, text_take, extract_body_text, extract_address, extract_return_path, allowed_set,
  identify_sender, ct_startswith, verify_gpg_signature, is_known_reply, auth_subject, has_secret,
  is_authorized,
}

module _ (lib : Library) where
  -- Both headers are there and name the sender, who is allowed.
  pub record IsFrom (message : EmailMessage) (senders : List String) (sender : String)
      : Type 0 where
    pub from_given : message.from_header ≢ ""
    pub from_same : extract_address lib message.from_header ≡ sender
    pub path_given : message.return_path ≢ ""
    pub path_same : extract_return_path lib message.return_path ≡ sender
    pub allowed : any (str_eq sender) (allowed_set lib senders) ≡ true

  pub identify_sender-IsFrom :
      (message : EmailMessage) (senders : List String) (sender : String)
      → identify_sender lib message senders ≡ some sender
      → IsFrom message senders sender
  unfolding identify_sender
  identify_sender-IsFrom message senders sender h =
      let from_addr = extract_address lib message.from_header in
      let path_addr = extract_return_path lib message.return_path in
      let same : from_addr ≡ sender = ground (arith, eq_iff path_addr from_addr) in
      record {
        from_given = ground (arith, eq_iff message.from_header "");
        from_same = same;
        path_given = ground (arith, eq_iff message.return_path "");
        path_same = ground (arith, eq_iff path_addr from_addr);
        allowed = subst (λ a. any (str_eq a) (allowed_set lib senders) ≡ true) same (ground arith);
      }

  -- The subject starts with the secret's prefix, or the body has it.
  abbrev pub HasSecret : EmailMessage → String → Type 0
  HasSecret message secret =
      (secret ≢ "")
      × ((text_take (text_length (auth_prefix secret)) (auth_subject lib message)
            ≡ auth_prefix secret)
          ⊎ (lib.contains (auth_prefix secret) (extract_body_text lib message.content) ≡ true))

  -- What lets a mail of an allowed sender pass.
  abbrev pub IsCleared : EmailMessage → Credentials → Option Db → Type 0
  IsCleared message creds db =
      (is_known_reply lib message db ≡ true)
      ⊎ (((creds.gpg_fingerprint ≢ "")
            × (verify_gpg_signature lib message creds.gpg_fingerprint creds.gpg_home ≡ some true))
          ⊎ ((creds.gpg_fingerprint ≡ "") × HasSecret message creds.shared_secret))

  has_secret-HasSecret :
      ((a b : String) → lib.compare_digest a b ≡ some true → a ≡ b)
      → (message : EmailMessage) (secret : String) → has_secret lib message secret ≡ some true
      → HasSecret message secret
  unfolding has_secret ct_startswith
  has_secret-HasSecret exact message secret h =
      let prefix = auth_prefix secret in
      let start = text_take (text_length prefix) (auth_subject lib message) in
      ground (arith, eq_iff secret "", exact start prefix)

  -- A mail passes the gate only if its From and its Return-Path both name the same allowed sender;
  -- and if it replies to a mail that was sent from here, or its signature verifies where a
  -- fingerprint is set, or, where none is, the secret is not empty and starts the subject or stands
  -- in the body. The digests' comparison is true of equal texts alone.
  pub is_authorized-IsCleared :
      ((a b : String) → lib.compare_digest a b ≡ some true → a ≡ b)
      → (message : EmailMessage) (senders : List String) (creds : Credentials) (db : Option Db)
      → is_authorized lib message senders creds db ≡ some true
      → ((sender : String) × IsFrom message senders sender) × IsCleared message creds db
  unfolding is_authorized
  is_authorized-IsCleared exact message senders creds db h =
      elim (Option-cases (identify_sender lib message senders)) [
        | inl e ↦ ground (arith, e)
        | inr (sender, e) ↦ (
          (sender, identify_sender-IsFrom message senders sender e),
          elim (Bool-cases (is_known_reply lib message db)) [
            | inl k ↦ inl k
            | inr k ↦ elim (Bool-cases (str_eq creds.gpg_fingerprint "")) [
              | inl q ↦ inr (
                  inr (
                    (eq_iff _ _).0 q,
                    has_secret-HasSecret exact message creds.shared_secret (ground arith),
                  ))
              | inr q ↦ inr (inl (ground (arith, eq_iff creds.gpg_fingerprint ""), ground arith))
            ]
          ],
        )
      ]

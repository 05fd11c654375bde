-- ===== src/Security/Ascii.antt =====
-- hmac.compare_digest on texts that are not ASCII.
use claude_email.Prelude.{
  ◌≤◌, String, false, Option, none, some, List, ◌≡◌, ◌≢◌, text_length, arith, eq_iff,
}
use claude_email.Db.{Db}
use claude_email.Mime.{Library, EmailMessage, auth_prefix}
use claude_email.Security.{
  Credentials, text_take, identify_sender, ct_startswith, is_known_reply, auth_subject, has_secret,
  is_authorized,
}

module _ (lib : Library) (IsAscii : String → Type 0) where
  -- With the shared secret as the only credential, a mail of an allowed sender that is no known
  -- reply raises TypeError if its subject is as long as the secret's prefix and starts with other
  -- than ASCII there, even with the secret in its body. `compare_digest` raises on a text that is
  -- not ASCII.
  pub is_authorized-raises :
      ((a b : String) → ¬ IsAscii a → lib.compare_digest a b ≡ none)
      → (message : EmailMessage) (senders : List String) (sender : String) (creds : Credentials)
        (db : Option Db)
      → identify_sender lib message senders ≡ some sender
      → is_known_reply lib message db ≡ false
      → creds.gpg_fingerprint ≡ ""
      → creds.shared_secret ≢ ""
      → text_length (auth_prefix creds.shared_secret) ≤ text_length (auth_subject lib message)
      → ¬ IsAscii
          (text_take (text_length (auth_prefix creds.shared_secret)) (auth_subject lib message))
      → is_authorized lib message senders creds db ≡ none
  unfolding is_authorized has_secret ct_startswith
  is_authorized-raises raises message senders sender creds db from reply fp secret long other =
      let prefix = auth_prefix creds.shared_secret in
      ground (
        arith,
        raises (text_take (text_length prefix) (auth_subject lib message)) prefix other,
        eq_iff creds.gpg_fingerprint "",
        eq_iff creds.shared_secret "",
      )

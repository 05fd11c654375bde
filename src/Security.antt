-- ===== src/Security.antt =====
-- src/security.py and src/gpg_verify.py: who may command. The modules that cut texts, compare digests
-- and call gpg are the `Library` of src/email_extract.py's model.
pub mod Gate
pub mod Ascii
mod Tests
use claude_email.Prelude.{
  ℕ, zero, suc, String, Bool, true, false, not, ◌&&◌, ◌||◌, Option, none, some, List, [], ◌∷◌, map,
  str_eq, any, if◌then◌else◌, ◌<+>◌, or_empty, text_length, ltb,
}
use Prim.Native.String
use claude_email.Table.{select}
use claude_email.Db.{Db}
use claude_email.Bus.{find_message_by_email_id}
use claude_email.Stores.{find_outbound_email}
use claude_email.Envelope.{Part, Mail}
use claude_email.Mime.{
  Library, Verdict, Child, Payload, parts, raw, EmailMessage, is_empty, has_type, first_text,
  auth_prefix, decode_subject, strip_subject_prefixes,
}

-- The keyword arguments of `is_authorized`.
pub record Credentials : Type 0 where
  pub shared_secret : String
  pub gpg_fingerprint : String
  pub gpg_home : Option String

-- `text[:n]`
unfoldable pub text_take : ℕ → String → String
text_take zero s = ""
text_take (suc n) String.[] = ""
text_take (suc n) (String.◌∷◌ c s) = String.◌∷◌ c (text_take n s)

-- `"\n".join(texts)`
abbrev pub join_lines : List String → String
join_lines [] = ""
join_lines (t ∷ []) = t
join_lines (t ∷ u ∷ ts) = t <+> "\n" <+> join_lines (u ∷ ts)

-- Is there a row.
abbrev pub found {ℓ} : {A : Type ℓ} → Option A → Bool
found none = false
found (some a) = true

-- The loop over the parts of a signed message: the last signature and the last other part.
abbrev pub signed_parts :
    (sig_bytes msg_bytes : Option String) → List Child → Option String × Option String
signed_parts sig msg [] = (sig, msg)
signed_parts sig msg (c ∷ cs) =
    if str_eq c.content_type "application/pgp-signature"
    then signed_parts c.decoded msg cs
    else signed_parts sig (some c.bytes) cs

module _ (lib : Library) where
  abbrev pub part_text : Part → String
  part_text p = if has_type "text/html" p then lib.drop_tags p.payload else p.payload

  abbrev pub texts_of : List Part → List String
  texts_of [] = []
  texts_of (p ∷ ps) =
      let rest = texts_of ps in
      if (has_type "text/plain" p || has_type "text/html" p) && not (str_eq p.payload "")
      then part_text p ∷ rest
      else rest

  unfoldable pub extract_body_text : Mail → String
  extract_body_text m =
      if m.is_multipart
      then join_lines (texts_of m.parts)
      else if str_eq m.whole.payload ""
      then ""
      else part_text m.whole

  unfoldable pub extract_address : (header_value : String) → String
  extract_address header = lib.lower (lib.strip (lib.parse_address header))

  unfoldable pub extract_return_path : (header_value : String) → String
  extract_return_path header = lib.lower (lib.strip_angles (lib.strip header))

  -- `{s.strip().lower() for s in allowed_senders if s}`
  unfoldable pub allowed_set : List String → List String
  allowed_set senders = map (λ s. lib.lower (lib.strip s)) (select (λ s. not (str_eq s "")) senders)

  unfoldable pub identify_sender : EmailMessage → (allowed_senders : List String) → Option String
  identify_sender message senders =
      let allowed = allowed_set senders in
      let from_addr = extract_address message.from_header in
      if is_empty allowed
      then none
      else if str_eq message.from_header ""
      then none
      else if not (any (str_eq from_addr) allowed)
      then none
      else if str_eq message.return_path ""
      then none
      else if not (str_eq (extract_return_path message.return_path) from_addr)
      then none
      else some from_addr

  unfoldable pub ct_startswith : (haystack prefix : String) → Option Bool
  ct_startswith haystack prefix =
      if ltb (text_length haystack) (text_length prefix)
      then some false
      else lib.compare_digest (text_take (text_length prefix) haystack) prefix

  -- what is asked of gpg's result
  unfoldable pub accepts : (fingerprint : String) → Verdict → Bool
  accepts fingerprint r =
      r.valid
      && not (str_eq (or_empty r.fingerprint) "")
      && str_eq (lib.upper (or_empty r.fingerprint)) (lib.upper fingerprint)

  abbrev pub accepts_signed :
      (fingerprint : String) (gpg_home : Option String) → Option String × Option String → Bool
  accepts_signed fingerprint home (some sig, some msg) =
      accepts fingerprint (lib.verify_data home sig msg)
  accepts_signed fingerprint home _ = false

  -- The text with an inline signature.
  abbrev pub inline_body : Mail → String
  inline_body m = if m.is_multipart then first_text "text/plain" m.parts else m.whole.payload

  -- none where it raises: the characters of a payload that is a text are no parts
  unfoldable pub verify_gpg_signature :
      EmailMessage → (authorized_fingerprint : String) (gpg_home : Option String) → Option Bool
  unfolding accepts
  verify_gpg_signature message fingerprint home =
      let body = inline_body message.content in
      let detached : Option Bool = elim message.payload [
        | parts cs ↦ some (accepts_signed fingerprint home (signed_parts none none cs))
        | raw s ↦ if str_eq s "" then some false else none
      ] in
      if str_eq message.content.whole.content_type "multipart/signed"
      then detached
      else if not (lib.contains "-----BEGIN PGP SIGNED MESSAGE-----" body)
      then some false
      else some (accepts fingerprint (lib.verify home body))

  -- The mail replies to one that was sent from here.
  unfoldable pub is_known_reply : EmailMessage → (chat_db : Option Db) → Bool
  is_known_reply message none = false
  is_known_reply message (some db) =
      let eid = lib.strip message.in_reply_to in
      not (str_eq eid "")
      && (found (find_message_by_email_id eid db) || found (find_outbound_email eid db))

  abbrev pub auth_subject : EmailMessage → String
  auth_subject message =
      lib.strip (strip_subject_prefixes lib (decode_subject lib (or_empty message.subject)))

  -- none where it raises TypeError
  unfoldable pub has_secret : EmailMessage → (shared_secret : String) → Option Bool
  unfolding ct_startswith
  has_secret message secret =
      if str_eq secret ""
      then some false
      else elim (ct_startswith (auth_subject message) (auth_prefix secret)) [
        | none ↦ none
        | some true ↦ some true
        | some false ↦ some (lib.contains (auth_prefix secret) (extract_body_text message.content))
      ]

  -- none where it raises
  unfoldable pub is_authorized :
      EmailMessage
      → (authorized_sender : List String) → Credentials
      → (chat_db : Option Db) → Option Bool
  is_authorized message senders creds db = elim (identify_sender message senders) [
    | none ↦ some false
    | some sender ↦
        if is_known_reply message db
        then some true
        else if not (str_eq creds.gpg_fingerprint "")
        then verify_gpg_signature message creds.gpg_fingerprint creds.gpg_home
        else has_secret message creds.shared_secret
  ]

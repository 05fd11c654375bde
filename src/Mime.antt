-- ===== src/Mime.antt =====
-- src/email_extract.py, over messages as the mail path reads them. What the modules email, html, re,
-- hmac and gnupg and the methods of Python's texts do is an argument, the record `Library`.
pub mod Command
pub mod Tests
use claude_email.Prelude.{
  ℕ, String, Bool, true, false, not, ◌&&◌, ◌||◌, Option, none, some, List, [], ◌∷◌, str_eq,
  if◌then◌else◌, ◌<+>◌, or_empty, or_text, text_length, rounds,
}
use claude_email.Envelope.{Part, Mail}

-- The result of gpg.
pub record Verdict : Type 0 where
  pub valid : Bool
  pub fingerprint : Option String

pub record Library : Type 0 where
  pub strip : String → String
  pub lower : String → String
  pub upper : String → String
  -- `text.replace(old, "")` and `needle in text`
  pub remove_all : (old text : String) → String
  pub contains : (needle text : String) → Bool
  -- the whole text of `split()`, and of `split(None, 1)`
  pub split : String → List String
  pub split_once : String → List String
  -- `email.utils.parseaddr(header)[1]` and `strip("<>")`
  pub parse_address : String → String
  pub strip_angles : String → String
  -- `make_header(decode_header(value))`, none where it raises
  pub decode_header : String → Option String
  -- SUBJECT_PREFIX_RE.sub("", subject), and the three patterns of quoted replies
  pub drop_prefix : String → String
  pub drop_quotes : List (String → String)
  -- the runs of text that HTMLParser feeds to `handle_data`, and `re.sub(r"<[^>]+>", " ", text)`
  pub text_runs : String → List String
  pub drop_tags : String → String
  -- hmac.compare_digest, none where it raises TypeError
  pub compare_digest : String → String → Option Bool
  pub verify_data : (gpg_home : Option String) (signature message : String) → Verdict
  pub verify : (gpg_home : Option String) (body : String) → Verdict
  pub repr : String → String
  -- the tag that _REACTION_RE finds, in lower case; whether _AGENT_NAME_RE fits the whole name
  pub reaction : String → Option String
  pub fits_agent_name : String → Bool
  -- the verb of _DIRECTIVE_YOU_VERB_RE, whether _INTERROGATIVE_RE fits, and `rstrip(" \t\n.!")`
  pub directive : String → Option String
  pub interrogative : String → Bool
  pub rstrip_end : String → String

-- A part right under a multipart message, with its decoded bytes and with its source.
pub record Child : Type 0 where
  pub content_type : String
  pub decoded : Option String
  pub bytes : String

pub data Payload : Type 0 where
  parts : List Child → Payload
  raw : String → Payload

-- The headers that are read, "" where there is none; `content` has the texts of its parts.
pub record EmailMessage : Type 0 where
  pub from_header : String
  pub return_path : String
  pub in_reply_to : String
  pub references : String
  pub message_id : String
  pub subject : Option String
  -- the parameter `protocol` of Content-Type
  pub protocol : String
  pub content : Mail
  pub payload : Payload

abbrev pub is_empty {ℓ} : {A : Type ℓ} → List A → Bool
is_empty [] = true
is_empty (x ∷ xs) = false

abbrev pub has_type : String → Part → Bool
has_type content_type p = str_eq p.content_type content_type

-- the text of the first part of a type that has one
abbrev pub first_text : (content_type : String) → List Part → String
first_text t [] = ""
first_text t (p ∷ ps) =
    let rest = first_text t ps in
    if has_type t p && not (str_eq p.payload "") then p.payload else rest

abbrev pub apply_all : List (String → String) → String → String
apply_all [] s = s
apply_all (f ∷ fs) s = apply_all fs (f s)

-- `"".join(texts)`
abbrev pub concat : List String → String
concat [] = ""
concat (t ∷ ts) = t <+> concat ts

-- `f"AUTH:{secret}"`
abbrev pub auth_prefix : String → String
auth_prefix secret = "AUTH:" <+> secret

-- `text.replace(f"AUTH:{secret}", "")` if there is a secret
abbrev pub redact : Library → (secret text : String) → String
redact lib secret text = if str_eq secret "" then text else lib.remove_all (auth_prefix secret) text

module _ (lib : Library) where
  unfoldable pub decode_subject : String → String
  decode_subject value =
      if str_eq value ""
      then ""
      else elim (lib.decode_header value) [ none ↦ value | some text ↦ text ]

  -- a round of the `while` loop, none where the text did not change
  unfoldable pub strip_prefix_step : String → Option String
  strip_prefix_step subject =
      if str_eq (lib.drop_prefix subject) subject then none else some (lib.drop_prefix subject)

  -- Each round shortens the subject, so that its length is rounds enough.
  unfoldable pub strip_subject_prefixes : String → String
  unfolding strip_prefix_step
  strip_subject_prefixes subject = rounds (text_length subject) strip_prefix_step subject

  unfoldable pub clean_subject : (subject strip_secret : String) → String
  unfolding decode_subject strip_subject_prefixes
  clean_subject subject secret =
      lib.strip (redact lib secret (strip_subject_prefixes (decode_subject subject)))

  unfoldable pub is_gpg_signed : EmailMessage → Bool
  is_gpg_signed message =
      str_eq message.content.whole.content_type "multipart/signed"
      && lib.contains "pgp-signature" (lib.lower message.protocol)

  unfoldable pub extract_text_from_html : String → String
  extract_text_from_html html = concat (lib.text_runs html)

  unfoldable pub body_text : Mail → String
  unfolding extract_text_from_html
  body_text m =
      let plain = first_text "text/plain" m.parts in
      let html = first_text "text/html" m.parts in
      if m.is_multipart
      then if not (str_eq plain "")
        then plain
        else if str_eq html ""
        then ""
        else extract_text_from_html html
      else if not (str_eq m.whole.payload "") && has_type "text/html" m.whole
      then extract_text_from_html m.whole.payload
      else m.whole.payload

  unfoldable pub extract_command :
      EmailMessage → (strip_secret : String) (allow_subject_fallback : Bool) → String
  unfolding body_text is_gpg_signed clean_subject
  extract_command message secret fallback =
      let body =
        lib.strip (redact lib secret (apply_all lib.drop_quotes (body_text message.content))) in
      if not (str_eq body "")
      then body
      else if not fallback || is_gpg_signed message
      then ""
      else clean_subject (or_empty message.subject) secret

-- ===== src/Security/Tests.antt =====
-- The gate at concrete mails: the secret in the subject and in the body, a forged sender, and a
-- subject that is not ASCII.
use claude_email.Prelude.{
  String, true, false, none, some, List, [], ◌∷◌, ◌≡◌, refl, eq_iff, arith, rounds,
}
use claude_email.Mime.{strip_subject_prefixes, decode_subject}
use claude_email.Mime.Tests.{library, letter, is_ascii}
use claude_email.Security.{
  Credentials, text_take, identify_sender, is_known_reply, extract_body_text, is_authorized,
  extract_address, extract_return_path, allowed_set, has_secret, auth_subject,
}
use claude_email.Security.Gate.{IsFrom, IsCleared, is_authorized-IsCleared}
use claude_email.Security.Ascii.{is_authorized-raises}

abbrev pub creds : Credentials
creds = record { shared_secret = "key"; gpg_fingerprint = ""; gpg_home = none }

abbrev me : List String
me = "me@home" ∷ []

in_subject : is_authorized library (letter "hello" "AUTH:key status") me creds none ≡ some true
unfolding is_authorized identify_sender allowed_set extract_address extract_return_path
    is_known_reply has_secret strip_subject_prefixes rounds decode_subject text_take
    extract_body_text
in_subject = refl

in_body : is_authorized library (letter "AUTH:key" "a question") me creds none ≡ some true
unfolding is_authorized identify_sender allowed_set extract_address extract_return_path
    is_known_reply has_secret strip_subject_prefixes rounds decode_subject text_take
    extract_body_text
in_body = refl

forged :
    is_authorized library
      (record (letter "AUTH:key" "hello") { return_path = "you@home" })
      me
      creds
      none
    ≡ some false
unfolding is_authorized identify_sender allowed_set extract_address extract_return_path
forged = refl

exact : (a b : String) → library.compare_digest a b ≡ some true → a ≡ b
exact a b h = ground (arith, eq_iff a b)

is_authorized-IsCleared_example :
    ((sender : String) × IsFrom library (letter "hello" "AUTH:key status") me sender)
    × IsCleared library (letter "hello" "AUTH:key status") creds none
is_authorized-IsCleared_example =
    is_authorized-IsCleared library exact (letter "hello" "AUTH:key status") me creds none
      in_subject

-- The secret stands in the body, and the subject is not ASCII.
abbrev greeting : String
greeting = "Grüße an alle"

identified : identify_sender library (letter "AUTH:key" greeting) me ≡ some "me@home"
unfolding identify_sender allowed_set extract_address extract_return_path
identified = refl

abbrev IsAscii : String → Type 0
IsAscii s = is_ascii s ≡ true

raises : (a b : String) → ¬ IsAscii a → library.compare_digest a b ≡ none
raises a b h = ground (arith, h)

greeting_subject : auth_subject library (letter "AUTH:key" greeting) ≡ greeting
unfolding strip_subject_prefixes rounds decode_subject
greeting_subject = refl

is_authorized-raises_example :
    is_authorized library (letter "AUTH:key" greeting) me creds none ≡ none
unfolding text_take is_known_reply
is_authorized-raises_example =
    is_authorized-raises library IsAscii raises (letter "AUTH:key" greeting) me "me@home" creds none
      identified refl refl (λ e. cc) (rw greeting_subject (omega arith))
      (rw greeting_subject (λ e. cc))

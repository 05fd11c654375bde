-- ===== src/Mime/Tests.antt =====
-- A library on texts that are in their plain form already, and what a mail's command is under it.
use Prim.Native.Char
use claude_email.Prelude.{
  String, Bool, true, false, ◌&&◌, none, some, [], ◌∷◌, str_eq, ltb, ◌≡◌, refl, if◌then◌else◌,
  rounds,
}
use claude_email.Envelope.{Part, Mail}
use claude_email.Mime.{Library, Verdict, EmailMessage, raw, extract_command}

abbrev pub is_ascii : String → Bool
is_ascii String.[] = true
is_ascii (String.◌∷◌ c s) = ltb (Char.code c) 128 && is_ascii s

abbrev pub same : String → String
same s = s

abbrev pub distrust : Verdict
distrust = record { valid = false; fingerprint = none }

abbrev pub library : Library
library = record {
  strip = same;
  lower = same;
  upper = same;
  remove_all = λ old s. if str_eq old s then "" else s;
  contains = str_eq;
  split = λ s. s ∷ [];
  split_once = λ s. s ∷ [];
  parse_address = same;
  strip_angles = same;
  decode_header = λ s. some s;
  drop_prefix = λ s. if str_eq s "Re: status" then "status" else s;
  drop_quotes = [];
  text_runs = λ s. s ∷ [];
  drop_tags = same;
  compare_digest = λ a b. if is_ascii a && is_ascii b then some (str_eq a b) else none;
  verify_data = λ home sig m. distrust;
  verify = λ home body. distrust;
  repr = same;
  reaction = λ s. if str_eq s "[like]" then some "like" else none;
  fits_agent_name = λ s. true;
  directive = λ s. none;
  interrogative = λ s. false;
  rstrip_end = same;
}

abbrev pub plain : String → Mail
plain s =
    let p : Part = record { content_type = "text/plain"; payload = s } in
    record { whole = p; is_multipart = false; parts = p ∷ [] }

-- A mail from a user, with a body and a subject.
abbrev pub letter : (body subject : String) → EmailMessage
letter body subject = record {
  from_header = "me@home";
  return_path = "me@home";
  in_reply_to = "";
  references = "";
  message_id = "<1@home>";
  subject = some subject;
  protocol = "";
  content = plain body;
  payload = raw body;
}

-- The body without the secret; without a body, the subject without its prefix.
from_body : extract_command library (letter "fix it" "Re: status") "key" true ≡ "fix it"
unfolding extract_command
from_body = refl

from_subject : extract_command library (letter "AUTH:key" "Re: status") "key" true ≡ "status"
unfolding extract_command rounds
from_subject = refl

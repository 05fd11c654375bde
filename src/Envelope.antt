-- ===== src/Envelope.antt =====
-- src/json_envelope.py, src/envelope_builder.py and src/envelope_v.py: the JSON envelopes. The mail is
-- read by Python's email package and the text by json and str: their answers are arguments.
pub mod Validation
pub mod Errors
pub mod Build
pub mod Echo
pub mod Tests
use claude_email.Prelude.{
  ℕ, String, Bool, true, false, not, ◌&&◌, ◌||◌, Option, none, some, List, [], ◌∷◌, str_eq, any,
  head?, if◌then◌else◌, ◌<+>◌, ℤ, pos, ltb_ℤ, ◌⊎◌, inl, inr,
}
use claude_email.Json.{
  Json, Fields, Python, Conversion, null, bool, int, float, text, array, object, field, converted,
  refused, overflow, get_field, truthy, text_or_empty, fields_or_empty, number, hashable,
}

-- V
abbrev pub version_ceiling : ℤ
version_ceiling = pos 2

unfoldable pub negotiate_v : ℤ → ℤ
negotiate_v client_v =
    if ltb_ℤ client_v (pos 1)
    then pos 1
    else if ltb_ℤ client_v version_ceiling
    then client_v
    else version_ceiling

abbrev pub json_content_type : String
json_content_type = "application/json"

abbrev pub inbound_kinds : List String
inbound_kinds =
    "command" ∷ "reply" ∷ "status" ∷ "cancel" ∷ "retry" ∷ "commit" ∷ "reset" ∷ "confirm_reset"
    ∷ "list_projects" ∷ []

-- A part of a mail; the payload is the decoded text, empty without one.
pub record Part : Type 0 where
  pub content_type : String
  pub payload : String

-- `parts` are those of `walk()`, which starts at the whole.
pub record Mail : Type 0 where
  pub whole : Part
  pub is_multipart : Bool
  pub parts : List Part

abbrev pub is_json_part : Part → Bool
is_json_part p = str_eq p.content_type json_content_type

unfoldable pub is_json_email : Mail → Bool
is_json_email m = is_json_part m.whole || m.is_multipart && any is_json_part m.parts

unfoldable pub first_json_text : List Part → String
first_json_text [] = ""
first_json_text (p ∷ ps) =
    let rest = first_json_text ps in
    if is_json_part p && not (str_eq p.payload "") then p.payload else rest

unfoldable pub extract_json_text : Mail → String
unfolding first_json_text
extract_json_text m =
    if is_json_part m.whole && not (str_eq m.whole.payload "")
    then m.whole.payload
    else if m.is_multipart
    then first_json_text m.parts
    else ""

pub record Envelope : Type 0 where
  pub v : ℤ
  pub kind : String
  pub body : String
  pub task_id : Option ℤ
  pub project : Option String
  pub priority : Option ℤ
  pub plan_first : Bool
  pub drain_queue : Bool
  pub new_body : String
  pub token : String
  pub auth : String
  pub client : String
  pub sent_at : String
  pub ask_id : Option ℤ
  pub prefer_live_agent : Bool
  pub extras : Fields

-- What a parse ends with: an envelope, an EnvelopeError, or an exception of Python's own.
pub data Parsed {ℓ} (A : Type ℓ) : Type ℓ where
  parsed : A → Parsed A
  envelope_error : (code message : String) (ask_id : Option ℤ) → Parsed A
  overflow_error : Parsed A
  type_error : Parsed A

infixl 5 ◌>>=◌ ◌>>◌
abbrev pub ◌>>=◌ : {A B : Type 0} → Parsed A → (A → Parsed B) → Parsed B
parsed a >>= f = f a
envelope_error c m i >>= f = envelope_error c m i
overflow_error >>= f = overflow_error
type_error >>= f = type_error

abbrev pub ◌>>◌ : {A B : Type 0} → Parsed A → Parsed B → Parsed B
m >> n = m >>= λ _. n

module _ (py : Python) where
  abbrev pub from_conversion : Conversion → Parsed (Option ℤ)
  from_conversion (converted n) = parsed (some n)
  from_conversion refused = parsed none
  from_conversion overflow = overflow_error

  -- int("") is refused too, so that one clause stands for both guards
  unfoldable pub int_or_none : Json → Parsed (Option ℤ)
  int_or_none null = parsed none
  int_or_none (text s) = if str_eq s "" then parsed none else from_conversion (py.int_of (text s))
  int_or_none j = from_conversion (py.int_of j)

  -- `project`: a true value as text
  abbrev pub text_or_none : Json → Option String
  text_or_none j = if truthy py j then some (py.str j) else none

  abbrev pub supported : Json → Option ℤ
  supported j = elim (number j) [
    | none ↦ none
    | some n ↦ if ltb_ℤ n (pos 1) || ltb_ℤ version_ceiling n then none else some n
  ]

  unfoldable pub check_version : Json → Option ℤ → Parsed ℤ
  check_version j ask_id = elim (supported j) [
    | none ↦
        envelope_error "bad_envelope"
          ("unsupported version " <+> py.repr j <+> "; supported range is 1..2") ask_id
    | some n ↦ parsed n
  ]

  abbrev pub not_inbound : Json → String
  not_inbound kind =
      "kind "
      <+> py.repr kind
      <+> " is not one of ['cancel', 'command', 'commit', 'confirm_reset', 'list_projects', "
      <+> "'reply', 'reset', 'retry', 'status']"

  -- `kind not in INBOUND_KINDS` hashes the kind
  unfoldable pub check_kind : Json → Option ℤ → Parsed String
  check_kind (text s) ask_id =
      if any (str_eq s) inbound_kinds
      then parsed s
      else envelope_error "unknown_kind" (not_inbound (text s)) ask_id
  check_kind j ask_id =
      if hashable j then envelope_error "unknown_kind" (not_inbound j) ask_id else type_error

  abbrev pub envelope_of :
      (v : ℤ) (kind : String) (task_id priority ask_id : Option ℤ) (meta fields : Fields) → Envelope
  envelope_of v kind task_id priority ask_id meta fields = record {
    v = v;
    kind = kind;
    body = text_or_empty py (get_field "body" fields);
    task_id = task_id;
    project = text_or_none (get_field "project" fields);
    priority = priority;
    plan_first = truthy py (get_field "plan_first" fields);
    drain_queue = truthy py (get_field "drain_queue" fields);
    new_body = text_or_empty py (get_field "new_body" fields);
    token = text_or_empty py (get_field "token" fields);
    auth = text_or_empty py (get_field "auth" meta);
    client = text_or_empty py (get_field "client" meta);
    sent_at = text_or_empty py (get_field "sent_at" meta);
    ask_id = ask_id;
    prefer_live_agent = truthy py (get_field "prefer_live_agent" meta);
    extras = fields;
  }

  -- `parse_envelope` behind the parse of the text
  unfoldable pub parse_fields : Fields → Parsed Envelope
  unfolding int_or_none check_version check_kind
  parse_fields fields = do
    let meta = fields_or_empty (get_field "meta" fields)
    ask_id ← int_or_none (get_field "ask_id" meta)
    v ← check_version (get_field "v" fields) ask_id
    kind ← check_kind (get_field "kind" fields) ask_id
    task_id ← int_or_none (get_field "task_id" fields)
    priority ← int_or_none (get_field "priority" fields)
    parsed (envelope_of v kind task_id priority ask_id meta fields)

  -- `loads` has the text of a JSONDecodeError on the left.
  module _ (strip : String → String) (loads : String → String ⊎ Json) where
    abbrev pub bad_envelope : String → Parsed Envelope
    bad_envelope message = envelope_error "bad_envelope" message none

    unfoldable pub parse_json : String ⊎ Json → Parsed Envelope
    unfolding parse_fields
    parse_json (inl exc) = bad_envelope ("JSON parse failed: " <+> exc)
    parse_json (inr (object fields)) = parse_fields fields
    parse_json (inr j) = bad_envelope "envelope must be a JSON object"

    unfoldable pub parse_envelope : Mail → Parsed Envelope
    unfolding extract_json_text parse_json
    parse_envelope m =
        let content = strip (extract_json_text m) in
        if str_eq content ""
        then bad_envelope "no application/json part found"
        else parse_json (loads content)

-- ===== src/Commands.antt =====
-- src/chat_router.py, src/reaction_router.py, src/spawn_args.py and src/agent_name.py: what a mail
-- asks for.
use claude_email.Prelude.{
  ℕ, String, Bool, true, false, Option, none, some, List, [], ◌∷◌, str_eq, any, if◌then◌else◌,
  ◌<+>◌, or_empty, or_text,
}
use claude_email.Db.{Db}
use claude_email.Bus.{Draft, find_message_by_email_id}
use claude_email.Classifier.{after_prefix}
use claude_email.Mime.{
  Library, EmailMessage, decode_subject, strip_subject_prefixes, extract_command,
}

abbrev pub meta_commands : List String
meta_commands = "status" ∷ "spawn" ∷ "restart" ∷ []

pub data Route : Type 0 where
  chat_reply : (agent_name : String) (original_message_id : ℕ) → Route
  agent_command : (agent_name body : String) → Route
  meta : (meta_command meta_args : String) → Route
  cli : Route

-- the first word, and what stands behind it; "" where `split(None, 1)` has no such part
abbrev pub first_of : List String → String
first_of [] = ""
first_of (w ∷ ws) = w

abbrev pub rest_of : List String → String
rest_of (w ∷ rest ∷ ws) = rest
rest_of _ = ""

-- `text[1:]`
abbrev pub tail_of : String → String
tail_of String.[] = ""
tail_of (String.◌∷◌ c s) = s

abbrev pub is_prefix : (prefix text : String) → Bool
is_prefix prefix s = elim (after_prefix prefix s) [ none ↦ false | some r ↦ true ]

-- `text.removeprefix(prefix)`
abbrev pub remove_prefix : (prefix text : String) → String
remove_prefix prefix s = elim (after_prefix prefix s) [ none ↦ s | some r ↦ r ]

-- `" ".join(words)`
abbrev pub join_words : List String → String
join_words [] = ""
join_words (w ∷ []) = w
join_words (w ∷ v ∷ ws) = w <+> " " <+> join_words (v ∷ ws)

module _ (lib : Library) where
  unfoldable pub strip_subject_prefix : (subject auth_prefix : String) → String
  unfolding decode_subject strip_subject_prefixes after_prefix
  strip_subject_prefix subject auth_prefix =
      let cleaned = lib.strip (strip_subject_prefixes lib (decode_subject lib subject)) in
      elim (after_prefix auth_prefix cleaned) [ none ↦ cleaned | some rest ↦ lib.strip rest ]

  -- the Route of a mail that is no reply on the bus, from its subject
  unfoldable pub route_command : EmailMessage → (command auth_prefix : String) → Route
  unfolding after_prefix
  route_command message command auth_prefix =
      let words = lib.split_once command in
      let secret = remove_prefix "AUTH:" auth_prefix in
      let first_word = if str_eq command "" then "" else lib.lower (first_of words) in
      if is_prefix "@" command
      then agent_command (tail_of (first_of words))
          (or_text (extract_command lib message secret false) (rest_of words))
      else if any (str_eq first_word) meta_commands
      then meta first_word (rest_of words)
      else cli

  unfoldable pub classify_email : EmailMessage → Db → (auth_prefix : String) → Route
  unfolding strip_subject_prefix route_command
  classify_email message db auth_prefix =
      let eid = lib.strip message.in_reply_to in
      let command = strip_subject_prefix (or_empty message.subject) auth_prefix in
      let routed = route_command message command auth_prefix in
      elim (if str_eq eid "" then none else find_message_by_email_id eid db) [
        | none ↦ routed
        | some original ↦ chat_reply original.from_name original.id
      ]

  unfoldable pub validated_agent_name : (raw : Option String) (fallback : String) → String
  validated_agent_name raw fallback =
      if str_eq (or_empty raw) ""
      then fallback
      else if lib.fits_agent_name (or_empty raw)
      then or_empty raw
      else fallback

-- what follows the path; none where the name is missing behind `as`
abbrev pub behind_path : List String → Option (Option String × String)
behind_path [] = some (none, "")
behind_path (t ∷ []) = if str_eq t "as" then none else some (none, t)
behind_path (t ∷ name ∷ rest) =
    if str_eq t "as"
    then some (some name, join_words rest)
    else some (none, join_words (t ∷ name ∷ rest))

-- over `raw.split()`; none where it raises ValueError
unfoldable pub parse_spawn_args : List String → Option (String × Option String × String)
parse_spawn_args [] = some ("", none, "")
parse_spawn_args (path ∷ tokens) = elim (behind_path tokens) [
  | none ↦ none
  | some (name, instruction) ↦ some (path, name, instruction)
]

abbrev pub positive_reactions : List String
positive_reactions = "like" ∷ "heart" ∷ "thumbsup" ∷ "celebrate" ∷ "surprised" ∷ "laugh" ∷ []

abbrev pub user_draft : (to_name body msg_type : String) (in_reply_to : Option ℕ) → Draft
user_draft to_name body msg_type n = record {
  from_name = "user";
  to_name = to_name;
  body = body;
  msg_type = msg_type;
  in_reply_to = n;
  content_type = "";
  task_id = none;
  in_reply_to_eid = "";
  email_message_id = "";
}

-- What `handle_reaction` writes on the bus, and its acknowledgment, by whether the original is an ask.
abbrev pub reaction_answer : (reaction : String) → String
reaction_answer reaction = if any (str_eq reaction) positive_reactions then "yes" else "no"

unfoldable pub reaction_body : (is_ask : Bool) (reaction : String) → String
reaction_body is_ask reaction =
    if is_ask then reaction_answer reaction else "[" <+> reaction <+> "]"

unfoldable pub reaction_ack : (is_ask : Bool) (agent_name reaction : String) → String
reaction_ack is_ask name reaction =
    if is_ask
    then "Recorded "
      <+> reaction
      <+> " as '"
      <+> reaction_answer reaction
      <+> "' on the pending question for "
      <+> name
      <+> " (noted, no work queued)."
    else "Got your " <+> reaction <+> " — noted, no work queued."

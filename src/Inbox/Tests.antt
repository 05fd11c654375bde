-- ===== src/Inbox/Tests.antt =====
-- A command for an agent, an envelope and a question for the status, in one universe.
use claude_email.Prelude.{
  pos, String, true, false, none, some, [], ◌∷◌, ◌≡◌, inl, inr, refl, eq_iff, arith, rounds, length,
  ap,
}
use claude_email.Effect.{raise, value_error}
use claude_email.Db.{empty_db, Agent}
use claude_email.Json.{Fields, text, object, field, no_fields, int, get_field, text_or_empty}
use claude_email.Envelope.{Envelope, Part, parsed, parse_envelope, envelope_of, is_json_email}
use claude_email.Envelope.Tests.{python}
use claude_email.Control.{delivered}
use claude_email.Kinds.Tests.{paths, pool, row, list_projects}
use claude_email.Mime.{EmailMessage, extract_command, strip_subject_prefixes, decode_subject}
use claude_email.Mime.Tests.{library, letter, same}
use claude_email.Security.{
  Credentials, identify_sender, allowed_set, extract_address, extract_return_path, is_authorized,
  is_known_reply, has_secret, text_take,
}
use claude_email.Stores.{record_outbound_email}
use claude_email.Commands.{classify_email, agent_command}
use claude_email.Inbox.{World, Outside, Config}
use claude_email.Inbox.Answers.{handle_json_email}
use claude_email.Inbox.Handlers.{handle_chat_email}
use claude_email.Inbox.Main.{process_email}
use claude_email.Inbox.Gate.{MayAct, process_email-MayAct}
use claude_email.Inbox.Envelopes.{IsKept, handle_json_email-IsKept}
use claude_email.Inbox.Agents.{Told, handle_chat_email-agent_command}

abbrev envelope : Fields
envelope = field "v" (int (pos 1)) (field "kind" (text "cancel") no_fields)

abbrev pub outside : Outside Unit
outside = record {
  lib = library;
  send_reply = λ sent m. some "<2@here>";
  execute_command = λ p s. ("done", s);
  spawn_agent = λ dir name text db. (raise (value_error "no"), db);
  paths = paths;
  pool = pool;
  current_branch = same;
  valid_branch = λ s. true;
  classify = λ s. none;
  branch_name = λ n s. s;
  isoformat = λ n. "noon";
  python = python;
  loads = λ s. inr (object envelope);
  dumps = λ j. "{}";
  row = row;
  list_projects = list_projects;
  fixup_fails = false;
  stop = record { sigterm = delivered; exited = true; sigkill = delivered; meanwhile = λ s. s };
  freshness = 60;
}

abbrev pub creds : Credentials
creds = record { shared_secret = "key"; gpg_fingerprint = ""; gpg_home = none }

abbrev pub config : Config
config = record {
  authorized_senders = "me@home" ∷ [];
  authorized_sender = "me@home";
  reply_to = "me@home";
  credentials = creds;
  auth_prefix = "AUTH:key";
  claude_cwd = "/base";
  universe = none;
  service_name_chat = "chat";
  service_name_email = "email";
  llm_router = false;
  claude_timeout = 300;
}

abbrev helper : Agent
helper = record {
  name = "agent-a";
  project_path = "/base/a";
  status = "running";
  pid = none;
  registered_at = 1;
  last_seen_at = 1;
}

abbrev pub world : World Unit
world = record { db = record empty_db { agents = helper ∷ [] }; workers = tt; sent = []; acts = [] }

pub exact : (a b : String) → library.compare_digest a b ≡ some true → a ≡ b
exact a b h = ground (arith, eq_iff a b)

-- A question for the status is answered by one mail.
sends_one :
    length (process_email outside 5 "" true config (letter "" "AUTH:keystatus") world).1.sent ≡ 1
unfolding process_email identify_sender allowed_set extract_address extract_return_path
    is_json_email is_authorized is_known_reply has_secret strip_subject_prefixes rounds
    decode_subject text_take handle_chat_email classify_email record_outbound_email
sends_one = refl

answered : ¬ ((process_email outside 5 "" true config (letter "" "AUTH:keystatus") world).1 ≡ world)
answered h = omega (arith, sends_one, ap (λ w. length (World.sent w)) h)

process_email-MayAct_example :
    MayAct outside true config.authorized_senders creds (letter "" "AUTH:keystatus") world
process_email-MayAct_example =
    process_email-MayAct outside exact 5 "" true config (letter "" "AUTH:keystatus") world answered

abbrev json_letter : EmailMessage
json_letter =
    let p : Part = record { content_type = "application/json"; payload = "{…}" } in
    record (letter "" "task") {
      content = record { whole = p; is_multipart = false; parts = p ∷ [] };
    }

abbrev cancel_envelope : Envelope
cancel_envelope = envelope_of python (pos 1) "cancel" none none none no_fields envelope

envelope_parsed :
    parse_envelope python same outside.loads json_letter.content ≡ parsed cancel_envelope
unfolding parse_envelope get_field
envelope_parsed = refl

handle_json_email-IsKept_example :
    IsKept world (handle_json_email outside 5 config json_letter world).1
unfolding text_or_empty get_field
handle_json_email-IsKept_example =
    handle_json_email-IsKept outside 5 config json_letter cancel_envelope world envelope_parsed
      (inl (refl, refl))

for_agent :
    classify_email library (letter "hello" "@agent-a") world.db config.auth_prefix
    ≡ agent_command "agent-a" "hello"
unfolding classify_email rounds extract_command
for_agent = refl

handle_chat_email-agent_command_example :
    Told outside 5 config
      (letter "hello" "@agent-a")
      "agent-a"
      "hello"
      world
      (handle_chat_email outside 5 config (letter "hello" "@agent-a") world).1
handle_chat_email-agent_command_example =
    handle_chat_email-agent_command outside 5 config (letter "hello" "@agent-a") "agent-a" "hello"
      world for_agent

-- ===== src/Universes/Tests.antt =====
-- Two environments: a sender with an alias, and a test sender.
use claude_email.Prelude.{
  String, true, false, none, some, List, [], ◌∷◌, str_eq, ◌≡◌, refl, if◌then◌else◌,
}
use claude_email.Mime.Tests.{same}
use claude_email.Universes.{Universe, Env, built, value_error, build_universes}
use claude_email.Universes.Senders.{IsIsolated, build_universes-OwnCredentials}

abbrev env : Env
env name =
    if str_eq name "AUTHORIZED_SENDER"
    then some "me@home,me@work"
    else if str_eq name "SHARED_SECRET"
    then some "key"
    else if str_eq name "GPG_HOME"
    then none
    else some "x"

abbrev test_env : Env
test_env name =
    if str_eq name "SENDER"
    then some "test@home"
    else if str_eq name "SHARED_SECRET"
    then some "other"
    else none

abbrev split_commas : String → List String
split_commas s = if str_eq s "me@home,me@work" then "me@home" ∷ "me@work" ∷ [] else s ∷ []

abbrev pub primary : Universe
primary = record {
  sender = "me@home";
  allowed_base = "x";
  chat_db_path = "x";
  chat_url = "x";
  mcp_config = "/repo/.mcp.json";
  service_name_chat = "x";
  credentials = record { shared_secret = "key"; gpg_fingerprint = "x"; gpg_home = none };
  is_test = false;
  aliases = "me@work" ∷ [];
}

abbrev pub test : Universe
test = record {
  sender = "test@home";
  allowed_base = "x";
  chat_db_path = "claude-chat-test.db";
  chat_url = "http://127.0.0.1:8421/sse";
  mcp_config = "/repo/.mcp-test.json";
  service_name_chat = "claude-chat-test.service";
  credentials = record { shared_secret = "other"; gpg_fingerprint = ""; gpg_home = none };
  is_test = true;
  aliases = [];
}

universes_built :
    build_universes same same same split_commas "/repo" env test_env ≡ built (primary ∷ test ∷ [])
unfolding build_universes
universes_built = refl

-- The address of the other universe is refused.
duplicate :
    build_universes same same same split_commas "/repo" env (λ name. some "me@work")
    ≡ value_error ".env.test SENDER me@work duplicates a primary AUTHORIZED_SENDER address"
unfolding build_universes
duplicate = refl

build_universes-OwnCredentials_example :
    IsIsolated same same same env test_env (primary ∷ test ∷ [])
build_universes-OwnCredentials_example =
    build_universes-OwnCredentials same same same split_commas "/repo" env test_env
      (primary ∷ test ∷ []) universes_built

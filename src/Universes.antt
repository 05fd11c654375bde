-- ===== src/Universes.antt =====
-- src/universes.py: the universes of the environment, and whose mail goes to which. `strip`, `lower`
-- and `split(",")` are arguments, and an environment is the look-up of its variables.

pub mod Senders
pub mod Tests
use claude_email.Prelude.{
  String, Bool, true, false, not, ◌&&◌, Option, none, some, List, [], ◌∷◌, ◌++◌, map, str_eq, any,
  if◌then◌else◌, ◌<+>◌, or_empty, or_none, or_text,
}
use claude_email.Mime.{auth_prefix}
use claude_email.Security.{Credentials}

pub record Universe : Type 0 where
  pub sender : String
  pub allowed_base : String
  pub chat_db_path : String
  pub chat_url : String
  pub mcp_config : String
  pub service_name_chat : String
  pub credentials : Credentials
  pub is_test : Bool
  pub aliases : List String

-- the property `auth_prefix`
abbrev pub prefix_of : Universe → String
prefix_of u = auth_prefix u.credentials.shared_secret

abbrev pub all_senders : Universe → List String
all_senders u = u.sender ∷ u.aliases

-- What a call returns, or its KeyError or ValueError.
pub data Built {ℓ} (A : Type ℓ) : Type ℓ where
  built : A → Built A
  key_error : (name : String) → Built A
  value_error : (message : String) → Built A

infixl 5 ◌>>=◌
abbrev pub ◌>>=◌ : {A B : Type 0} → Built A → (A → Built B) → Built B
built a >>= f = f a
key_error name >>= f = key_error name
value_error message >>= f = value_error message

-- An environment.
abbrev pub Env : Type 0
Env = String → Option String

-- `src[name]`
abbrev pub demand : Env → String → Built String
demand env name = elim (env name) [ none ↦ key_error name | some s ↦ built s ]

-- `src.get(name, default)`
abbrev pub get_or : Env → (name otherwise : String) → String
get_or env name otherwise = elim (env name) [ none ↦ otherwise | some s ↦ s ]

abbrev pub credentials_of : Env → Credentials
credentials_of env = record {
  shared_secret = get_or env "SHARED_SECRET" "";
  gpg_fingerprint = get_or env "GPG_FINGERPRINT" "";
  gpg_home = or_none (get_or env "GPG_HOME" "");
}

abbrev pub first_and_rest : List String → Built (String × List String)
first_and_rest [] = value_error "AUTHORIZED_SENDER must contain at least one address"
first_and_rest (p ∷ ps) = built (p, ps)

module _ (strip lower : String → String) (repr : String → String) where
  -- The loop on the parts of the text; `seen` has those before in lower case.
  unfoldable pub collect : (seen : List String) → List String → Built (List String)
  collect seen [] = built []
  collect seen (part ∷ parts) =
      let p = strip part in
      let skipped = collect seen parts in
      let kept = collect (lower p ∷ seen) parts in
      if str_eq p ""
      then skipped
      else if any (str_eq (lower p)) seen
      then value_error ("AUTHORIZED_SENDER contains duplicate address: " <+> repr p)
      else (do rest ← kept; built (p ∷ rest))

  -- over `raw.split(",")`
  unfoldable pub parse_senders : List String → Built (String × List String)
  unfolding collect
  parse_senders parts = do senders ← collect [] parts; first_and_rest senders

  module _ (split_commas : String → List String) (repo_root : String) where
    unfoldable pub universe_of : Env → String × List String → Built Universe
    universe_of env (canonical, aliases) = do
      allowed_base ← demand env "CLAUDE_CWD"
      chat_db_path ← demand env "CHAT_DB_PATH"
      chat_url ← demand env "CHAT_URL"
      service ← demand env "SERVICE_NAME_CHAT"
      built (record {
        sender = canonical;
        allowed_base = allowed_base;
        chat_db_path = chat_db_path;
        chat_url = chat_url;
        mcp_config = repo_root <+> "/.mcp.json";
        service_name_chat = service;
        credentials = credentials_of env;
        is_test = false;
        aliases = aliases;
      })

    unfoldable pub primary_universe : Env → Built Universe
    unfolding parse_senders universe_of
    primary_universe env = do
      raw ← demand env "AUTHORIZED_SENDER"
      senders ← parse_senders (split_commas raw)
      universe_of env senders

    unfoldable pub test_universe : (env test_env : Env) → (test_sender : String) → Built Universe
    test_universe env test_env sender = do
      base ← demand env "CLAUDE_CWD"
      built (record {
        sender = sender;
        allowed_base = or_text (get_or test_env "CLAUDE_CWD" "") base;
        chat_db_path = get_or test_env "CHAT_DB_PATH" "claude-chat-test.db";
        chat_url = get_or test_env "CHAT_URL" "http://127.0.0.1:8421/sse";
        mcp_config = repo_root <+> "/.mcp-test.json";
        service_name_chat = get_or test_env "SERVICE_NAME_CHAT" "claude-chat-test.service";
        credentials = credentials_of test_env;
        is_test = true;
        aliases = [];
      })

    -- the second universe, if the test environment names a sender
    unfoldable pub add_test : (env test_env : Env) → Universe → Built (List Universe)
    unfolding test_universe
    add_test env test_env primary =
        let sender = strip (get_or test_env "SENDER" "") in
        if str_eq sender ""
        then built (primary ∷ [])
        else if any (str_eq (lower sender)) (map lower (all_senders primary))
        then value_error (
            ".env.test SENDER "
            <+> repr sender
            <+> " duplicates a primary AUTHORIZED_SENDER address")
        else (do test ← test_universe env test_env sender; built (primary ∷ test ∷ []))

    unfoldable pub build_universes : (env test_env : Env) → Built (List Universe)
    unfolding primary_universe add_test
    build_universes env test_env = do primary ← primary_universe env; add_test env test_env primary

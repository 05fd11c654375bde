-- ===== src/Poller.antt =====
-- src/poller.py and the loop of src/main.py over the mails of a poll: the Message-IDs that were
-- processed, and the mails that are fetched. The IMAP server is the list of the mails it answers with.
pub mod Replay
mod Tests
use claude_email.Prelude.{
  ℕ, ◌+◌, String, Bool, true, false, not, ◌&&◌, Option, none, some, List, [], ◌∷◌, ◌++◌, map,
  str_eq, any, ltb, length, drop, ◌-◌, if◌then◌else◌,
}
use claude_email.Table.{select}

abbrev pub max_processed_ids : ℕ
max_processed_ids = 10_000

-- What `json.loads` makes of the state file: a list of texts, or something else or nothing.
pub data StateFile : Type 0 where
  missing : StateFile
  corrupted : StateFile
  ids : List String → StateFile

abbrev pub has_id : List String → String → Bool
has_id processed message_id = any (str_eq message_id) processed

-- `d[key] = None`: a key that is there keeps its place
abbrev pub add_key : String → List String → List String
add_key key keys = if has_id keys key then keys else keys ++ key ∷ []

abbrev pub add_keys : List String → List String → List String
add_keys [] keys = keys
add_keys (k ∷ ks) keys = add_keys ks (add_key k keys)

-- A mail that the server answers with: its UID, its Message-ID and itself.
pub record Fetched (Message : Type 0) : Type 0 where
  pub uid : String
  pub message_id : String
  pub message : Message

module _ (max_ids : ℕ) where
  -- `data[-max:]`
  abbrev pub newest_of : List String → List String
  newest_of data_ids = drop (length data_ids - max_ids) data_ids

  unfoldable pub load_state : StateFile → List String
  load_state missing = []
  load_state corrupted = []
  load_state (ids data_ids) = add_keys (newest_of data_ids) []

  -- the `while` loop of `_save_state`
  unfoldable pub trim : List String → List String
  trim [] = []
  trim (k ∷ ks) = let rest = trim ks in if ltb max_ids (length (k ∷ ks)) then rest else k ∷ ks

  -- `mark_processed` on a connection, and the ids that the state file then has
  unfoldable pub mark_processed : (message_id : String) → List String → List String
  unfolding trim
  mark_processed message_id processed =
      if str_eq message_id "" then processed else trim (add_key message_id processed)

  unfoldable pub mark_all : List String → List String → List String
  unfolding mark_processed
  mark_all [] processed = processed
  mark_all (m ∷ ms) processed = mark_all ms (mark_processed m processed)

module _ {Message : Type 0} where
  abbrev pub is_new : List String → Fetched Message → Bool
  is_new processed m = not (not (str_eq m.message_id "") && has_id processed m.message_id)

  unfoldable pub fetch_unseen : List String → List (Fetched Message) → List (Fetched Message)
  fetch_unseen processed answers = select (is_new processed) answers

  -- The loop over the mails of a poll; `dispatch` is `dispatch_by_sender` with its exceptions logged.
  module _ {State : Type 0} (max_ids : ℕ) (dispatch : Message → State → State)
      (shutdown : State → Bool) where
    unfoldable pub process_messages :
        List (Fetched Message) → State × List String → State × List String
    unfolding mark_processed
    process_messages [] s = s
    process_messages (m ∷ ms) (s, processed) =
        let rest =
          process_messages ms
            (dispatch m.message s, mark_processed max_ids m.message_id processed) in
        if shutdown s then (s, processed) else rest

    unfoldable pub poll :
        (answers : List (Fetched Message)) → State × List String → State × List String
    unfolding fetch_unseen process_messages
    poll answers (s, processed) = process_messages (fetch_unseen processed answers) (s, processed)

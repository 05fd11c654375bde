-- ===== src/Lib.antt =====
-- claude-email: agents of a fleet of repositories, driven by mail. A mail loop turns mails into tasks
-- and messages in one SQLite file (claude-chat.db); workers, one for each project, claim the tasks and
-- run an agent; agents talk to the user and to each other over a message bus in the same file.
--
-- The parts, and the files that model them:
-- - Db: the tables of src/chat_schema.py, each a list of rows in rowid order, and the database `Db`.
-- - Effect: results with an error, and actions on a database that may raise.
-- - Table: what SQL's SELECT, UPDATE, RETURNING and ORDER BY do to a list of rows.
-- - Queue: `TaskQueue` of src/task_queue.py, one definition for a method, under its name. It has its
--   own connection, and each method is one transaction. Queue/Calls has every call that writes as
--   data, so that a list of them is any interleaving of the processes that share the file.
--   Queue/Refinement has a specification of the queue: a slot and a waiting list for each project.
--   Queue/History has the calls as a step relation, and what becomes of a task along its steps.
-- - Bus: the transaction bodies of src/chat_db_impls.py (`_impl_x` is `x`), with the foreign key of
--   `messages.in_reply_to`. `hooks` of a database counts the wake hooks that a body queued.
-- - Tx: `TransactionMixin` of src/chat_db_tx.py, over any contents and any body.
-- - Registry: the bodies of src/agent_registry_impls.py, and the verdict of src/agent_state.py.
-- - Liveness: src/process_liveness.py.
-- - TaskState: src/task_state.py, over the queue.
-- - Ghosts: src/ghost_reaper.py, over the queue.
-- - Branch: src/git_ops.py and src/branch_prep.py, over a git command.
-- - Worker: one turn of src/project_worker.py (`run_task`), over a process and what others do meanwhile.
-- - Stores: src/outbound_emails_store.py, src/wake_session_store.py, src/chat_db_lookups.py and
--   src/db_maintenance.py.
-- - Control: src/task_control.py and src/reset_control.py, over the queue, a store of tokens and git. A
--   `Stop` has what os.kill does and what other processes do to the queue during the wait.
-- - Wake: src/wake_helpers.py.
-- - Chat: the public methods of src/chat_db.py and src/agent_registry.py, each a body of Bus or
--   Registry under Tx.
-- - Relay: src/relay_routing.py, and the relay of the user's mail of src/chat_relay.py and
--   src/email_format.py.
-- - Thread: src/email_thread.py, the walk up the mails of a thread and its transcript.
-- - Json, Envelope: JSON values, and src/json_envelope.py with src/envelope_builder.py,
--   src/envelope_v.py, src/error_codes.py and src/origin_envelope.py.
-- - Status: src/status_envelope.py.
-- - Watcher: src/wake_watcher.py over src/wake_spawn.py, one turn for an agent and a pass over all.
-- - Classifier: src/mutation_classifier.py.
-- - Manager: src/worker_manager.py.
-- - Tools: chat/project_tools.py, over the queue, a file system and a manager.
-- - Kinds: src/json_kinds.py and src/json_handler.py, over Envelope and Tools.
-- - Reply: src/reply_router.py and src/reply_routing_fixup.py, over the bus, the queue and git.
-- - Mime: a mail as Python's `email` reads it, the record `Library` of what the source calls of it, and
--   src/email_extract.py.
-- - Security: src/security.py and src/gpg_verify.py.
-- - Commands: src/chat_router.py, src/reaction_router.py, src/spawn_args.py and the
--   name that src/spawner.py gives to an agent.
-- - Question: src/question_classifier.py.
-- - Inbox: one mail through `process_email` of main.py, src/chat_handlers.py, src/question_handler.py
--   and the entry of src/json_handler.py. `World` is what a mail may change (bus, tasks, workers, mails
--   that were sent, what ran outside), and a handler is an action on it that may raise.
-- - Universes: src/universes.py, the senders and credentials of an environment.
-- - Dispatch: src/dispatch.py, a mail to the world of the universe that its sender belongs to.
-- - Poller: the ids that src/poller.py remembers, and the mails of one poll in main.py.
-- - ChatTools: the tools of chat/tools.py that use the bus, with src/progress_envelope.py and
--   src/question_envelope.py. A question waits in rounds, and what others do in between is an argument.
-- - Mutations: chat/project_mutations.py, the two steps of a reset and the commit of a project.
-- - Prelude: shared names, integers, lists and texts.
--
-- Clock: `now` is an argument, one reading for a call. A timestamp is a number of microseconds since
-- year 1. The source compares ISO texts in UTC; texts with a fraction of six digits order as these
-- numbers do, while Python omits a fraction that is 0, which is not modelled.
-- Exceptions: Tx and Chat have those of SQLite in a transaction, and so do `message_agent` in ChatTools
-- and `handle_failure` in Watcher (`refuses`). In the other parts every transaction goes through.
-- `except ValueError` lets any other exception of its call pass.
-- Parameters: whether a pid is alive, the kernel's waitpid and signals, /proc (the parent and argv[0]
-- of a pid), git (and that its reading commands leave the repository alone), regular expressions and
-- some methods of Python's texts (split, strip, lower, repr, int), the parsing of a mail and the
-- comparison of digests (`Library`), json.loads and json.dumps, paths and whether they are directories,
-- pgrep and Popen, gpg, the sending of a mail, the spawn of an agent and the run of a command, an
-- agent's process and its spawned turn, and what SQLite does in an attempt at a transaction.
-- Bounds: integers are unbounded, as Python's are; SQLite's 64 bits are not modelled. The walks up the
-- chain of parents take 64 rounds and the walk up a thread 200, as in the source. The loops on polite
-- prefixes and on the prefixes of a subject have as many rounds as the text has characters, since each
-- round shortens it. The poller remembers 10,000 ids. A question
-- waits for as many rounds as its timeout has milliseconds, since each round lasts one or more. The other loops recur on a list.
-- Not modelled: logging, the SQL engine itself, the texts of JSON, IMAP and SMTP, the poller's state
-- file on the disk, the ticks of housekeeping in main.py, the event loop of a spawned turn, the
-- routing of the chat server's calls and its dashboard, scripts and pages.
pub mod Branch
pub mod Bus
pub mod Chat
pub mod ChatTools
pub mod Classifier
pub mod Commands
pub mod Control
pub mod Db
pub mod Dispatch
pub mod Effect
pub mod Envelope
pub mod Ghosts
pub mod Inbox
pub mod Json
pub mod Kinds
pub mod Liveness
pub mod Manager
pub mod Mime
pub mod Mutations
pub mod Poller
pub mod Prelude
pub mod Question
pub mod Queue
pub mod Registry
pub mod Relay
pub mod Reply
pub mod Security
pub mod Status
pub mod Stores
pub mod Table
pub mod TaskState
pub mod Thread
pub mod Tools
pub mod Tx
pub mod Universes
pub mod Wake
pub mod Watcher
pub mod Worker

-- ===== src/Lib.antt =====
-- Verification of gamchi, a ledger of agent turns with adapters and facades around it.
--
-- The program. `crates/core` keeps threads, turns and generations as JSON files under a home
-- directory: any number of processes open the same home, so every method takes file locks, reads
-- the records again under them, and writes a record by a temporary file and a rename. A turn is
-- in flight until its terminal record is published; a generation names the process that owns it,
-- and a reader that finds that owner dead publishes `failed`/`worker_gone` itself.
-- `crates/adapter-grok` runs one turn against a `grok agent stdio` child: it resolves model and
-- effort, plans the argv, folds the agent's updates into items, parks permission requests and
-- publishes the result. `crates/gamchi` has the facades that call both.
--
-- The files.
--   Prelude       names of the libraries passed on, lists by index, association lists, texts as
--                 the code walks them, `Result`.
--   Wire          crates/core/src/source_wire.rs: Wire/Policy and Wire/Status the enumerations
--                 and their parsers, Wire/Records the durable records. Wire/RoundTrip: parsers
--                 and printers.
--   Ledger        crates/core/src/ledger.rs, one child per part: Error, Ids, Process (what is
--                 read under /proc), Waiters (`Inner.waiters`), State (`Ledger`, `Inner` and the
--                 statics), Exec (`?` and the early returns), Files, Live, Observe
--                 (`observe`, `cancel`, `publish_terminal`), Admit (`create_thread`,
--                 `admit_turn`), Listing (`list_turns`), Approval (`park_approval`, `respond`,
--                 `clear_pending`), Items (`upsert_item` and the writes of sessions and
--                 children), Wait (`wait`, `wait_pending_decision`). A function has the name of
--                 the code's; a helper is a part of the function that its comment names.
--                 Proofs: Evolve and Keeps (a preorder of states, and the rules by which a method
--                 stays within it), Post (pre- and postconditions), Safety and Methods (each
--                 method's case), Admit/Start, Admit/Idle,
--                 Admit/Converged, Admit/Searches, Admit/Existing, Admit/Effect and Admit/Single,
--                 Observe/Converge and Observe/Cancel, Approval/Delivery, Wait/Deadline,
--                 Waiters/Tidy and Waiters/LastOut, and Reach, the ledger as a transition system.
--   Home          crates/core/src/home.rs, and `Ledger::open`.
--   Grok          crates/adapter-grok/src: Grok/Tool and Grok/Map (map.rs), Grok/Defaults
--                 (defaults.rs), Grok/Launch (launch.rs), Grok/Teardown (teardown.rs), and of
--                 turn.rs Grok/Begin (the start of a turn, up to its admission), Grok/Permission
--                 (the answers to permission requests), Grok/Confined (the paths that an agent may
--                 use) and Grok/Stop (the end of a turn). Proofs stand in their children.
--   Ops           crates/gamchi/src/ops.rs: Ops/Host (the environment, and the opening of a
--                 ledger), Ops/Request, Ops/Cancel (`cancel_turn`) and Ops/Report (`turn_json`).
--   Server        crates/gamchi/src/app_server.rs: Server/Listen (the start), Server/Bytes (a
--                 socket), Server/Utf8 and Server/Upgrade (the HTTP upgrade), Server/Frame
--                 (WebSocket frames), Server/Loop (`rpc_loop`), Server/Rpc (`handle_rpc`: Params,
--                 Replies, Threads, Turns, Handle), Server/Connection (`ConnIo`) and Server/Watch
--                 (`watch_turn`). What a client does is written down beside the proofs:
--                 Server/Frame/Client, Reply and Answers.
--   Worker        the flags of crates/gamchi/src/worker.rs.
--   Tests         concrete states, runs at fixed inputs, and an example of each theorem that has
--                 hypotheses.
--
-- The model. A method of the ledger is a function from the state to a result and a state; what
-- was written before an error stays written. A file is an entry of an association list, which
-- holds a record, text that is no such record, or something unreadable. An atomic write is one
-- step, which changes the file or fails and changes nothing; whether the n-th call of the process
-- fails is a function in the state (`fails`), so a theorem for every state holds for every
-- schedule of faults. Reads fail where a file is unreadable, and not otherwise. The answers of
-- the operating system (pid, clock, flock, /proc) are a record in the state, and change between
-- methods. Numbers are natural numbers, with the wrap-around of a machine integer written out
-- where the code has one. In the adapter a panic is a value: an index or an `unwrap` that fails is
-- `none`.
--
-- The facades. A JSON value is a tree with the questions that the code asks of `serde_json`; its
-- text is not modelled. `Host` has the answers of the environment. A request runs on a handle of
-- its own (`on_handle`), and its state is the ledger with the table of children. A socket is what
-- the peer sends until the stream ends, well or in an error, and what was sent; a write may fail
-- after any number of bytes. A message of the app server stands for the frame that carries it.
--
-- Interleavings. A method is one step of the transition system in Ledger/Reach, since it holds
-- its locks from its second read to its last write. A method that goes through several turns
-- (`list_turns`, the search of `respond`, the search of `admit_turn` for a client's id) locks them
-- one by one, and is one step all the same. The steps of other processes are steps too, and so is
-- any change of everything but the turn files. The two blocking calls are folds over
-- their polls: a `Round` is one sleep, with what others did to the ledger meanwhile and the time
-- that the next poll reads, so a statement about a list of rounds is one about any sleeping.
--
-- A caller that leaves `wait` releases its waiter and drops its reference in two steps, between
-- which others act.
--
-- Bounds. `hex` prints at most 32 digits, which hold any u128, and `decimal` 20, which hold any
-- u64. `free` makes the 64 slots of `LIVE_PIDS`. The loop of
-- `read_ws_text` counts down from the length of the input, of which each frame takes some bytes;
-- `read_headers` counts down the code's own bound of 16384 bytes.
-- No other definition counts down on fuel.
--
-- Assumptions. An admission expects the id that it makes to name no turn file (`IsFresh`): the id
-- has the pid, the clock in nanoseconds and a counter, and the code does not look for a file of
-- that name. Of ACP's types only what the code reads of them is there.
--
-- Not modelled. The bytes of the JSON files (serde), temporary files and directories, the macOS
-- branch of `process_alive`, poisoned mutexes, base64 and SHA-1, the threads that the
-- app server starts, the MCP facade, the commands of the worker and the command line, the connection to the agent
-- and the signals to it, the test tooling and the checks of the documents.
pub mod Prelude
pub mod Wire
pub mod Ledger
pub mod Home
pub mod Grok
pub mod Ops
pub mod Server
pub mod Worker
pub mod Tests

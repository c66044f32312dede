-- ===== src/Ledger/Admit.antt =====
-- Threads, and the admission of a turn: one turn in flight on a thread, and one for a client's
-- request id.
pub mod Start
pub mod Converged
pub mod Searches
pub mod Existing
pub mod Idle
pub mod Effect
pub mod Single
use gamchi.Prelude.{
  String, ◌==◌, Bool, true, false, not, ◌&&◌, Option, none, some, List, [], ◌∷◌, Result, ok, err,
  if◌then◌else◌,
}
use gamchi.Prelude.Assoc.{lookup, insert, keys}
use gamchi.Prelude.Text.{is_empty}
use gamchi.Wire.{
  ApprovalPolicy, ThreadSandbox, UserInput, Thread, Turn, Generation, in_progress, is_terminal,
}
use gamchi.Ledger.Error.{LedgerError, io, missing, not_found, turn_in_progress}
use gamchi.Ledger.Ids.{validate_id, client_filename}
use gamchi.Ledger.State.{Ledger, good}
use gamchi.Ledger.Exec.{
  Exec, pure, raise, lift, gets, reads, modify, attempt, ignore, or_else, ◌>>=◌, ◌>>◌, call,
  lock_exclusive,
}
use gamchi.Ledger.Files.{
  read_json, read_thread, write_thread, write_turn, write_generation, write_json_atomic, new_id,
  thread_lock_path,
}
use gamchi.Ledger.Live.{hold_live}
use gamchi.Ledger.Observe.{observe, observe_locked}

pub record NewThread : Type 0 where
  pub cwd : String
  pub model : String
  pub sandbox : ThreadSandbox
  pub approval_policy : ApprovalPolicy
  pub developer_instructions : String
  pub acp_session_id : String

pub record NewTurn : Type 0 where
  pub thread_id : String
  pub input : List UserInput
  pub model : String
  pub effort : String
  pub client_request_id : Option String

unfoldable pub create_thread : NewThread → Exec Thread
create_thread spec = do
  id ← new_id "th"
  let thread : Thread = record {
    id = id;
    cwd = spec.cwd;
    model = spec.model;
    sandbox = spec.sandbox;
    approval_policy = spec.approval_policy;
    developer_instructions = spec.developer_instructions;
    acp_session_id = spec.acp_session_id;
    in_progress_turn_id = "";
  }
  write_thread thread
  pure thread

-- `turn_json_paths`: the stems of the turn files, in directory order.
unfoldable pub turn_json_paths : Exec (List String)
turn_json_paths = do call; gets (λ s. keys s.turns)

-- `read_json(&path)` on a turn file.
unfoldable pub read_path : String → Ledger → Result LedgerError Turn
read_path stem s = read_json (lookup stem s.turns)

-- `lookup_client`: a missing file is no entry.
abbrev or_absent : Result LedgerError String → Result LedgerError (Option String)
or_absent (ok id) = ok (some id)
or_absent (err (io missing)) = ok none
or_absent (err e) = err e

unfoldable pub lookup_client : String → Ledger → Result LedgerError (Option String)
lookup_client key s = or_absent (read_json (lookup (client_filename key) s.by_client))

unfoldable pub store_client : String → String → Exec (Unit {0})
store_client key turn_id =
    write_json_atomic
      (λ s. record s { by_client = insert (client_filename key) (good turn_id) s.by_client })

-- The match on an observed turn: one that is in flight and passes the test, or none; a turn or
-- generation that is gone is no error.
unfoldable pub in_flight : (Turn → Bool) → Result LedgerError Turn → Exec (Option Turn)
in_flight test (ok turn) =
    pure (if not (is_terminal turn.status) && test turn then some turn else none)
in_flight test (err (not_found kind id)) = pure none
in_flight test (err e) = raise e

unfoldable pub recorded_in_flight : String → Option String → Exec (Option Turn)
recorded_in_flight key none = pure none
recorded_in_flight key (some id) = do
  observed ← attempt (observe id)
  in_flight (λ turn. turn.client_request_id == key) observed

unfoldable pub scan_client : String → List String → Exec (Option Turn)
scan_client key [] = pure none
scan_client key (stem ∷ stems) =
    let rest = scan_client key stems in
    do
      found ← reads (read_path stem)
      if not (found.client_request_id == key) then rest else do
        turn ← observe found.id
        if is_terminal turn.status then rest else pure (some turn)

unfoldable pub in_flight_by_client : String → Exec (Option Turn)
in_flight_by_client key = do
  id ← reads (lookup_client key)
  recorded ← recorded_in_flight key id
  or_else recorded (do stems ← turn_json_paths; scan_client key stems)

unfoldable pub scan_thread : String → List String → Exec (Option Turn)
scan_thread thread_id [] = pure none
scan_thread thread_id (stem ∷ stems) =
    let rest = scan_thread thread_id stems in
    do
      found ← reads (read_path stem)
      if not (found.thread_id == thread_id) then rest else do
        turn ← (if is_terminal found.status then pure found else observe_locked found.id)
        if is_terminal turn.status then rest else pure (some turn)

unfoldable pub recorded_on_thread : Thread → Exec (Option Turn)
recorded_on_thread thread = if is_empty thread.in_progress_turn_id then pure none else do
  observed ← attempt (observe_locked thread.in_progress_turn_id)
  in_flight (λ turn. true) observed

unfoldable pub live_turn_on_thread_locked : Thread → Exec (Option Turn)
live_turn_on_thread_locked thread = do
  recorded ← recorded_on_thread thread
  or_else recorded (do stems ← turn_json_paths; scan_thread thread.id stems)

-- A key that is given and not empty.
abbrev pub client_key : Option String → Option String
client_key none = none
client_key (some key) = if is_empty key then none else some key

abbrev pub unwrap_or_default : Option String → String
unwrap_or_default none = ""
unwrap_or_default (some key) = key

unfoldable pub existing_for_client : Option String → Exec (Option Turn)
existing_for_client none = pure none
existing_for_client (some key) = in_flight_by_client key

unfoldable pub record_client : Option String → String → Exec (Unit {0})
record_client none turn_id = pure tt
record_client (some key) turn_id = ignore (store_client key turn_id)

abbrev pub new_generation : String → String → Ledger → Generation
new_generation id turn_id s = record {
  id = id;
  turn_id = turn_id;
  owner_pid = s.os.pid;
  started_epoch = s.os.epoch;
  child_pid = none;
  child_started_epoch = none;
  child_eof = false;
}

abbrev pub new_turn : NewTurn → Thread → String → String → Turn
new_turn spec thread turn_id generation_id = record {
  id = turn_id;
  thread_id = thread.id;
  generation_id = generation_id;
  status = in_progress;
  input = spec.input;
  model = spec.model;
  effort = spec.effort;
  stop_reason = "";
  failure_reason = "";
  client_request_id = unwrap_or_default spec.client_request_id;
  pending_request_id = "";
  pending_decision = "";
  items = [];
}

-- The writes of an admission, once no turn is in flight on the thread. The turn's file is the
-- point from which the turn persists: what fails after it is ignored.
unfoldable pub start_turn : NewTurn → Thread → Exec Turn
start_turn spec thread = do
  generation_id ← new_id "g"
  turn_id ← new_id "tu"
  generation ← gets (new_generation generation_id turn_id)
  let turn = new_turn spec thread turn_id generation_id
  write_generation generation.id generation
  write_turn turn
  ignore (write_thread (record thread { in_progress_turn_id = turn.id }))
  record_client (client_key spec.client_request_id) turn.id
  modify (hold_live generation.id)
  pure turn

-- A turn in flight on the thread refuses the admission.
unfoldable pub start_if_idle : NewTurn → Thread → Option Turn → Exec Turn
start_if_idle spec thread (some turn) = raise (turn_in_progress thread.id turn.id)
start_if_idle spec thread none = start_turn spec thread

-- What an admission does once the client's request id has named no turn in flight.
unfoldable pub admit_on_thread : NewTurn → Exec Turn
admit_on_thread spec = do
  lock_exclusive (thread_lock_path spec.thread_id)
  thread ← reads (read_thread spec.thread_id)
  current ← live_turn_on_thread_locked thread
  start_if_idle spec thread current

unfoldable pub return_or_admit : NewTurn → Option Turn → Exec Turn
return_or_admit spec (some turn) = pure turn
return_or_admit spec none = admit_on_thread spec

unfoldable pub admit_turn : NewTurn → Exec Turn
admit_turn spec = do
  lift (validate_id spec.thread_id)
  lock_exclusive "admit.lock"
  existing ← existing_for_client (client_key spec.client_request_id)
  return_or_admit spec existing

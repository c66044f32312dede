-- ===== src/Tests.antt =====
-- The concrete ledgers of the tests and the examples.
pub mod Admission
pub mod Turns
pub mod Approvals
pub mod Waiting
pub mod Adapter
pub mod Answers
pub mod Children
pub mod Sockets
pub mod Upgrades
pub mod Workers
pub mod Requests
pub mod Starts
use gamchi.Prelude.{ℕ, String, Bool, true, false, Option, none, some, List, [], ◌∷◌, ok}
use gamchi.Wire.{
  Thread, Turn, Generation, TurnStatus, in_progress, completed, workspace_write, never,
}
use gamchi.Ledger.Process.{ProcFs}
use gamchi.Ledger.Waiters.{no_waiters}
use gamchi.Ledger.State.{Ledger, Os, good}
use gamchi.Ledger.Admit.{NewTurn}
use gamchi.Ops.Host.{Host}

-- No process but this one runs, every call works, and every lock of another owner is held.
abbrev pub os : Os
os = record {
  pid = 7;
  nanos = 100;
  epoch = 50;
  fails = λ n. false;
  flocked = λ path. some true;
  proc = record { stat = λ pid. none; clock_ticks = some 100; btime = some 10 };
}

abbrev pub thread : Thread
thread = record {
  id = "th1";
  cwd = "/work";
  model = "grok-4.6";
  sandbox = workspace_write;
  approval_policy = never;
  developer_instructions = "";
  acp_session_id = "";
  in_progress_turn_id = "";
}

abbrev pub turn : TurnStatus → Turn
turn status = record {
  id = "tu1";
  thread_id = "th1";
  generation_id = "g1";
  status = status;
  input = [];
  model = "grok-4.6";
  effort = "high";
  stop_reason = "";
  failure_reason = "";
  client_request_id = "";
  pending_request_id = "";
  pending_decision = "";
  items = [];
}

-- The owner of the turn, whose child has ended or not.
abbrev pub generation : Bool → Generation
generation child_eof = record {
  id = "g1";
  turn_id = "tu1";
  owner_pid = 7;
  started_epoch = 50;
  child_pid = none;
  child_started_epoch = none;
  child_eof = child_eof;
}

-- One thread and no turn.
abbrev pub idle : Ledger
idle = record {
  home = "/home";
  threads = ("th1", good thread) ∷ [];
  turns = [];
  generations = [];
  by_client = [];
  live_files = [];
  process_live = [];
  waiters = no_waiters;
  seq = 0;
  calls = 0;
  os = os;
}

-- One turn, with the status and the child's end given.
abbrev pub busy : TurnStatus → Bool → Ledger
busy status child_eof = record idle {
  turns = ("tu1", good (turn status)) ∷ [];
  generations = ("g1", good (generation child_eof)) ∷ [];
}

abbrev pub request : NewTurn
request = record {
  thread_id = "th1";
  input = [];
  model = "grok-4.6";
  effort = "high";
  client_request_id = none;
}

-- A host on which every directory can be made, with no configuration.
abbrev pub host : Host
host = record {
  env_home = none;
  user_home = some "/user";
  acp_program = none;
  current_dir = ok "/work";
  made = λ n. true;
  config = none;
  config_text = "";
  runtime = none;
  late = false;
  io_text = λ kind. "io";
  json_text = "json";
}

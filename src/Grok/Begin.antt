-- ===== src/Grok/Begin.antt =====
-- The start of a turn, up to its admission: `run_turn_async` of crates/adapter-grok/src/turn.rs
-- before `on_admit`.
pub mod Effort
pub mod Guarded
use gamchi.Prelude.{
  ℕ, Bool, true, false, not, ◌&&◌, ◌||◌, String, ◌==◌, List, [], ◌∷◌, Option, none, some, Result,
  ok, err, map_err, and_then, ltb, nat_eq, if◌then◌else◌,
}
use gamchi.Prelude.Text.{is_empty}
use gamchi.Prelude.TextOrder.{text_le}
use gamchi.Wire.{ApprovalPolicy, ThreadSandbox, Thread, Turn, UserInput}
use gamchi.Ledger.Error.{LedgerError}
use gamchi.Ledger.State.{Ledger, Body}
use gamchi.Ledger.Exec.{Exec}
use gamchi.Ledger.Call.{Call, pure, fail, lift, method, ◌>>=◌}
use gamchi.Ledger.Files.{read_thread, read_generation}
use gamchi.Ledger.Listing.{list_turns}
use gamchi.Ledger.Admit.{NewThread, NewTurn, create_thread, admit_turn}
use gamchi.Grok.Defaults.{HomeDefaults, load_home_defaults, resolve_first_turn, resolve_follow_up}
use gamchi.Grok.Launch.{
  ExtraSpawnFields, LaunchRequest, LaunchPlan, LaunchError, from_resolve, plan_launch,
}

-- The argv is planned, or given by a test.
pub data AgentCommand : Type 0 where
  grok : (program : String) → AgentCommand
  given : (program : String) (args : List String) → AgentCommand

pub record TurnRequest : Type 0 where
  pub cwd : String
  pub prompt : String
  pub approval : ApprovalPolicy
  pub sandbox : ThreadSandbox
  pub extra : ExtraSpawnFields
  pub model : String
  pub effort : String
  pub command : AgentCommand
  pub client_request_id : Option String
  pub follow_up_thread_id : Option String
  pub reuse_thread_id : Option String

pub data AdapterError : Type 0 where
  launch : LaunchError → AdapterError
  ledger : LedgerError → AdapterError
  io : String → AdapterError
  acp : String → AdapterError
  excluded_fatal : String → AdapterError

-- The turn that started last so far: the epoch of its generation, its id and its effort.
abbrev pub Best : Type 0
Best = Option (ℕ × String × String)

unfoldable pub is_later : ℕ → String → Best → Bool
is_later started id none = true
is_later started id (some (epoch, best_id, effort)) =
    ltb epoch started || (nat_eq started epoch && not (text_le id best_id))

unfoldable pub next_best : String → Turn → Best → Ledger → Result LedgerError Best
next_best thread_id turn best s =
    if not (turn.thread_id == thread_id)
    then ok best
    else and_then (read_generation turn.generation_id s) (λ g. ok (
        if is_later g.started_epoch turn.id best
        then some (g.started_epoch, turn.id, turn.effort)
        else best))

unfoldable pub best_turn : String → List Turn → Best → Ledger → Result LedgerError Best
best_turn thread_id [] best s = ok best
best_turn thread_id (turn ∷ turns) best s =
    and_then (next_best thread_id turn best s) (λ next. best_turn thread_id turns next s)

abbrev pub effort_of : Best → String
effort_of none = ""
effort_of (some (epoch, id, effort)) = effort

unfoldable pub previous_turn_effort : String → Call AdapterError String
previous_turn_effort thread_id = do
  turns ← method ledger (list_turns none)
  best ← method ledger (λ s. (best_turn thread_id turns none s, s))
  pure (effort_of best)

-- A request's thread, the session to load, the model and the effort.
pub record Chosen : Type 0 where
  pub thread : Thread
  pub load_session_id : Option String
  pub model : String
  pub effort : String

unfoldable pub continue_thread :
    TurnRequest → HomeDefaults → Thread → Option String → Call AdapterError Chosen
continue_thread req defaults thread session = do
  previous ← previous_turn_effort thread.id
  resolved ← lift (
      map_err (λ e. launch (from_resolve e))
        (resolve_follow_up req.model req.effort thread.model previous defaults))
  pure (record {
    thread = thread;
    load_session_id = session;
    model = resolved.0;
    effort = resolved.1;
  })

unfoldable pub follow_up : TurnRequest → HomeDefaults → String → Call AdapterError Chosen
follow_up req defaults thread_id = do
  thread ← method ledger (λ s. (read_thread thread_id s, s))
  if is_empty thread.acp_session_id
      then fail (acp "follow-up requires a stored ACP session id")
      else continue_thread req defaults thread (some thread.acp_session_id)

unfoldable pub reuse : TurnRequest → HomeDefaults → String → Call AdapterError Chosen
reuse req defaults thread_id = do
  thread ← method ledger (λ s. (read_thread thread_id s, s))
  continue_thread req defaults thread none

unfoldable pub fresh : TurnRequest → HomeDefaults → Call AdapterError Chosen
fresh req defaults = do
  resolved ←
      lift
        (map_err (λ e. launch (from_resolve e)) (resolve_first_turn req.model req.effort defaults))
  thread ← method ledger (
      create_thread (record {
        cwd = req.cwd;
        model = resolved.0;
        sandbox = req.sandbox;
        approval_policy = req.approval;
        developer_instructions = "";
        acp_session_id = "";
      }))
  pure (record { thread = thread; load_session_id = none; model = resolved.0; effort = resolved.1 })

unfoldable pub choose : TurnRequest → HomeDefaults → Call AdapterError Chosen
choose req defaults = elim req.follow_up_thread_id [
  | some thread_id ↦ follow_up req defaults thread_id
  | none ↦ elim req.reuse_thread_id [
    | some thread_id ↦ reuse req defaults thread_id
    | none ↦ fresh req defaults
  ]
]

unfoldable pub plan : TurnRequest → Chosen → Result LaunchError LaunchPlan
plan req chosen = elim req.command [
  | grok program ↦ plan_launch (record {
    program = program;
    cwd = req.cwd;
    approval = req.approval;
    sandbox = req.sandbox;
    extra = req.extra;
    model = chosen.model;
    effort = chosen.effort;
  })
  | given program args ↦ ok (record { program = program; args = args })
]

unfoldable pub admit : TurnRequest → Chosen → Call AdapterError Turn
admit req chosen = method ledger (
    admit_turn (record {
      thread_id = chosen.thread.id;
      input = record { kind = "text"; text = req.prompt } ∷ [];
      model = chosen.model;
      effort = chosen.effort;
      client_request_id = req.client_request_id;
    }))

abbrev pub is_both : Option String → Option String → Bool
is_both (some a) (some b) = true
is_both a b = false

-- `config` is the home's config.yaml, `os` the text of an error that reading it gave. The turn is
-- the one that `on_admit` is called with.
unfoldable pub begin_turn :
    (os : String) → Option (Body String) → TurnRequest → Call AdapterError Turn
begin_turn os config req =
    if is_both req.follow_up_thread_id req.reuse_thread_id
    then fail (acp "follow_up_thread_id and reuse_thread_id are mutually exclusive")
    else do
      defaults ← lift (map_err (λ e. launch (from_resolve e)) (load_home_defaults os config))
      chosen ← choose req defaults
      planned ← lift (map_err launch (plan req chosen))
      admit req chosen

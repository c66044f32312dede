-- ===== src/Server/Rpc/Threads.antt =====
-- `thread/start`, `thread/resume` and `thread/read`: crates/gamchi/src/app_server.rs.
use gamchi.Prelude.{
  String, ◌==◌, Bool, true, false, Option, none, some, List, [], ◌∷◌, Result, ok, map_err, and_then,
  if◌then◌else◌,
}
use gamchi.Wire.{
  Thread, Turn, app_server_default_approval_policy, app_server_default_thread_sandbox,
}
use gamchi.Home as Home
use gamchi.Ledger.Error.{LedgerError, not_found}
use gamchi.Ledger.Call.{Call, pure, lift, method, ◌>>=◌, ◌>>◌}
use gamchi.Ledger.Files.{read_thread}
use gamchi.Ledger.Listing.{list_turns}
use gamchi.Ledger.Admit.{NewThread, create_thread}
use gamchi.Grok.Defaults.{load_home_defaults, resolve_first_turn}
use gamchi.Prelude.Json.{Value, get, as_bool}
use gamchi.Ops.Host.{Host, ledger_text, resolve_text, open_ledger, on_handle}
use gamchi.Ops.Request.{optional_text_field}
use gamchi.Server.Rpc.Params.{
  reject_unenforceable_extras, required, parse_start_developer_instructions,
  check_resume_developer_instructions, approval_or, sandbox_or, start_cwd,
}
use gamchi.Server.Rpc.Replies.{turn_obj, thread_result}

-- What `thread/start` works out before it opens the ledger.
unfoldable pub new_thread : Host → Value → Result String NewThread
new_thread host params = and_then (reject_unenforceable_extras params) λ u.
    and_then (start_cwd host params) λ cwd.
      and_then (optional_text_field params "model") λ model_raw.
        and_then (map_err resolve_text (load_home_defaults host.config_text host.config))
          λ defaults.
            and_then (map_err resolve_text (resolve_first_turn model_raw "" defaults)) λ resolved.
              and_then (sandbox_or app_server_default_thread_sandbox params) λ sandbox.
                and_then (approval_or app_server_default_approval_policy params) λ approval.
                  and_then (parse_start_developer_instructions params) λ instructions. ok (record {
                    cwd = cwd;
                    model = resolved.0;
                    sandbox = sandbox;
                    approval_policy = approval;
                    developer_instructions = instructions;
                    acp_session_id = "";
                  })

unfoldable pub thread_start : Host → String → Value → Call String Value
thread_start host home params = do
  spec ← lift (new_thread host params)
  stored ← on_handle (open_ledger host (some home)) (method (ledger_text host) (create_thread spec))
  pure (thread_result stored.id [])

-- The turns of a thread, as the wire has them.
abbrev pub turns_of : String → List Turn → List Value
turns_of thread_id [] = []
turns_of thread_id (turn ∷ turns) =
    let later = turns_of thread_id turns in
    if turn.thread_id == thread_id then turn_obj turn ∷ later else later

unfoldable pub turns_for_thread : Host → String → Call String (List Value)
turns_for_thread host thread_id = do
  turns ← method (ledger_text host) (list_turns none)
  pure (turns_of thread_id turns)

unfoldable pub stored_thread : Host → String → Call String Thread
stored_thread host thread_id = method (ledger_text host) (λ s. (read_thread thread_id s, s))

-- `thread/resume`, once the ledger is open.
unfoldable pub resume_stored : Host → Value → String → Call String Value
resume_stored host params thread_id = do
  stored ← stored_thread host thread_id
  lift (check_resume_developer_instructions params stored.developer_instructions)
  turns ← turns_for_thread host stored.id
  pure (thread_result stored.id turns)

unfoldable pub thread_resume : Host → String → Value → Call String Value
thread_resume host home params = do
  lift (reject_unenforceable_extras params)
  thread_id ← lift (required "threadId required" params "threadId")
  on_handle (open_ledger host (some home)) (resume_stored host params thread_id)

pub data ThreadReadError : Type 0 where
  absent other : String → ThreadReadError

-- A thread that is not there is told from the other errors.
abbrev pub read_error : Host → LedgerError → ThreadReadError
read_error host (not_found kind id) = absent (ledger_text host (not_found kind id))
read_error host e = other (ledger_text host e)

abbrev pub with_turns : Option Bool → Bool
with_turns (some false) = false
with_turns _ = true

-- Another call's error.
abbrev pub relay : {A : Type 0} → Call String A → Call ThreadReadError A
relay m s = let (r, t) = m s in (map_err other r, t)

unfoldable pub included_turns : Host → Value → String → Call ThreadReadError (List Value)
included_turns host params thread_id = elim (get params "includeTurns") [
  | none ↦ relay (turns_for_thread host thread_id)
  | some v ↦ if with_turns (as_bool v) then relay (turns_for_thread host thread_id) else pure []
]

unfoldable pub read_stored : Host → Value → String → Call ThreadReadError Value
read_stored host params thread_id = do
  stored ← method (read_error host) (λ s. (read_thread thread_id s, s))
  turns ← included_turns host params stored.id
  pure (thread_result stored.id turns)

-- The ledger is opened at the server's home, which is not resolved again.
unfoldable pub thread_read : Host → String → Value → Call ThreadReadError Value
thread_read host home params = do
  lift (map_err other (reject_unenforceable_extras params))
  thread_id ← lift (map_err other (required "threadId required" params "threadId"))
  on_handle (map_err (λ e. other (ledger_text host e)) (Home.open_ledger host.made home))
      (read_stored host params thread_id)

-- ===== src/Server/Rpc/Turns.antt =====
-- `turn/start` and `turn/interrupt`: crates/gamchi/src/app_server.rs.
use gamchi.Prelude.{
  String, ◌==◌, not, Option, none, some, [], Result, ok, err, map_err, and_then, if◌then◌else◌,
}
use gamchi.Prelude.Text.{is_empty}
use gamchi.Wire.{Thread, Turn}
use gamchi.Ledger.State.{Ledger}
use gamchi.Ledger.Waiters.{Waiters}
use gamchi.Ledger.Call.{Call, pure, lift, ◌>>=◌, ◌>>◌}
use gamchi.Ledger.Files.{read_turn}
use gamchi.Grok.Begin.{TurnRequest, begin_turn}
use gamchi.Grok.Teardown.{Children}
use gamchi.Prelude.Json.{Value, null, get}
use gamchi.Ops.Host.{Host, ledger_text, adapter_text, acp_command, open_ledger, on_handle}
use gamchi.Ops.Request.{optional_text_field, no_extra}
use gamchi.Ops.Cancel.{cancel_turn}
use gamchi.Server.Rpc.Params.{
  is_some, reject_unenforceable_extras, required, prompt_from_input, approval_or, turn_sandbox_or,
}
use gamchi.Server.Rpc.Replies.{turn_result}
use gamchi.Server.Rpc.Threads.{stored_thread}

-- The request for a turn on a stored thread: a follow-up where the thread has a session.
unfoldable pub turn_request : Host → Value → String → Thread → String → Result String TurnRequest
turn_request host params thread_id stored prompt =
    and_then (turn_sandbox_or stored.sandbox params) λ sandbox.
      and_then (approval_or stored.approval_policy params) λ approval.
        and_then (optional_text_field params "model") λ model.
          and_then (optional_text_field params "effort") λ effort. ok (record {
            cwd = stored.cwd;
            prompt = prompt;
            approval = approval;
            sandbox = sandbox;
            extra = no_extra;
            model = model;
            effort = effort;
            command = acp_command host;
            client_request_id = none;
            follow_up_thread_id = if is_empty stored.acp_session_id then none else some thread_id;
            reuse_thread_id = if is_empty stored.acp_session_id then some thread_id else none;
          })

-- The turn that the thread in the background admits. Where that takes too long, the turn is
-- admitted all the same.
unfoldable pub admitted_turn : Host → TurnRequest → Call String Turn
admitted_turn host req s = elim host.runtime [
  | some text ↦ (err text, s)
  | none ↦
      let (r, t) = begin_turn host.config_text host.config req s in
      (
        if host.late then err "turn/start did not admit a turn" else map_err (adapter_text host) r,
        t,
      )
]

unfoldable pub start_on_stored : Host → Value → String → String → Call String Value
start_on_stored host params thread_id prompt = do
  stored ← stored_thread host thread_id
  req ← lift (turn_request host params thread_id stored prompt)
  turn ← admitted_turn host req
  pure (turn_result turn)

abbrev pub refuse_instructions : Value → Result String (Unit {0})
refuse_instructions params =
    if is_some (get params "developerInstructions")
    then err "developerInstructions is not allowed on turn/start"
    else ok tt

abbrev pub check_policy : Value → Result String (Unit {0})
check_policy params = elim (get params "sandboxPolicy") [
  | none ↦ ok tt
  | some policy ↦ reject_unenforceable_extras policy
]

abbrev pub or_null : Option Value → Value
or_null none = null
or_null (some v) = v

unfoldable pub turn_start : Host → String → Value → Call String Value
turn_start host home params = do
  lift (reject_unenforceable_extras params)
  lift (refuse_instructions params)
  lift (check_policy params)
  thread_id ← lift (required "threadId required" params "threadId")
  prompt ← lift (prompt_from_input (or_null (get params "input")))
  on_handle (open_ledger host (some home)) (start_on_stored host params thread_id prompt)

-- What a call that may tear children down gives.
abbrev pub Served : Type 0 → Type 0
Served A = Result String A × Ledger × Children

abbrev pub shown : Served Turn → Served Value
shown (ok turn, s, c) = (ok (turn_result turn), s, c)
shown (err e, s, c) = (err e, s, c)

unfoldable pub interrupt_turn : Host → String → String → Ledger → Children → Served Value
interrupt_turn host thread_id turn_id s c = elim (read_turn turn_id s) [
  | err e ↦ (err (ledger_text host e), s, c)
  | ok turn ↦
      if not (turn.thread_id == thread_id)
      then (err "turn does not belong to thread", s, c)
      else shown (cancel_turn host turn_id s c)
]

-- `on_handle` beside the children.
abbrev pub with_handle :
    Result String (String × Waiters)
    → (Ledger → Children → Served Value)
    → Ledger
    → Children
    → Served Value
with_handle (err e) m s c = (err e, s, c)
with_handle (ok (home, waiters)) m s c =
    let (r, t, d) = m (record s { home = home; waiters = waiters; live_files = [] }) c in
    (r, record t { home = s.home; waiters = s.waiters; live_files = s.live_files }, d)

-- The ids of the thread and the turn.
unfoldable pub interrupt_ids : Value → Result String (String × String)
interrupt_ids params = and_then (reject_unenforceable_extras params) λ u.
    and_then (required "threadId required" params "threadId") λ thread_id.
      and_then (required "turnId required" params "turnId") λ turn_id. ok (thread_id, turn_id)

unfoldable pub interrupt_named :
    Host → String → Result String (String × String) → Ledger → Children → Served Value
interrupt_named host home (err e) s c = (err e, s, c)
interrupt_named host home (ok (thread_id, turn_id)) s c =
    with_handle (open_ledger host (some home)) (interrupt_turn host thread_id turn_id) s c

unfoldable pub turn_interrupt : Host → String → Value → Ledger → Children → Served Value
turn_interrupt host home params = interrupt_named host home (interrupt_ids params)

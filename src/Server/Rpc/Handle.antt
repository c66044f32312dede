-- ===== src/Server/Rpc/Handle.antt =====
-- `handle_rpc` of crates/gamchi/src/app_server.rs.
pub mod Shape
pub mod Extras
use gamchi.Prelude.{
  String, ◌==◌, Bool, true, false, ◌||◌, Option, none, some, List, [], ◌∷◌, Result, ok, err,
  if◌then◌else◌,
}
use gamchi.Ledger.State.{Ledger}
use gamchi.Ledger.Call.{Call}
use gamchi.Grok.Teardown.{Children}
use gamchi.Prelude.Json.{
  Value, Fields, null, boolean, number, string, array, object, no_fields, obj, get, get_in, text_in,
}
use gamchi.Ops.Host.{Host}
use gamchi.Server.Rpc.Params.{is_some, opt_out_is_nonempty}
use gamchi.Server.Rpc.Replies.{
  invalid_request, method_not_found, reply_result, rpc_error, rpc_result, initialize_result,
  grok_runtime_read, model_list_result,
}
use gamchi.Server.Rpc.Threads.{
  ThreadReadError, absent, other, thread_start, thread_resume, thread_read,
}
use gamchi.Server.Rpc.Turns.{Served, turn_start, turn_interrupt}

-- A reply with the ledger and the children after it.
abbrev pub Answer : Type 0
Answer = Value × Ledger × Children

-- The reply to a call that leaves the children alone.
abbrev pub replied : Value → Children → Result String Value × Ledger → Answer
replied id c (r, s) = (rpc_result id r, s, c)

abbrev pub served : Value → Served Value → Answer
served id (r, s, c) = (rpc_result id r, s, c)

-- A thread that is absent has an error code of its own.
abbrev pub read_reply : Value → Children → Result ThreadReadError Value × Ledger → Answer
read_reply id c (ok result, s) = (reply_result id result, s, c)
read_reply id c (err (absent message), s) = (rpc_error id invalid_request message, s, c)
read_reply id c (err (other message), s) = (rpc_error id method_not_found message, s, c)

-- An object without entries; `as_object` gives nothing for other values.
abbrev pub is_empty_object : Value → Bool
is_empty_object (object no_fields) = true
is_empty_object _ = false

-- Whether the request asks for the capability that the server does not have.
unfoldable pub asks_ccas : String → Value → Bool
asks_ccas method params =
    method == "capabilities.ccas" || is_some (get_in (get params "capabilities") "ccas")

unfoldable pub initialize : Value → Value → Value
initialize id params =
    if opt_out_is_nonempty params
    then rpc_error id method_not_found "optOutNotificationMethods must be empty"
    else reply_result id initialize_result

unfoldable pub runtime_read : Value → String → Value → Value
runtime_read id home params =
    if is_empty_object params
    then reply_result id (grok_runtime_read home)
    else rpc_error id method_not_found "grok/runtime/read takes no params"

-- The methods on threads and turns, and what is none.
unfoldable pub on_threads : Host → String → Value → String → Value → Ledger → Children → Answer
on_threads host home id method params s c =
    if method == "thread/start"
    then replied id c (thread_start host home params s)
    else if method == "thread/resume"
    then replied id c (thread_resume host home params s)
    else if method == "thread/read"
    then read_reply id c (thread_read host home params s)
    else if method == "turn/start"
    then replied id c (turn_start host home params s)
    else if method == "turn/interrupt"
    then served id (turn_interrupt host home params s c)
    else (rpc_error id method_not_found method, s, c)

-- `models` is the JSON of the file that the environment names for the list of models.
unfoldable pub on_method :
    Host → Option Value → String → Value → String → Value → Ledger → Children → Answer
on_method host models home id method params s c =
    if asks_ccas method params
    then (rpc_error id method_not_found "capabilities.ccas", s, c)
    else if method == "initialize"
    then (initialize id params, s, c)
    else if method == "account/read"
    then (reply_result id (obj (("requiresOpenaiAuth", boolean false) ∷ [])), s, c)
    else if method == "model/list"
    then (reply_result id (model_list_result models), s, c)
    else if method == "grok/runtime/read"
    then (runtime_read id home params, s, c)
    else if method == "thread/fork"
    then (rpc_error id method_not_found "thread/fork", s, c)
    else on_threads host home id method params s c

abbrev pub or_empty : Option Value → Value
or_empty none = obj []
or_empty (some params) = params

-- A message without a method that is a text, or without an id, gets no reply.
unfoldable pub handle_named :
    Host
    → Option Value
    → String
    → Value
    → Option String
    → Option Value
    → Ledger
    → Children
    → Option Value × Ledger × Children
handle_named host models home params none id s c = (none, s, c)
handle_named host models home params (some method) none s c = (none, s, c)
handle_named host models home params (some method) (some id) s c =
    let (reply, t, d) = on_method host models home id method params s c in (some reply, t, d)

unfoldable pub handle_rpc :
    Host → Option Value → String → Value → Ledger → Children → Option Value × Ledger × Children
handle_rpc host models home msg s c =
    handle_named host models home (or_empty (get msg "params")) (text_in (get msg "method"))
      (get msg "id") s c

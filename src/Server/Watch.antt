-- ===== src/Server/Watch.antt =====
-- The thread that watches a turn: `watch_turn` of crates/gamchi/src/app_server.rs.
pub mod Counts
pub mod Once
use gamchi.Prelude.{
  ℕ, String, ◌==◌, Bool, true, false, not, ◌&&◌, ◌||◌, Option, none, some, List, [], ◌∷◌, any,
  Result, ok, err, if◌then◌else◌,
}
use gamchi.Prelude.Text.{decimal}
use gamchi.Wire.{
  Item, Turn, ApprovalDecision, is_terminal, pending_approval, item_command_execution,
  item_file_change, parse_approval_decision,
}
use gamchi.Ledger.State.{Ledger}
use gamchi.Ledger.Observe.{observe}
use gamchi.Ledger.Approval.{respond}
use gamchi.Prelude.Json.{Value, number, string, obj, get, get_in, text_in}
use gamchi.Server.Rpc.Replies.{item_obj, turn_obj}
use gamchi.Server.Connection.{
  Conn, write_locked, register, unregister, deliver_id, Received, message, empty, disconnected,
  try_recv,
}

abbrev pub notify_item_started : String
notify_item_started = "item/started"

abbrev pub notify_item_completed : String
notify_item_completed = "item/completed"

abbrev pub notify_turn_completed : String
notify_turn_completed = "turn/completed"

abbrev pub request_command_approval : String
request_command_approval = "item/commandExecution/requestApproval"

abbrev pub request_file_change_approval : String
request_file_change_approval = "item/fileChange/requestApproval"

-- The ids that notes were written for.
pub record Seen : Type 0 where
  pub started : List String
  pub completed : List String

abbrev pub is_in : String → List String → Bool
is_in id ids = any (λ k. k == id) ids

-- A note on an item; `at` is the key of its time.
abbrev pub item_note : (method at : String) → String → Turn → ℕ → Item → Value
item_note method at thread_id turn now item = obj (
    ("method", string method)
    ∷ (
      "params",
      obj (
          ("threadId", string thread_id)
          ∷ ("turnId", string turn.id)
          ∷ (at, number (decimal now))
          ∷ ("item", item_obj item)
          ∷ []),
    )
    ∷ [])

-- Whether the loop goes on, with what was seen and the connection.
abbrev pub Emit : Type 0
Emit = Bool × Seen × Conn

unfoldable pub emit_started : String → Turn → ℕ → Item → Seen → Conn → Emit
emit_started thread_id turn now item seen io =
    if is_in item.id seen.started
    then (true, seen, io)
    else let (written, next) =
        write_locked (item_note notify_item_started "startedAtMs" thread_id turn now item) io in
      (written, record seen { started = item.id ∷ seen.started }, next)

abbrev pub is_done : Item → Bool
is_done item = item.status == "completed" || item.status == "failed"

unfoldable pub emit_completed : String → Turn → ℕ → Item → Seen → Conn → Emit
emit_completed thread_id turn now item seen io =
    if not (is_done item) || is_in item.id seen.completed
    then (true, seen, io)
    else let (written, next) =
        write_locked (item_note notify_item_completed "completedAtMs" thread_id turn now item) io in
      (written, record seen { completed = item.id ∷ seen.completed }, next)

-- A write that failed ends the loop.
abbrev pub and_emit : Emit → (Seen → Conn → Emit) → Emit
and_emit (true, seen, io) f = f seen io
and_emit (false, seen, io) f = (false, seen, io)

unfoldable pub emit_items : String → Turn → ℕ → List Item → Seen → Conn → Emit
emit_items thread_id turn now [] seen io = (true, seen, io)
emit_items thread_id turn now (item ∷ items) seen io =
    and_emit
      (and_emit (emit_started thread_id turn now item seen io)
        (emit_completed thread_id turn now item))
      (emit_items thread_id turn now items)

unfoldable pub emit_item_notifications : String → Turn → ℕ → Seen → Conn → Emit
emit_item_notifications thread_id turn now seen io =
    emit_items thread_id turn now turn.items seen io

-- A request for a decision that the client has not answered.
pub record PendingApproval : Type 0 where
  pub request_id : String
  pub rpc_id : String

-- The last item that runs a command or changes a file.
abbrev pub last_asking : List Item → Option Item → Option Item
last_asking [] found = found
last_asking (item ∷ items) found = last_asking items (
    if item.item_type == item_command_execution || item.item_type == item_file_change
    then some item
    else found)

abbrev pub last_item : List Item → Option Item → Option Item
last_item [] found = found
last_item (item ∷ items) found = last_item items (some item)

abbrev pub approval_method : Option Item → String
approval_method none = request_command_approval
approval_method (some item) =
    if item.item_type == item_file_change
    then request_file_change_approval
    else request_command_approval

abbrev pub item_id_or : Option Item → Option Item → String → String
item_id_or (some item) last id = item.id
item_id_or none (some item) id = item.id
item_id_or none none id = id

unfoldable pub start_socket_approval : String → Turn → ℕ → Conn → Option PendingApproval × Conn
start_socket_approval thread_id turn now io =
    let item = last_asking turn.items none in
    let (rpc_id, registered) = register io in
    let (written, next) =
      write_locked
        (obj (
          ("id", number rpc_id)
          ∷ ("method", string (approval_method item))
          ∷ (
            "params",
            obj (
                ("itemId", string (item_id_or item (last_item turn.items none) turn.id))
                ∷ ("startedAtMs", number (decimal now))
                ∷ ("threadId", string thread_id)
                ∷ ("turnId", string turn.id)
                ∷ []),
          )
          ∷ []))
        registered in
    if written
    then (some (record { request_id = turn.pending_request_id; rpc_id = rpc_id }), next)
    else (none, unregister rpc_id next)

abbrev pub completed_note : String → Turn → Value
completed_note thread_id turn = obj (
    ("method", string notify_turn_completed)
    ∷ ("params", obj (("threadId", string thread_id) ∷ ("turn", turn_obj turn) ∷ []))
    ∷ [])

pub record Watcher : Type 0 where
  pub seen : Seen
  pub last_request : String
  pub pending : Option PendingApproval

abbrev pub new_watcher : Watcher
new_watcher = record {
  seen = record { started = []; completed = [] };
  last_request = "";
  pending = none;
}

-- One round: what others did to the ledger since the last one, the answers that `deliver_pending`
-- was given, each with its printed id, and the times that the round reads.
pub record Round : Type 0 where
  pub others : Ledger → Ledger
  pub replies : List (String × Value)
  pub emitted_at : ℕ
  pub emitted_again_at : ℕ
  pub asked_at : ℕ

abbrev pub deliver_all : List (String × Value) → Conn → Conn
deliver_all [] io = io
deliver_all ((key, msg) ∷ rest) io = deliver_all rest (deliver_id key msg io)

abbrev pub answer_with : String → Option String → Ledger → Ledger
answer_with request_id none s = s
answer_with request_id (some text) s = elim (parse_approval_decision text) [
  | err e ↦ s
  | ok decision ↦ (respond request_id decision s).1
]

-- What is done with the answer to a pending request: what is still pending, the ledger and the
-- connection.
unfoldable pub take_answer :
    PendingApproval → Received × Conn → Ledger → Option PendingApproval × Ledger × Conn
take_answer wait (message reply, io) s =
    (none, answer_with wait.request_id (text_in (get_in (get reply "result") "decision")) s, io)
take_answer wait (empty, io) s = (some wait, s, io)
take_answer wait (disconnected, io) s = (none, s, unregister wait.rpc_id io)

unfoldable pub poll_pending :
    Option PendingApproval → Ledger → Conn → Option PendingApproval × Ledger × Conn
poll_pending none s io = (none, s, io)
poll_pending (some wait) s io = take_answer wait (try_recv wait.rpc_id io) s

abbrev pub asked : String → Option PendingApproval × Conn → String × Option PendingApproval × Conn
asked last (none, io) = (last, none, io)
asked last (some wait, io) = (wait.request_id, some wait, io)

-- The last request, what is pending, and the connection.
unfoldable pub ask :
    String
    → Turn
    → ℕ
    → String
    → Option PendingApproval
    → Conn
    → String × Option PendingApproval × Conn
ask thread_id turn now last (some wait) io = (last, some wait, io)
ask thread_id turn now last none io =
    if pending_approval turn && not (turn.pending_request_id == last)
    then asked last (start_socket_approval thread_id turn now io)
    else (last, none, io)

-- What a round comes to: the end, with whether the last note was written, or the next round.
pub data Outcome : Type 0 where
  ended : Bool → Ledger → Conn → Outcome
  going : Watcher → Ledger → Conn → Outcome

-- The end of the watch of a terminal turn.
unfoldable pub finish_watch : String → Turn → ℕ → Ledger → Seen → Conn → Outcome
finish_watch thread_id turn now s seen io =
    let (again, twice, last) = emit_item_notifications thread_id turn now seen io in
    let (written, done) = write_locked (completed_note thread_id turn) last in ended written s done

unfoldable pub keep_watching : String → Round → Turn → Watcher → Ledger → Seen → Conn → Outcome
keep_watching thread_id round turn w s seen io =
    let (pending, t, polled) = poll_pending w.pending s io in
    let (last_request, wait, next) =
      ask thread_id turn round.asked_at w.last_request pending polled in
    going (record { seen = seen; last_request = last_request; pending = wait }) t next

-- The round on a turn that could be observed.
unfoldable pub watch_observed : String → Round → Turn → Watcher → Ledger → Conn → Outcome
watch_observed thread_id round turn w s io =
    let (wrote, seen, after) = emit_item_notifications thread_id turn round.emitted_at w.seen io in
    if is_terminal turn.status
    then finish_watch thread_id turn round.emitted_again_at s seen after
    else keep_watching thread_id round turn w s seen after

unfoldable pub watch_round : String → String → Round → Watcher → Ledger → Conn → Outcome
watch_round thread_id turn_id round w s io =
    let (r, t) = observe turn_id (round.others s) in
    elim r [
      | err e ↦ going w t (deliver_all round.replies io)
      | ok turn ↦ watch_observed thread_id round turn w t (deliver_all round.replies io)
    ]

-- The loop over the rounds that there are, once the ledger is open.
unfoldable pub watch_turn : String → String → List Round → Watcher → Ledger → Conn → Outcome
watch_turn thread_id turn_id [] w s io = going w s io
watch_turn thread_id turn_id (round ∷ rounds) w s io =
    elim (watch_round thread_id turn_id round w s io) [
      | ended written t done ↦ ended written t done
      | going v t next ↦ watch_turn thread_id turn_id rounds v t next
    ]

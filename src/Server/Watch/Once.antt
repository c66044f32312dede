-- ===== src/Server/Watch/Once.antt =====
-- How often `watch_turn` of crates/gamchi/src/app_server.rs tells of an item.
use gamchi.Prelude.{
  ℕ, ◌≤◌, ◌≡◌, refl, ◌∙◌, String, ◌==◌, Bool, true, false, not, ◌&&◌, Option, none, some, List, [],
  ◌∷◌, any, arith, Bool-cases, Option-cases, Result-cases, inl, inr, if◌then◌else◌,
}
use gamchi.Prelude.Assoc.{lookup}
use gamchi.Wire.{Item, Turn, is_terminal, pending_approval, item_file_change}
use gamchi.Ledger.State.{Ledger}
use gamchi.Ledger.Observe.{observe}
use gamchi.Prelude.Json.{Value}
use gamchi.Server.Connection.{
  Conn, new_conn, register, unregister, deliver_id, Received, try_recv, message, empty,
  disconnected,
}
use gamchi.Server.Watch.{
  notify_item_started, notify_item_completed, Seen, is_in, emit_item_notifications, PendingApproval,
  start_socket_approval, last_asking, approval_method, completed_note, Watcher, new_watcher, Round,
  deliver_all, take_answer, poll_pending, ask, asked, Outcome, ended, going, finish_watch,
  keep_watching, watch_observed, watch_round, watch_turn,
}
use gamchi.Server.Watch.Counts.{count, one_if, Once, write_locked-other, emit-Once}

-- A change of the connection that sends nothing.
quiet-Once :
    (id : String) (seen : Seen) (io next : Conn)
    → next.sent ≡ io.sent
    → Once id seen io
    → Once id seen next
quiet-Once id seen io next same h = record {
  starts = rw same h.starts;
  completes = rw same h.completes;
}

deliver_id-sent : (key : String) (msg : Value) (io : Conn) → (deliver_id key msg io).sent ≡ io.sent
unfolding deliver_id
deliver_id-sent key msg io = elim (Bool-cases (any (λ k. k == key) io.waiting)) [
  | inl awaited ↦ rw awaited refl
  | inr unknown ↦ rw unknown refl
]

deliver_all-sent :
    (replies : List (String × Value)) (io : Conn) → (deliver_all replies io).sent ≡ io.sent
deliver_all-sent [] io = refl
deliver_all-sent ((key, msg) ∷ rest) io =
    deliver_all-sent rest (deliver_id key msg io) ∙ deliver_id-sent key msg io

take_answer-sent :
    (wait : PendingApproval) (r : Received) (io : Conn) (s : Ledger)
    → (take_answer wait (r, io) s).2.sent ≡ io.sent
unfolding take_answer unregister
take_answer-sent wait (message reply) io s = refl
take_answer-sent wait empty io s = refl
take_answer-sent wait disconnected io s = refl

try_recv-sent : (key : String) (io : Conn) → (try_recv key io).1.sent ≡ io.sent
unfolding try_recv
try_recv-sent key io = elim (Option-cases (lookup key io.delivered)) [
  | inl nothing_there ↦ rw (nothing_there, try_recv) refl
  | inr (msg, there) ↦ rw (there, try_recv) refl
]

poll_pending-sent :
    (pending : Option PendingApproval) (s : Ledger) (io : Conn)
    → (poll_pending pending s io).2.sent ≡ io.sent
unfolding poll_pending
poll_pending-sent none s io = refl
poll_pending-sent (some wait) s io =
    take_answer-sent wait (try_recv wait.rpc_id io).0 (try_recv wait.rpc_id io).1 s
    ∙ try_recv-sent wait.rpc_id io

approval_method-other :
    (item : Option Item)
    → ((approval_method item == notify_item_started) ≡ false)
      × ((approval_method item == notify_item_completed) ≡ false)
approval_method-other none = (refl, refl)
approval_method-other (some item) = elim (Bool-cases (item.item_type == item_file_change)) [
  | inl file ↦ rw file (refl, refl)
  | inr command ↦ rw command (refl, refl)
]

unless_written :
    (b : Bool) (wait : PendingApproval) (key id : String) (seen : Seen) (io : Conn)
    → Once id seen io
    → Once id seen
        (if◌then◌else◌ {A = Option PendingApproval × Conn} b
          (some wait, io)
          (none, unregister key io)).1
unfolding unregister
unless_written true wait key id seen io h = h
unless_written false wait key id seen io h = quiet-Once id seen io (unregister key io) refl h

start_socket_approval-Once :
    (id thread_id : String) (turn : Turn) (now : ℕ) (seen : Seen) (io : Conn)
    → Once id seen io
    → Once id seen (start_socket_approval thread_id turn now io).1
unfolding start_socket_approval register
start_socket_approval-Once id thread_id turn now seen io h =
    let (no_start, no_end) = approval_method-other (last_asking turn.items none) in
    unless_written _ _ _ id seen _ (
      write_locked-other id _ seen _ (λ other. (rw no_start refl, rw no_end refl))
        (quiet-Once id seen io _ refl h))

ask-Once :
    (id thread_id : String) (turn : Turn) (now : ℕ) (last : String)
    (pending : Option PendingApproval) (seen : Seen) (io : Conn)
    → Once id seen io
    → Once id seen (ask thread_id turn now last pending io).2
unfolding ask
ask-Once id thread_id turn now last (some wait) seen io h = h
ask-Once id thread_id turn now last none seen io h =
    elim (Bool-cases (pending_approval turn && not (turn.pending_request_id == last))) [
      | inr idle ↦ rw idle h
      | inl asks ↦ rw asks (
          asked-Once last (start_socket_approval thread_id turn now io)
            (start_socket_approval-Once id thread_id turn now seen io h))
    ]
  where
    asked-Once :
        (l : String) (r : Option PendingApproval × Conn)
        → Once id seen r.1
        → Once id seen (asked l r).2
    asked-Once l (none, next) k = k
    asked-Once l (some wait, next) k = k

-- The connection that a round or the whole watch leaves.
abbrev pub conn_of : Outcome → Conn
conn_of (ended written s io) = io
conn_of (going w s io) = io

abbrev Held : String → Outcome → Type 0
Held id (ended written s io) = (seen : Seen) × Once id seen io
Held id (going w s io) = Once id w.seen io

finish_watch-Held :
    (id thread_id : String) (turn : Turn) (now : ℕ) (s : Ledger) (seen : Seen) (io : Conn)
    → Once id seen io
    → Held id (finish_watch thread_id turn now s seen io)
unfolding finish_watch
finish_watch-Held id thread_id turn now s seen io h = (
  (emit_item_notifications thread_id turn now seen io).1,
  write_locked-other id (completed_note thread_id turn) _ _ (λ other. (refl, refl))
      (emit-Once id thread_id turn now seen io h),
)

keep_watching-Held :
    (id thread_id : String) (round : Round) (turn : Turn) (w : Watcher) (s : Ledger) (seen : Seen)
    (io : Conn)
    → Once id seen io
    → Held id (keep_watching thread_id round turn w s seen io)
unfolding keep_watching
keep_watching-Held id thread_id round turn w s seen io h =
    ask-Once id thread_id turn round.asked_at w.last_request (poll_pending w.pending s io).0 seen
      (poll_pending w.pending s io).2 (quiet-Once id seen io _ (poll_pending-sent w.pending s io) h)

watch_observed-Held :
    (id thread_id : String) (round : Round) (turn : Turn) (w : Watcher) (s : Ledger) (io : Conn)
    → Once id w.seen io
    → Held id (watch_observed thread_id round turn w s io)
unfolding watch_observed
watch_observed-Held id thread_id round turn w s io h =
    let told = emit-Once id thread_id turn round.emitted_at w.seen io h in
    elim (Bool-cases (is_terminal turn.status)) [
      | inl done ↦ rw done (finish_watch-Held id thread_id turn round.emitted_again_at s _ _ told)
      | inr live ↦ rw live (keep_watching-Held id thread_id round turn w s _ _ told)
    ]

watch_round-Held :
    (id thread_id turn_id : String) (round : Round) (w : Watcher) (s : Ledger) (io : Conn)
    → Once id w.seen io
    → Held id (watch_round thread_id turn_id round w s io)
unfolding watch_round
watch_round-Held id thread_id turn_id round w s io h =
    let quiet = quiet-Once id w.seen io _ (deliver_all-sent round.replies io) h in
    elim (Result-cases (observe turn_id (round.others s)).0) [
      | inl (turn, e) ↦
          rw (e, watch_round) (watch_observed-Held id thread_id round turn w _ _ quiet)
      | inr (x, e) ↦ rw (e, watch_round) quiet
    ]

watch_turn-Held :
    (id thread_id turn_id : String) (rounds : List Round) (w : Watcher) (s : Ledger) (io : Conn)
    → Once id w.seen io
    → Held id (watch_turn thread_id turn_id rounds w s io)
unfolding watch_turn
watch_turn-Held id thread_id turn_id [] w s io h = h
watch_turn-Held id thread_id turn_id (round ∷ rounds) w s io h =
    go (watch_round thread_id turn_id round w s io)
      (watch_round-Held id thread_id turn_id round w s io h)
      (watch_turn-Held id thread_id turn_id rounds)
  where
    go :
        (o : Outcome)
        → Held id o
        → ((v : Watcher) (t : Ledger) (next : Conn)
            → Once id v.seen next
            → Held id (watch_turn thread_id turn_id rounds v t next))
        → Held id (elim o [
          | ended written t done ↦ ended written t done
          | going v t next ↦ watch_turn thread_id turn_id rounds v t next
        ])
    go (ended written t done) k rest = k
    go (going v t next) k rest = rest v t next k

one_at_most : (b : Bool) → one_if b ≤ 1
one_at_most true = omega arith
one_at_most false = omega arith

Held-once :
    (id : String) (o : Outcome)
    → Held id o
    → (count notify_item_started id (conn_of o).sent ≤ 1)
      × (count notify_item_completed id (conn_of o).sent ≤ 1)
Held-once id (ended written s io) (seen, h) =
    let starts = h.starts in
    let completes = h.completes in
    let one = one_at_most (is_in id seen.started) in
    let other = one_at_most (is_in id seen.completed) in (omega arith, omega arith)
Held-once id (going w s io) h =
    let starts = h.starts in
    let completes = h.completes in
    let one = one_at_most (is_in id w.seen.started) in
    let other = one_at_most (is_in id w.seen.completed) in (omega arith, omega arith)

-- However the turn changes between the rounds of a watch, whatever answers come in and whichever
-- writes fail, the watch has sent at most one item/started and at most one item/completed for an
-- item's id, at each of its rounds and at its end.
pub watch_turn-once :
    (id thread_id turn_id : String) (rounds : List Round) (s : Ledger) (refuses : ℕ → Bool)
    → (count notify_item_started id
          (conn_of (watch_turn thread_id turn_id rounds new_watcher s (new_conn refuses))).sent
        ≤ 1)
      × (count notify_item_completed id
            (conn_of (watch_turn thread_id turn_id rounds new_watcher s (new_conn refuses))).sent
          ≤ 1)
watch_turn-once id thread_id turn_id rounds s refuses =
    Held-once id (watch_turn thread_id turn_id rounds new_watcher s (new_conn refuses)) (
      watch_turn-Held id thread_id turn_id rounds new_watcher s (new_conn refuses)
        (record { starts = omega arith; completes = omega arith }))

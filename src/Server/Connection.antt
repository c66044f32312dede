-- ===== src/Server/Connection.antt =====
-- The writing side of a connection and the requests that wait for an answer: `ConnIo`,
-- `deliver_pending` and `after_rpc` of crates/gamchi/src/app_server.rs.
use gamchi.Prelude.{
  ℕ, suc, ◌+◌, ◌-◌, ◌%◌, ◌^◌, String, ◌==◌, Bool, true, false, Option, none, some, List, [], ◌∷◌,
  ◌++◌, any, ltb, if◌then◌else◌,
}
use gamchi.Prelude.Assoc.{Assoc, lookup, insert, remove}
use gamchi.Prelude.Text.{◌<>◌, decimal}
use gamchi.Prelude.Json.{Value, string, obj, get, get_in, text_in}

-- `sent` has the messages that one thread wrote, each one the text of a frame; the n-th write fails if
-- `refuses n`. `waiting` has the ids that `pending` has a sender for, and `delivered` what was sent
-- to a receiver and not yet received. `next_id` is an i64, by its 64 bits.
pub record Conn : Type 0 where
  pub sent : List Value
  pub writes : ℕ
  pub refuses : ℕ → Bool
  pub waiting : List String
  pub delivered : Assoc Value
  pub next_id : ℕ

-- `ConnIo` as `rpc_loop` makes it.
abbrev pub new_conn : (ℕ → Bool) → Conn
new_conn refuses = record {
  sent = [];
  writes = 0;
  refuses = refuses;
  waiting = [];
  delivered = [];
  next_id = 1000;
}

-- `write_locked`: whether the write succeeds.
unfoldable pub write_locked : Value → Conn → Bool × Conn
write_locked message io =
    if io.refuses io.writes
    then (false, record io { writes = suc io.writes })
    else (true, record io { writes = suc io.writes; sent = io.sent ++ message ∷ [] })

-- An i64 in decimal digits.
abbrev pub i64_text : ℕ → String
i64_text n = if ltb n (2 ^ 63) then decimal n else "-" <> decimal (2 ^ 64 - n)

abbrev pub without : String → List String → List String
without key [] = []
without key (k ∷ ks) = let rest = without key ks in if k == key then rest else k ∷ rest

-- A request that waits for its answer; its id, and the connection.
unfoldable pub register : Conn → String × Conn
register io =
    let key = i64_text io.next_id in
    (key, record io { waiting = key ∷ without key io.waiting; next_id = (io.next_id + 1) % 2 ^ 64 })

unfoldable pub unregister : String → Conn → Conn
unregister key io = record io { waiting = without key io.waiting }

-- `deliver_pending`: `print` is `to_string` of an id.
unfoldable pub deliver_id : String → Value → Conn → Conn
deliver_id key msg io =
    if any (λ k. k == key) io.waiting
    then record io { waiting = without key io.waiting; delivered = insert key msg io.delivered }
    else io

unfoldable pub deliver_pending : (print : Value → String) → Value → Conn → Conn
deliver_pending print msg io = elim (get msg "id") [
  | none ↦ io
  | some id ↦ deliver_id (print id) msg io
]

-- What a receiver finds: a message, nothing yet, or that nothing will come.
pub data Received : Type 0 where
  message : Value → Received
  empty disconnected : Received

-- `try_recv`.
unfoldable pub try_recv : String → Conn → Received × Conn
try_recv key io = elim (lookup key io.delivered) [
  | some msg ↦ (message msg, record io { delivered = remove key io.delivered })
  | none ↦ (if any (λ k. k == key) io.waiting then empty else disconnected, io)
]

abbrev pub notify_thread_started : String
notify_thread_started = "thread/started"

-- What follows a reply: a note, or a turn of a thread to watch.
pub data Followup : Type 0 where
  nothing : Followup
  note : Value → Followup
  watch : (thread_id turn_id : String) → Followup

abbrev pub started_note : Option String → Followup
started_note none = nothing
started_note (some id) = note (
    obj (
      ("method", string notify_thread_started)
      ∷ ("params", obj (("thread", obj (("id", string id) ∷ [])) ∷ []))
      ∷ []))

abbrev pub to_watch : Option String → Option String → Followup
to_watch none thread_id = nothing
to_watch (some turn_id) none = nothing
to_watch (some turn_id) (some thread_id) = watch thread_id turn_id

abbrev pub after_method : String → Value → Value → Followup
after_method method req reply =
    if method == "thread/start"
    then started_note (text_in (get_in (get_in (get reply "result") "thread") "id"))
    else if method == "turn/start"
    then to_watch (text_in (get_in (get_in (get reply "result") "turn") "id"))
        (text_in (get_in (get req "params") "threadId"))
    else nothing

abbrev pub or_blank : Option String → String
or_blank none = ""
or_blank (some s) = s

-- `after_rpc`, up to the thread that it starts.
unfoldable pub after_rpc : Value → Value → Followup
after_rpc req reply = elim (get reply "error") [
  | some e ↦ nothing
  | none ↦ after_method (or_blank (text_in (get req "method"))) req reply
]

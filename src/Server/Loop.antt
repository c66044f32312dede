-- ===== src/Server/Loop.antt =====
-- The loop over the messages of a connection: `rpc_loop` of crates/gamchi/src/app_server.rs. A
-- message is the JSON of a text, and `none` is a text that is no JSON; the texts are those that
-- `read_ws_text` returns before the connection ends.
pub mod InOrder
use gamchi.Prelude.{
  String, Bool, true, false, List, [], ◌∷◌, ◌++◌, Option, none, some, if◌then◌else◌,
}
use gamchi.Prelude.Json.{Value, get, text_in}
use gamchi.Ledger.State.{Ledger}
use gamchi.Grok.Teardown.{Children}
use gamchi.Ops.Host.{Host}
use gamchi.Server.Connection.{
  Conn, write_locked, deliver_pending, Followup, nothing, note, watch, after_rpc,
}
use gamchi.Server.Rpc.Handle.{handle_rpc}

-- What the loop works on. `watches` has the thread and the turn of each watch that it started.
pub record Session : Type 0 where
  pub ledger : Ledger
  pub children : Children
  pub conn : Conn
  pub watches : List (String × String)

-- What `after_rpc` does with what follows. A note that cannot be written is lost.
unfoldable pub follow : Followup → Session → Session
follow nothing se = se
follow (note message) se = record se { conn = (write_locked message se.conn).1 }
follow (watch thread_id turn_id) se = record se {
  watches = se.watches ++ (thread_id, turn_id) ∷ [];
}

-- The reply is sent before anything follows it. The loop goes on at true.
abbrev pub after_write : Value → Value → Bool × Conn → Session → Bool × Session
after_write msg reply (true, io) se = (true, follow (after_rpc msg reply) (record se { conn = io }))
after_write msg reply (false, io) se = (false, record se { conn = io })

abbrev pub send_reply : Value → Option Value → Session → Bool × Session
send_reply msg none se = (true, se)
send_reply msg (some reply) se = after_write msg reply (write_locked reply se.conn) se

abbrev pub or_stop : Bool → Session → Bool × Session → Bool × Session
or_stop true se later = later
or_stop false se later = (false, se)

-- `print` is `to_string` of an id, and `models` the list of models that the environment names.
module _ (host : Host) (models : Option Value) (home : String) (print : Value → String) where
  abbrev pub on_call : Value → Session → Bool × Session
  on_call msg se =
      let (reply, s, c) = handle_rpc host models home msg se.ledger se.children in
      send_reply msg reply (record se { ledger = s; children = c })

  unfoldable pub on_message : Option Value → Session → Bool × Session
  on_message none se = (true, se)
  on_message (some msg) se = elim (text_in (get msg "method")) [
    | none ↦ (true, record se { conn = deliver_pending print msg se.conn })
    | some method ↦ on_call msg se
  ]

  -- Whether the connection ended by its peer; else a reply could not be written.
  unfoldable pub rpc_loop : List (Option Value) → Session → Bool × Session
  rpc_loop [] se = (true, se)
  rpc_loop (msg ∷ messages) se =
      let (goes_on, next) = on_message msg se in
      let later = rpc_loop messages next in or_stop goes_on next later

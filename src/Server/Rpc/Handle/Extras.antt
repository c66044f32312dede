-- ===== src/Server/Rpc/Handle/Extras.antt =====
-- What `handle_rpc` of crates/gamchi/src/app_server.rs does with the spawn fields that the adapter
-- cannot enforce.
use mathlib.Core.List.{Memᴰ}
use gamchi.Prelude.{
  String, ◌≡◌, refl, sym, ◌∙◌, false, Option, some, List, [], ◌∷◌, err, Bool-cases, inl, inr,
}
use gamchi.Prelude.Text.{◌<>◌}
use gamchi.Ledger.State.{Ledger}
use gamchi.Grok.Teardown.{Children}
use gamchi.Prelude.Json.{Value, string, get}
use gamchi.Ops.Host.{Host}
use gamchi.Server.Rpc.Params.{
  is_some, unenforceable_extra_field_names, reject_fields, reject_unenforceable_extras,
}
use gamchi.Server.Rpc.Replies.{method_not_found, rpc_error}
use gamchi.Server.Rpc.Threads.{new_thread, thread_start, thread_resume, thread_read}
use gamchi.Server.Rpc.Turns.{interrupt_ids, interrupt_named, turn_start, turn_interrupt}
use gamchi.Server.Rpc.Handle.{Answer, asks_ccas, on_threads, on_method, handle_named, handle_rpc}

-- The methods whose params are checked.
abbrev pub checked_methods : List String
checked_methods =
    "thread/start" ∷ "thread/resume" ∷ "thread/read" ∷ "turn/start" ∷ "turn/interrupt" ∷ []

reject_fields-err :
    (names : List String) (params v : Value) (name : String)
    → Memᴰ name names
    → get params name ≡ some v
    → (message : String) × (reject_fields names params ≡ err message)
unfolding reject_fields
reject_fields-err [] params v name m there = elim m [ ]
reject_fields-err (n ∷ names) params v name (Memᴰ.head e) there =
    ("unenforceable extra spawn field " <> n, rw (sym e, there) refl)
reject_fields-err (n ∷ names) params v name (Memᴰ.tail m) there =
    elim (Bool-cases (is_some (get params n))) [
      | inl first ↦ ("unenforceable extra spawn field " <> n, rw first refl)
      | inr absent ↦
          let (message, e) = reject_fields-err names params v name m there in
          (message, rw (absent, e) refl)
    ]

abbrev Refusal : Value → Answer → Ledger → Children → Type 0
Refusal id answer s c =
    (message : String) × (answer ≡ (rpc_error id method_not_found message, s, c))

module _ (host : Host) (models : Option Value) (home : String) (id params : Value) (s : Ledger)
    (c : Children) (message : String)
    (rejected : reject_unenforceable_extras params ≡ err message) where
  start : Refusal id (on_threads host home id "thread/start" params s c) s c
  unfolding on_threads thread_start new_thread
  start = (message, rw rejected refl)

  resume : Refusal id (on_threads host home id "thread/resume" params s c) s c
  unfolding on_threads thread_resume
  resume = (message, rw rejected refl)

  read : Refusal id (on_threads host home id "thread/read" params s c) s c
  unfolding on_threads thread_read
  read = (message, rw rejected refl)

  turn : Refusal id (on_threads host home id "turn/start" params s c) s c
  unfolding on_threads turn_start
  turn = (message, rw rejected refl)

  interrupt : Refusal id (on_threads host home id "turn/interrupt" params s c) s c
  unfolding on_threads turn_interrupt interrupt_ids interrupt_named
  interrupt = (message, rw rejected refl)

  on_threads-refuses :
      (method : String)
      → Memᴰ method checked_methods
      → Refusal id (on_threads host home id method params s c) s c
  on_threads-refuses method (Memᴰ.head e) = rw e start
  on_threads-refuses method (Memᴰ.tail (Memᴰ.head e)) = rw e resume
  on_threads-refuses method (Memᴰ.tail (Memᴰ.tail (Memᴰ.head e))) = rw e read
  on_threads-refuses method (Memᴰ.tail (Memᴰ.tail (Memᴰ.tail (Memᴰ.head e)))) = rw e turn
  on_threads-refuses method (Memᴰ.tail (Memᴰ.tail (Memᴰ.tail (Memᴰ.tail (Memᴰ.head e))))) =
      rw e interrupt
  on_threads-refuses method (Memᴰ.tail (Memᴰ.tail (Memᴰ.tail (Memᴰ.tail (Memᴰ.tail m))))) =
      elim m [ ]

  -- The checked methods are none of those that come before them.
  on_method-passes :
      (method : String)
      → Memᴰ method checked_methods
      → asks_ccas method params ≡ false
      → on_method host models home id method params s c ≡ on_threads host home id method params s c
  unfolding on_method
  on_method-passes method (Memᴰ.head e) asks = rw asks (rw e refl)
  on_method-passes method (Memᴰ.tail (Memᴰ.head e)) asks = rw asks (rw e refl)
  on_method-passes method (Memᴰ.tail (Memᴰ.tail (Memᴰ.head e))) asks = rw asks (rw e refl)
  on_method-passes method (Memᴰ.tail (Memᴰ.tail (Memᴰ.tail (Memᴰ.head e)))) asks =
      rw asks (rw e refl)
  on_method-passes method (Memᴰ.tail (Memᴰ.tail (Memᴰ.tail (Memᴰ.tail (Memᴰ.head e))))) asks =
      rw asks (rw e refl)
  on_method-passes method (Memᴰ.tail (Memᴰ.tail (Memᴰ.tail (Memᴰ.tail (Memᴰ.tail m))))) asks =
      elim m [ ]

  on_method-refuses :
      (method : String)
      → Memᴰ method checked_methods
      → Refusal id (on_method host models home id method params s c) s c
  unfolding on_method
  on_method-refuses method m = elim (Bool-cases (asks_ccas method params)) [
    | inl asks ↦ ("capabilities.ccas", rw asks refl)
    | inr passes ↦
        let (text, e) = on_threads-refuses method m in
        (text, unfold on_method in (on_method-passes method m passes ∙ e))
  ]

-- A request of a thread or a turn method whose params have a field that the adapter cannot enforce
-- (writableRoots, networkAccess, excludeSlashTmp or excludeTmpdirEnvVar, with any value) is
-- refused with an error, and neither the ledger nor the children change. The message has an id.
pub handle_rpc-refuses_extras :
    (host : Host) (models : Option Value) (home method name : String) (msg id params v : Value)
    (s : Ledger) (c : Children)
    → Memᴰ method checked_methods
    → Memᴰ name unenforceable_extra_field_names
    → get msg "method" ≡ some (string method)
    → get msg "id" ≡ some id
    → get msg "params" ≡ some params
    → get params name ≡ some v
    → (message : String) × (handle_rpc host models home msg s c
        ≡ (some (rpc_error id method_not_found message), s, c))
unfolding handle_rpc handle_named reject_unenforceable_extras
handle_rpc-refuses_extras host models home method name msg id params v s c m n named numbered given
      there =
    let (why, rejected) = reject_fields-err unenforceable_extra_field_names params v name n there in
    let (message, e) = on_method-refuses host models home id params s c why rejected method m in
    (message, rw (named, numbered, given, e) refl)

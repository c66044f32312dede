-- ===== src/Server/Rpc/Handle/Shape.antt =====
-- The form of every reply of `handle_rpc` (crates/gamchi/src/app_server.rs).
use gamchi.Prelude.{
  String, ◌==◌, ◌≡◌, refl, Bool, true, false, not, Option, some, Result, ok, err, Bool-cases, inl,
  inr, if◌then◌else◌,
}
use gamchi.Ledger.State.{Ledger}
use gamchi.Grok.Teardown.{Children}
use gamchi.Prelude.Json.{Value, get, text_in}
use gamchi.Ops.Host.{Host}
use gamchi.Server.Rpc.Params.{is_some, opt_out_is_nonempty}
use gamchi.Server.Rpc.Replies.{rpc_result}
use gamchi.Server.Rpc.Threads.{ThreadReadError, absent, other}
use gamchi.Server.Rpc.Handle.{
  Answer, read_reply, asks_ccas, is_empty_object, initialize, runtime_read, on_threads, on_method,
  or_empty, handle_named, handle_rpc,
}

-- A reply to a request of that id: with a result and no error, or with an error and no result.
abbrev pub Replies : Value → Value → Type 0
Replies id reply =
    (get reply "id" ≡ some id) × (is_some (get reply "result") ≡ not (is_some (get reply "error")))

Replies-rpc_result : (id : Value) (r : Result String Value) → Replies id (rpc_result id r)
Replies-rpc_result id (ok v) = (refl, refl)
Replies-rpc_result id (err m) = (refl, refl)

Replies-if :
    (b : Bool) (id : Value) (x y : Answer)
    → Replies id x.0
    → Replies id y.0
    → Replies id (if b then x else y).0
Replies-if true id x y p q = p
Replies-if false id x y p q = q

Replies-read :
    (id : Value) (c : Children) (r : Result ThreadReadError Value × Ledger)
    → Replies id (read_reply id c r).0
Replies-read id c (ok v, s) = (refl, refl)
Replies-read id c (err (absent m), s) = (refl, refl)
Replies-read id c (err (other m), s) = (refl, refl)

Replies-on_threads :
    (host : Host) (home method : String) (id params : Value) (s : Ledger) (c : Children)
    → Replies id (on_threads host home id method params s c).0
unfolding on_threads
Replies-on_threads host home method id params s c =
    Replies-if (method == "thread/start") id _ _ (Replies-rpc_result id _) (
      Replies-if (method == "thread/resume") id _ _ (Replies-rpc_result id _) (
        Replies-if (method == "thread/read") id _ _ (Replies-read id c _) (
          Replies-if (method == "turn/start") id _ _ (Replies-rpc_result id _) (
            Replies-if (method == "turn/interrupt") id _ _ (Replies-rpc_result id _)
              (refl, refl)))))

Replies-runtime_read :
    (id : Value) (home : String) (params : Value) → Replies id (runtime_read id home params)
unfolding runtime_read
Replies-runtime_read id home params = elim (Bool-cases (is_empty_object params)) [
  | inl none_given ↦ rw none_given (refl, refl)
  | inr given ↦ rw given (refl, refl)
]

Replies-initialize : (id params : Value) → Replies id (initialize id params)
unfolding initialize
Replies-initialize id params = elim (Bool-cases (opt_out_is_nonempty params)) [
  | inl out ↦ rw out (refl, refl)
  | inr none_out ↦ rw none_out (refl, refl)
]

Replies-on_method :
    (host : Host) (models : Option Value) (home method : String) (id params : Value) (s : Ledger)
    (c : Children)
    → Replies id (on_method host models home id method params s c).0
unfolding on_method
Replies-on_method host models home method id params s c =
    Replies-if (asks_ccas method params) id _ _ (refl, refl)
      (Replies-if (method == "initialize") id _ _ (Replies-initialize id params) (
        Replies-if (method == "account/read") id _ _ (refl, refl)
          (Replies-if (method == "model/list") id _ _ (refl, refl)
            (Replies-if (method == "grok/runtime/read") id _ _ (Replies-runtime_read id home params)
              (Replies-if (method == "thread/fork") id _ _ (refl, refl)
                (Replies-on_threads host home method id params s c))))))

-- A message with a text for a method and with an id is answered, whatever the method, its params
-- and the state are: the reply has that id, and it has a result or an error, and not both.
pub handle_rpc-Replies :
    (host : Host) (models : Option Value) (home method : String) (msg id : Value) (s : Ledger)
    (c : Children)
    → text_in (get msg "method") ≡ some method
    → get msg "id" ≡ some id
    → (reply : Value) × ((handle_rpc host models home msg s c).0 ≡ some reply)
      × (get reply "id" ≡ some id)
      × (is_some (get reply "result") ≡ not (is_some (get reply "error")))
unfolding handle_rpc handle_named
handle_rpc-Replies host models home method msg id s c named numbered =
    let params = or_empty (get msg "params") in
    let (same, one) = Replies-on_method host models home method id params s c in
    ((on_method host models home id method params s c).0, rw (named, numbered) refl, same, one)

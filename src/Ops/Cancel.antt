-- ===== src/Ops/Cancel.antt =====
-- `cancel_turn` of crates/gamchi/src/ops.rs.
pub mod Teardown
use gamchi.Prelude.{
  ℕ, String, Bool, true, false, Option, none, some, Result, ok, err, map_err, if◌then◌else◌,
}
use gamchi.Wire.{TurnStatus, in_progress, completed, failed, interrupted, Turn}
use gamchi.Ledger.Error.{LedgerError}
use gamchi.Ledger.State.{Ledger}
use gamchi.Ledger.Files.{read_turn, read_generation}
use gamchi.Ledger.Live.{recorded_child_is_alive}
use gamchi.Ledger.Observe.{cancel}
use gamchi.Grok.Teardown.{Children, teardown_process_group}
use gamchi.Ops.Host.{Host, ledger_text}

abbrev pub is_interrupted : TurnStatus → Bool
is_interrupted in_progress = false
is_interrupted completed = false
is_interrupted failed = false
is_interrupted interrupted = true

-- The child that is recorded for the turn's generation and still runs.
unfoldable pub live_child : Turn → Ledger → Option ℕ
live_child turn s = elim (read_generation turn.generation_id s) [
  | err e ↦ none
  | ok g ↦ elim g.child_pid [
    | none ↦ none
    | some pid ↦ if recorded_child_is_alive s g then some pid else none
  ]
]

abbrev pub tear_down : Option ℕ → Children → Children
tear_down none c = c
tear_down (some pid) c = teardown_process_group pid c

-- What follows the cancellation in the ledger.
unfoldable pub after_cancel :
    Host
    → String
    → Result LedgerError Turn
    → Ledger
    → Children
    → Result String Turn × Ledger × Children
after_cancel host turn_id (err e) s c = (err (ledger_text host e), s, c)
after_cancel host turn_id (ok turn) s c =
    if is_interrupted turn.status
    then (map_err (ledger_text host) (read_turn turn_id s), s, tear_down (live_child turn s) c)
    else (ok turn, s, c)

unfoldable pub cancel_turn :
    Host → String → Ledger → Children → Result String Turn × Ledger × Children
cancel_turn host turn_id s c = let (r, t) = cancel turn_id s in after_cancel host turn_id r t c

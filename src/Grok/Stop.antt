-- ===== src/Grok/Stop.antt =====
-- The end of a turn: `stop_reason_str`, `publish_stop` and `finish_turn` of
-- crates/adapter-grok/src/turn.rs.
pub mod Ending
use gamchi.Prelude.{
  String, Bool, true, false, Option, none, some, List, Result, ok, err, if◌then◌else◌,
}
use gamchi.Prelude.Text.{◌<>◌}
use gamchi.Wire.{Turn, TurnStatus, failed, is_terminal, map_stop_reason}
use gamchi.Ledger.Error.{LedgerError}
use gamchi.Ledger.State.{Ledger}
use gamchi.Ledger.Exec.{Exec, pure, reads, attempt, ◌>>=◌}
use gamchi.Ledger.Files.{read_turn}
use gamchi.Ledger.Observe.{publish_terminal}

-- The variants of ACP's `StopReason` that the code names, and `unnamed` for the others.
pub data StopReason : Type 0 where
  end_turn cancelled refusal max_tokens max_turn_requests unnamed : StopReason

abbrev pub stop_reason_str : StopReason → String
stop_reason_str end_turn = "end_turn"
stop_reason_str cancelled = "cancelled"
stop_reason_str refusal = "refusal"
stop_reason_str max_tokens = "max_tokens"
stop_reason_str max_turn_requests = "max_turn_requests"
stop_reason_str unnamed = "unknown"

-- `status == TurnStatus::Failed`.
abbrev pub is_failed : TurnStatus → Bool
is_failed failed = true
is_failed _ = false

-- `fatal` is what the mapper's lock holds when it is read.
unfoldable pub publish_stop : Option String → String → StopReason → Exec Turn
publish_stop (some fatal) turn_id stop = publish_terminal turn_id failed "" fatal
publish_stop none turn_id stop =
    let stop_s = stop_reason_str stop in
    let status = map_stop_reason stop_s in
    publish_terminal turn_id status stop_s (if is_failed status then stop_s else "")

pub record TurnOutcome : Type 0 where
  pub turn : Turn
  pub files_changed : List String
  pub files_changed_complete : Bool

-- The variants of `AdapterError` that the end of a turn can return.
pub data AdapterError : Type 0 where
  ledger : LedgerError → AdapterError
  excluded_fatal : String → AdapterError

-- The turn that was read, where it is terminal already; else the publication.
abbrev pub terminal_or : Result LedgerError Turn → Exec Turn → Exec Turn
terminal_or (ok turn) publish = if is_terminal turn.status then pure turn else publish
terminal_or (err e) publish = publish

abbrev pub with_files :
    Option String → List String × Bool → Result LedgerError Turn → Result AdapterError TurnOutcome
with_files fatal files (err e) = err (ledger e)
with_files (some fatal) files (ok turn) =
    err (excluded_fatal ("turn " <> turn.id <> " failed: " <> fatal))
with_files none (names, complete) (ok turn) =
    ok (record { turn = turn; files_changed = names; files_changed_complete = complete })

unfoldable pub ended_turn : Option String → String → StopReason → Exec Turn
unfolding publish_stop
ended_turn fatal turn_id stop = do
  found ← attempt (reads (read_turn turn_id))
  terminal_or found (publish_stop fatal turn_id stop)

-- `fatal` is what the lock holds at the publication, and `later` what it holds after it. `files` is
-- what git says that the turn changed.
unfoldable pub finish_turn :
    (fatal later : Option String)
    → (files : List String × Bool) → String
    → StopReason
    → Ledger
    → Result AdapterError TurnOutcome × Ledger
finish_turn fatal later files turn_id stop s =
    let (r, t) = ended_turn fatal turn_id stop s in (with_files later files r, t)

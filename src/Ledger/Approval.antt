-- ===== src/Ledger/Approval.antt =====
-- Parked permission requests: park, respond, and clear.
pub mod Delivery
use gamchi.Prelude.{String, ◌==◌, not, Option, none, some, find, if◌then◌else◌}
use gamchi.Prelude.Text.{◌<>◌, is_empty}
use gamchi.Wire.{Turn, ApprovalDecision, decision_str, is_terminal, pending_approval}
use gamchi.Ledger.Error.{already_terminal, invalid_status}
use gamchi.Ledger.Ids.{validate_id}
use gamchi.Ledger.Exec.{Exec, pure, raise, lift, reads, modify, ◌>>=◌, ◌>>◌, lock_exclusive}
use gamchi.Ledger.Files.{read_turn, write_turn, new_id, thread_lock_path}
use gamchi.Ledger.Observe.{wake}
use gamchi.Ledger.Listing.{list_turns}

abbrev already_pending : Turn → String
already_pending turn =
    "turn " <> turn.id <> " already has pending approval " <> turn.pending_request_id

unfoldable pub park_approval : String → Exec Turn
park_approval turn_id = do
  lift (validate_id turn_id)
  named ← reads (read_turn turn_id)
  lock_exclusive (thread_lock_path named.thread_id)
  turn ← reads (read_turn turn_id)
  if is_terminal turn.status
      then raise (already_terminal turn.id turn.status)
      else if pending_approval turn
      then raise (invalid_status (already_pending turn))
      else do
        request_id ← new_id "ap"
        let parked = record turn { pending_request_id = request_id; pending_decision = "" }
        write_turn parked
        modify (wake parked.id)
        pure parked

unfoldable pub turn_by_pending_request : String → Exec (Option Turn)
turn_by_pending_request request_id = do
  turns ← list_turns none
  pure (find (λ turn. turn.pending_request_id == request_id) turns)

-- What `respond` does with the turn that the request named when it was looked up.
unfoldable pub respond_on : String → ApprovalDecision → Turn → Exec Turn
respond_on request_id decision named = do
  lock_exclusive (thread_lock_path named.thread_id)
  turn ← reads (read_turn named.id)
  if is_terminal turn.status
      then raise (invalid_status ("stale request_id " <> request_id))
      else if not (turn.pending_request_id == request_id)
      then raise (invalid_status ("unknown request_id " <> request_id))
      else if not (is_empty turn.pending_decision)
      then raise (invalid_status ("duplicate request_id " <> request_id))
      else do
        let decided = record turn { pending_decision = decision_str decision }
        write_turn decided
        modify (wake decided.id)
        pure decided

unfoldable pub respond_named : String → ApprovalDecision → Option Turn → Exec Turn
respond_named request_id decision none =
    raise (invalid_status ("unknown request_id " <> request_id))
respond_named request_id decision (some turn) = respond_on request_id decision turn

unfoldable pub respond : String → ApprovalDecision → Exec Turn
respond request_id decision = do
  lift (validate_id request_id)
  named ← turn_by_pending_request request_id
  respond_named request_id decision named

unfoldable pub clear_pending : String → String → Exec Turn
clear_pending turn_id request_id = do
  lift (validate_id turn_id)
  named ← reads (read_turn turn_id)
  lock_exclusive (thread_lock_path named.thread_id)
  turn ← reads (read_turn turn_id)
  if turn.pending_request_id == request_id
      then (do
        let cleared = record turn { pending_request_id = ""; pending_decision = "" }
        write_turn cleared
        modify (wake cleared.id)
        pure cleared)
      else pure turn

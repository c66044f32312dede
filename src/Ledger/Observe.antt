-- ===== src/Ledger/Observe.antt =====
-- Reading a turn with convergence, the terminal publication, and cancel.
pub mod Converge
pub mod Cancel
use gamchi.Prelude.{String, ◌==◌, Bool, true, false, not, Result, ok, err, if◌then◌else◌}
use gamchi.Wire.{Thread, Turn, TurnStatus, interrupted, failed, is_terminal, failure_worker_gone}
use gamchi.Ledger.Error.{LedgerError, already_terminal, invalid_status}
use gamchi.Ledger.Ids.{validate_id}
use gamchi.Ledger.Waiters
use gamchi.Ledger.State.{Ledger}
use gamchi.Ledger.Exec.{
  Exec, pure, raise, lift, gets, reads, modify, attempt, ignore, ◌>>=◌, ◌>>◌, lock_exclusive,
}
use gamchi.Ledger.Files.{
  read_thread, read_turn, read_generation, write_thread, write_turn, thread_lock_path,
}
use gamchi.Ledger.Live.{release_live, generation_is_dead}

abbrev pub wake : String → Ledger → Ledger
wake turn_id s = record s { waiters = Waiters.wake turn_id s.waiters }

abbrev pub wake_and_drop : String → Ledger → Ledger
wake_and_drop turn_id s = record s { waiters = Waiters.wake_and_drop turn_id s.waiters }

-- The thread forgets the turn, if it can be read and names it. A failed write is ignored.
unfoldable pub clear_in_progress : Turn → Result LedgerError Thread → Exec (Unit {0})
clear_in_progress next (err e) = pure tt
clear_in_progress next (ok thread) =
    if thread.in_progress_turn_id == next.id
    then ignore (write_thread (record thread { in_progress_turn_id = "" }))
    else pure tt

abbrev pub finish_turn : Turn → TurnStatus → String → String → Turn
finish_turn turn status stop_reason failure_reason = record turn {
  status = status;
  stop_reason = stop_reason;
  failure_reason = failure_reason;
}

unfoldable pub publish_terminal_locked : Turn → TurnStatus → String → String → Exec Turn
publish_terminal_locked turn status stop_reason failure_reason =
    if is_terminal turn.status then pure turn else do
      let next = finish_turn turn status stop_reason failure_reason
      write_turn next
      thread ← attempt (reads (read_thread next.thread_id))
      clear_in_progress next thread
      modify (release_live next.generation_id)
      modify (wake_and_drop next.id)
      pure next

unfoldable pub publish_terminal : String → TurnStatus → String → String → Exec Turn
publish_terminal turn_id status stop_reason failure_reason = do
  lift (validate_id turn_id)
  if not (is_terminal status)
      then raise (invalid_status "publish_terminal requires a terminal TurnStatus")
      else do
        named ← reads (read_turn turn_id)
        lock_exclusive (thread_lock_path named.thread_id)
        turn ← reads (read_turn turn_id)
        if is_terminal turn.status
            then raise (already_terminal turn.id turn.status)
            else publish_terminal_locked turn status stop_reason failure_reason

unfoldable pub observe_locked : String → Exec Turn
observe_locked turn_id = do
  turn ← reads (read_turn turn_id)
  if is_terminal turn.status then pure turn else do
    generation ← reads (read_generation turn.generation_id)
    dead ← gets (λ s. generation_is_dead s generation)
    if not dead then pure turn else publish_terminal_locked turn failed "" failure_worker_gone

unfoldable pub observe : String → Exec Turn
observe turn_id = do
  lift (validate_id turn_id)
  turn ← reads (read_turn turn_id)
  lock_exclusive (thread_lock_path turn.thread_id)
  observe_locked turn_id

unfoldable pub cancel : String → Exec Turn
cancel turn_id = do
  lift (validate_id turn_id)
  named ← reads (read_turn turn_id)
  lock_exclusive (thread_lock_path named.thread_id)
  turn ← observe_locked turn_id
  if is_terminal turn.status
      then pure turn
      else publish_terminal_locked turn interrupted "cancelled" ""

-- ===== src/Ledger/Items.antt =====
-- The other writes: a turn's items, the ACP session of a thread, the child of a generation.
use gamchi.Prelude.{ℕ, String, ◌==◌, true, false, some, List, [], ◌∷◌, if◌then◌else◌}
use gamchi.Prelude.Text.{is_empty}
use gamchi.Wire.{Thread, Turn, Item, Generation, is_terminal}
use gamchi.Ledger.Error.{already_terminal}
use gamchi.Ledger.Ids.{validate_id}
use gamchi.Ledger.Waiters
use gamchi.Ledger.State.{Ledger}
use gamchi.Ledger.Exec.{Exec, pure, raise, lift, gets, reads, modify, ◌>>=◌, ◌>>◌, lock_exclusive}
use gamchi.Ledger.Files.{
  read_thread, read_turn, read_generation, write_thread, write_turn, write_generation,
  thread_lock_path, generation_lock_path,
}
use gamchi.Ledger.Observe.{wake}

-- The first item of that id is replaced; a new item goes to the end.
unfoldable pub put_item : Item → List Item → List Item
put_item item [] = item ∷ []
put_item item (i ∷ l) = if i.id == item.id then item ∷ l else i ∷ put_item item l

unfoldable pub upsert_item : String → Item → Exec Turn
upsert_item turn_id item = do
  lift (validate_id turn_id)
  lift (validate_id item.id)
  named ← reads (read_turn turn_id)
  lock_exclusive (thread_lock_path named.thread_id)
  turn ← reads (read_turn turn_id)
  if is_terminal turn.status then raise (already_terminal turn.id turn.status) else do
    let next = record turn { items = put_item item turn.items }
    write_turn next
    modify (wake next.id)
    pure next

unfoldable pub set_acp_session_id : String → String → Exec Thread
set_acp_session_id thread_id acp_session_id = do
  lift (validate_id thread_id)
  lock_exclusive (thread_lock_path thread_id)
  thread ← reads (read_thread thread_id)
  let next = record thread { acp_session_id = acp_session_id }
  write_thread next
  pure next

unfoldable pub set_child_pid : String → ℕ → Exec Generation
set_child_pid generation_id child_pid = do
  lift (validate_id generation_id)
  lock_exclusive (generation_lock_path generation_id)
  generation ← reads (read_generation generation_id)
  started ← gets (λ s. s.os.epoch)
  let next = record generation {
    child_pid = some child_pid;
    child_started_epoch = some started;
    child_eof = false;
  }
  write_generation generation_id next
  pure next

abbrev pub wake_owner : Generation → Ledger → Ledger
wake_owner g s =
    if is_empty g.turn_id
    then record s { waiters = Waiters.wake_all s.waiters }
    else wake g.turn_id s

unfoldable pub mark_child_eof : String → Exec Generation
mark_child_eof generation_id = do
  lift (validate_id generation_id)
  lock_exclusive (generation_lock_path generation_id)
  generation ← reads (read_generation generation_id)
  let next = record generation { child_eof = true }
  write_generation generation_id next
  modify (wake_owner next)
  pure next

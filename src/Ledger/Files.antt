-- ===== src/Ledger/Files.antt =====
-- Reading and writing the record files. A write replaces the whole file or leaves it as it was.
use gamchi.Prelude.{◌^◌, ◌%◌, ◌+◌, String, Option, none, some, Result, ok, err, map_err, and_then}
use gamchi.Prelude.Assoc.{lookup, insert}
use gamchi.Prelude.Text.{◌<>◌}
use gamchi.Wire.{Thread, Turn, Generation}
use gamchi.Ledger.Error.{LedgerError, io, json, missing, other, map_not_found}
use gamchi.Ledger.Ids.{validate_id, format_id}
use gamchi.Ledger.State.{Ledger, Body, good, garbled, unreadable}
use gamchi.Ledger.Exec.{Exec, modify, ◌>>◌, call}

abbrev pub read_json : {A : Type 0} → Option (Body A) → Result LedgerError A
read_json none = err (io missing)
read_json (some unreadable) = err (io other)
read_json (some garbled) = err json
read_json (some (good a)) = ok a

unfoldable pub read_thread : String → Ledger → Result LedgerError Thread
read_thread thread_id s =
    and_then (validate_id thread_id)
      (λ _. map_err (map_not_found "thread" thread_id) (read_json (lookup thread_id s.threads)))

unfoldable pub read_turn : String → Ledger → Result LedgerError Turn
read_turn turn_id s =
    and_then (validate_id turn_id)
      (λ _. map_err (map_not_found "turn" turn_id) (read_json (lookup turn_id s.turns)))

unfoldable pub read_generation : String → Ledger → Result LedgerError Generation
read_generation generation_id s = and_then (validate_id generation_id) (λ _.
    map_err (map_not_found "generation" generation_id)
      (read_json (lookup generation_id s.generations)))

-- `ID_SEQ.fetch_add(1)` on u64.
unfoldable pub next_seq : Ledger → Ledger
next_seq s = record s { seq = (s.seq + 1) % 2 ^ 64 }

-- `write_json_atomic`: a numbered temporary file, then a rename. One call stands for the chain of
-- calls of which each ends the write.
unfoldable pub write_json_atomic : (Ledger → Ledger) → Exec (Unit {0})
write_json_atomic rename = do modify next_seq; call; modify rename

unfoldable pub write_thread : Thread → Exec (Unit {0})
write_thread t = write_json_atomic (λ s. record s { threads = insert t.id (good t) s.threads })

unfoldable pub write_turn : Turn → Exec (Unit {0})
write_turn t = write_json_atomic (λ s. record s { turns = insert t.id (good t) s.turns })

-- The generation's path is made from an id of its own in `set_child_pid` and `mark_child_eof`.
unfoldable pub write_generation : String → Generation → Exec (Unit {0})
write_generation id g =
    write_json_atomic (λ s. record s { generations = insert id (good g) s.generations })

-- `new_id`.
unfoldable pub new_id : String → Exec String
new_id prefix s = (ok (format_id prefix s.os.pid s.os.nanos s.seq), next_seq s)

abbrev pub thread_lock_path : String → String
thread_lock_path id = "threads/" <> id <> ".lock"

abbrev pub generation_lock_path : String → String
generation_lock_path id = "generations/" <> id <> ".lock"

-- ===== src/Ledger/Live.antt =====
-- Generation liveness: the live locks that the process holds, and what makes a generation dead.
use gamchi.Prelude.{
  String, ◌==◌, Bool, true, false, not, Option, none, some, List, [], ◌∷◌, any, is_ok,
  if◌then◌else◌,
}
use gamchi.Prelude.Assoc.{lookup, insert, remove}
use gamchi.Prelude.Text.{◌<>◌}
use gamchi.Wire.{Generation}
use gamchi.Ledger.Process.{process_alive}
use gamchi.Ledger.State.{Ledger, LiveHold}
use gamchi.Ledger.Exec.{lock_exclusive}

unfoldable pub generation_live_path : String → String → String
generation_live_path home id = home <> "/generations/" <> id <> ".live"

-- `PROCESS_LIVE`, a set of paths.
abbrev pub process_holds_live : Ledger → String → Bool
process_holds_live s path = any (λ p. p == path) s.process_live

unfoldable pub set_insert : String → List String → List String
set_insert p l = if any (λ q. q == p) l then l else p ∷ l

unfoldable pub set_remove : String → List String → List String
set_remove p [] = []
set_remove p (q ∷ l) = let rest = set_remove p l in if q == p then rest else q ∷ rest

-- `Drop for LiveHold`.
unfoldable pub drop_hold : Option LiveHold → Ledger → Ledger
drop_hold none s = s
drop_hold (some hold) s = record s { process_live = set_remove hold.path s.process_live }

-- The hold that an insertion replaces is dropped after it.
unfoldable pub hold_live : String → Ledger → Ledger
hold_live generation_id s =
    let path = generation_live_path s.home generation_id in
    let (lock, t) = lock_exclusive path s in
    let hold : LiveHold = record { path = path; locked = is_ok lock } in
    drop_hold (lookup generation_id t.live_files) (record t {
      process_live = set_insert path t.process_live;
      live_files = insert generation_id hold t.live_files;
    })

unfoldable pub release_live : String → Ledger → Ledger
release_live generation_id s =
    drop_hold (lookup generation_id s.live_files)
      (record s { live_files = remove generation_id s.live_files })

unfoldable pub owner_instance_alive : Ledger → Generation → Bool
owner_instance_alive s g =
    let path = generation_live_path s.home g.id in
    if process_holds_live s path then true else elim (s.os.flocked path) [
      | some held_by_other ↦ held_by_other
      | none ↦ process_alive s.os.proc g.owner_pid (some g.started_epoch)
    ]

unfoldable pub generation_is_dead : Ledger → Generation → Bool
generation_is_dead s g =
    if not (owner_instance_alive s g)
    then true
    else if g.child_eof
    then true
    else elim g.child_pid [
      | some pid ↦ not (process_alive s.os.proc pid g.child_started_epoch)
      | none ↦ false
    ]

-- `recorded_child_is_alive`.
unfoldable pub recorded_child_is_alive : Ledger → Generation → Bool
recorded_child_is_alive s g = elim g.child_pid [
  | some pid ↦ process_alive s.os.proc pid g.child_started_epoch
  | none ↦ false
]

-- ===== src/Ledger/Listing.antt =====
-- `list_turns`: every turn, converged, filtered by its thread's directory, ordered by id.
use Prim.Native.String.{compare}
use text.Mathlib.Text.{is_le}
use gamchi.Prelude.{String, ◌==◌, Bool, true, Option, none, some, List, [], ◌∷◌, if◌then◌else◌}
use gamchi.Wire.{Turn, is_terminal}
use gamchi.Ledger.Exec.{Exec, pure, reads, ◌>>=◌}
use gamchi.Ledger.Files.{read_thread}
use gamchi.Ledger.Observe.{observe}
use gamchi.Ledger.Admit.{turn_json_paths, read_path}

-- `sort_by` on the ids, a stable sort.
unfoldable pub insert_by_id : Turn → List Turn → List Turn
insert_by_id t [] = t ∷ []
insert_by_id t (u ∷ l) = if is_le (compare t.id u.id) then t ∷ u ∷ l else u ∷ insert_by_id t l

unfoldable pub sort_by_id : List Turn → List Turn
sort_by_id [] = []
sort_by_id (t ∷ l) = insert_by_id t (sort_by_id l)

-- Whether the turn's thread runs in `cwd`; no `cwd` keeps every turn and reads no thread.
unfoldable pub runs_in : Option String → Turn → Exec Bool
runs_in none turn = pure true
runs_in (some cwd) turn = do thread ← reads (read_thread turn.thread_id); pure (thread.cwd == cwd)

unfoldable pub converged : Turn → Exec Turn
converged turn = if is_terminal turn.status then pure turn else observe turn.id

unfoldable pub collect_turns : Option String → List String → Exec (List Turn)
collect_turns cwd [] = pure []
collect_turns cwd (stem ∷ stems) = do
  found ← reads (read_path stem)
  turn ← converged found
  keep ← runs_in cwd turn
  rest ← collect_turns cwd stems
  pure (if keep then turn ∷ rest else rest)

unfoldable pub list_turns : Option String → Exec (List Turn)
list_turns cwd = do
  stems ← turn_json_paths
  turns ← collect_turns cwd stems
  pure (sort_by_id turns)

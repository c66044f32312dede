-- ===== src/Ledger/Error.antt =====
-- `LedgerError`. `missing` is `io::ErrorKind::NotFound`; the other kinds are not told apart.
use gamchi.Prelude.{String}
use gamchi.Wire.{TurnStatus}

pub data IoKind : Type 0 where
  missing other : IoKind

-- `invalid_id` carries the refused id, where the code has the message around it.
pub data LedgerError : Type 0 where
  io : IoKind → LedgerError
  json : LedgerError
  not_found : String → String → LedgerError
  turn_in_progress : String → String → LedgerError
  already_terminal : String → TurnStatus → LedgerError
  invalid_home : String → LedgerError
  invalid_id : String → LedgerError
  invalid_status : String → LedgerError

abbrev pub map_not_found : String → String → LedgerError → LedgerError
map_not_found kind id (io missing) = not_found kind id
map_not_found kind id other_error = other_error

-- ===== src/Ledger/State.antt =====
-- The state of the ledger: the files under its home, what the process holds, and what the
-- operating system answers at this instant.
use gamchi.Prelude.{ℕ, String, Bool, Option, List}
use gamchi.Prelude.Assoc.{Assoc}
use gamchi.Wire.{Thread, Turn, Generation}
use gamchi.Ledger.Process.{ProcFs}
use gamchi.Ledger.Waiters.{Waiters}

-- What stands in a file: a record, text that is no such record, or nothing that can be read.
pub data Body (A : Type 0) : Type 0 where
  good : A → Body A
  garbled unreadable : Body A

-- The n-th file-system call of the process fails if `fails n`. `flocked path` is the answer of a
-- non-blocking `flock`: whether it would block, or `none` for another error.
pub record Os : Type 0 where
  pub pid : ℕ
  pub nanos : ℕ
  pub epoch : ℕ
  pub fails : ℕ → Bool
  pub flocked : String → Option Bool
  pub proc : ProcFs

pub record LiveHold : Type 0 where
  pub path : String
  pub locked : Bool

-- `turns` and the other directories list their files by stem, in directory order. `process_live`
-- is `PROCESS_LIVE`, `seq` is `ID_SEQ`, and `calls` counts the file-system calls.
pub record Ledger : Type 0 where
  pub home : String
  pub threads : Assoc (Body Thread)
  pub turns : Assoc (Body Turn)
  pub generations : Assoc (Body Generation)
  pub by_client : Assoc (Body String)
  pub live_files : Assoc LiveHold
  pub process_live : List String
  pub waiters : Waiters
  pub seq : ℕ
  pub calls : ℕ
  pub os : Os

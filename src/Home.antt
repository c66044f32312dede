-- ===== src/Home.antt =====
-- Where the ledger lives: crates/core/src/home.rs, and `Ledger::open` of crates/core/src/ledger.rs.
pub mod Absolute
use gamchi.Prelude.{
  ℕ, String, Bool, true, false, not, Option, none, some, List, [], ◌∷◌, Result, ok, err, and_then,
  if◌then◌else◌,
}
use gamchi.Prelude.Text.{◌<>◌, is_empty, is_absolute, join_path}
use gamchi.Ledger.Error.{LedgerError, io, other, invalid_home}
use gamchi.Ledger.Waiters.{Waiters, no_waiters}

pub record HomeError : Type 0 where
  pub reason : String

abbrev refuse : String → Result HomeError String
refuse reason = err (record { reason = reason })

unfoldable pub require_absolute : String → String → Result HomeError String
require_absolute path label =
    if is_empty path
    then refuse (label <> " is empty")
    else if is_absolute path
    then ok path
    else refuse (label <> " must be an absolute path")

unfoldable pub user_default : String → Result HomeError String
user_default user_home =
    if is_absolute user_home
    then ok (join_path user_home ".gamchi")
    else refuse "user home must be absolute"

-- An environment variable that is set and not empty.
abbrev pub set_value : Option String → Option String
set_value none = none
set_value (some path) = if is_empty path then none else some path

abbrev pub from_env : Option String → String → Result HomeError String
from_env (some path) user_home = require_absolute path "GAMCHI_HOME"
from_env none user_home = user_default user_home

unfoldable pub resolve_home :
    (explicit env_home : Option String) → (user_home : String) → Result HomeError String
resolve_home (some path) env_home user_home = require_absolute path "--home"
resolve_home none env_home user_home = from_env (set_value env_home) user_home

-- `env_home` and `home` are what the environment has for GAMCHI_HOME and HOME.
unfoldable pub resolve_home_from_os :
    (env_home home explicit : Option String) → Result HomeError String
resolve_home_from_os env_home none explicit = refuse "HOME is unset"
resolve_home_from_os env_home (some user_home) explicit = resolve_home explicit env_home user_home

-- `Ledger::open`: `made` says whether the n-th directory could be made. The handle is the home and
-- the registry of waiters; no live file is held.
unfoldable pub open_ledger : (made : ℕ → Bool) → String → Result LedgerError (String × Waiters)
open_ledger made home =
    if not (is_absolute home)
    then err (invalid_home "ledger home must be an absolute path")
    else if not (made 0)
    then err (io other)
    else if not (made 1)
    then err (io other)
    else if not (made 2)
    then err (io other)
    else ok (home, no_waiters)

-- ===== src/Home/Absolute.antt =====
-- From the resolution of a home (crates/core/src/home.rs) to `Ledger::open`.
use gamchi.Prelude.{ℕ, String, ◌≡◌, refl, Bool, true, Option, none, some, ok, arith}
use gamchi.Prelude.Text.{is_absolute, join_path}
use gamchi.Ledger.Waiters.{no_waiters}
use gamchi.Home.{
  require_absolute, user_default, set_value, from_env, resolve_home, resolve_home_from_os,
  open_ledger,
}

join_path-is_absolute :
    (path name : String) → is_absolute path ≡ true → is_absolute (join_path path name) ≡ true
join_path-is_absolute String.[] name h = cc
join_path-is_absolute (String.◌∷◌ c String.[]) name h = ground arith
join_path-is_absolute (String.◌∷◌ c (String.◌∷◌ d s)) name h = h

require_absolute-is_absolute :
    (path label : String) {home : String}
    → require_absolute path label ≡ ok home
    → is_absolute home ≡ true
unfolding require_absolute
require_absolute-is_absolute path label h = ground arith

user_default-is_absolute :
    (user_home : String) {home : String}
    → user_default user_home ≡ ok home
    → is_absolute home ≡ true
unfolding user_default
user_default-is_absolute user_home h = ground (arith, join_path-is_absolute user_home ".gamchi")

from_env-is_absolute :
    (env : Option String) (user_home : String) {home : String}
    → from_env env user_home ≡ ok home
    → is_absolute home ≡ true
from_env-is_absolute (some path) user_home h = require_absolute-is_absolute path "GAMCHI_HOME" h
from_env-is_absolute none user_home h = user_default-is_absolute user_home h

resolve_home-is_absolute :
    (explicit env_home : Option String) (user_home : String) {home : String}
    → resolve_home explicit env_home user_home ≡ ok home
    → is_absolute home ≡ true
unfolding resolve_home
resolve_home-is_absolute (some path) env_home user_home h =
    require_absolute-is_absolute path "--home" h
resolve_home-is_absolute none env_home user_home h =
    from_env-is_absolute (set_value env_home) user_home h

-- A home that is resolved, whatever the command line and the environment say, is absolute, and the
-- ledger opens there where its directories can be made.
pub resolve_home-open_ledger :
    (env_home user_home explicit : Option String) (made : ℕ → Bool) {home : String}
    → resolve_home_from_os env_home user_home explicit ≡ ok home
    → made 0 ≡ true
    → made 1 ≡ true
    → made 2 ≡ true
    → (is_absolute home ≡ true) × (open_ledger made home ≡ ok (home, no_waiters))
unfolding resolve_home_from_os open_ledger
resolve_home-open_ledger env_home none explicit made h a b c = cc
resolve_home-open_ledger env_home (some user_home) explicit made {home} h a b c =
    let absolute = resolve_home-is_absolute explicit env_home user_home h in
    (absolute, rw (open_ledger, absolute, a, b, c) refl)

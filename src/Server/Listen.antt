-- ===== src/Server/Listen.antt =====
-- The start of the app server: its arguments, the socket, and what it reports where it cannot start,
-- in crates/gamchi/src/app_server.rs.
use gamchi.Prelude.{
  String, ◌==◌, Bool, not, ◌||◌, Option, none, some, List, [], ◌∷◌, Result, ok, err, and_then,
  map_err, if◌then◌else◌,
}
use gamchi.Prelude.Text.{◌<>◌, is_empty, is_absolute, starts_with}
use gamchi.Ops.Host.{Host, open_home}

pub record ListenConfig : Type 0 where
  pub socket_path : String
  pub home : Option String

-- What stands behind a prefix that the text has.
abbrev pub behind : String → String → String
behind String.[] s = s
behind (String.◌∷◌ d p) String.[] = String.[]
behind (String.◌∷◌ d p) (String.◌∷◌ c s) = behind p s

unfoldable pub parse_listen : String → Result String String
parse_listen raw =
    if not (starts_with raw "unix://")
    then err "--listen must be unix://<absolute-path>"
    else if is_empty (behind "unix://" raw) || not (is_absolute (behind "unix://" raw))
    then err "--listen path must be absolute"
    else ok (behind "unix://" raw)

pub data Flag : Type 0 where
  to_listen at_home unknown : Flag

abbrev pub flag : String → Flag
flag arg = if arg == "--listen" then to_listen else if arg == "--home" then at_home else unknown

abbrev pub config : Option String → Option String → Result String ListenConfig
config none home = err "--listen unix://<absolute-path> is required"
config (some socket_path) home = ok (record { socket_path = socket_path; home = home })

abbrev pub no_value : String → Flag → Result String ListenConfig
no_value arg to_listen = err "--listen needs a value"
no_value arg at_home = err "--home needs a value"
no_value arg unknown = err ("unknown argument " <> arg)

-- The loop of `parse_args`, with what it has found so far. The last of several values counts.
unfoldable pub parse_rest :
    (socket_path home : Option String) → List String → Result String ListenConfig
parse_rest socket_path home [] = config socket_path home
parse_rest socket_path home (arg ∷ []) = no_value arg (flag arg)
parse_rest socket_path home (arg ∷ raw ∷ args) = elim (flag arg) [
  | to_listen ↦ and_then (parse_listen raw) (λ path. parse_rest (some path) home args)
  | at_home ↦ parse_rest socket_path (some raw) args
  | unknown ↦ err ("unknown argument " <> arg)
]

unfoldable pub parse_args : List String → Result String ListenConfig
parse_args args = parse_rest none none args

pub data BindError : Type 0 where
  occupied : BindError
  other : String → BindError

-- `present` says whether a path exists, and `bind` is what the operating system answers: an error is
-- by whether its kind is `AddrInUse`, and its text.
unfoldable pub bind_listen :
    (present : String → Bool) (bind : String → Result (Bool × String) (Unit {0}))
    → String
    → Result BindError (Unit {0})
bind_listen present bind path =
    if present path
    then err occupied
    else map_err (λ (e : Bool × String). if e.0 then occupied else other e.1) (bind path)

abbrev pub invalid_config : String → List String
invalid_config reason = "GAMCHI_STARTUP_ERROR INVALID_CONFIG" ∷ reason ∷ []

abbrev pub bind_report : BindError → List String
bind_report occupied = "GAMCHI_STARTUP_ERROR OCCUPIED_PATH" ∷ []
bind_report (other reason) = invalid_config reason

-- `run` up to its `accept_loop`: the home that it serves, or the lines of a start that fails, which
-- returns 1.
unfoldable pub run :
    Host
    → (present : String → Bool) (bind : String → Result (Bool × String) (Unit {0})) → List String
    → Result (List String) String
run host present bind args = and_then (map_err invalid_config (parse_args args)) (λ cfg.
    and_then (map_err invalid_config (open_home host cfg.home)) (λ home.
      and_then (map_err bind_report (bind_listen present bind cfg.socket_path)) (λ bound. ok home)))

-- ===== src/Ops/Host.antt =====
-- What the facades ask of the operating system and the environment, and the opening of a ledger:
-- `open_home`, `open_ledger` and `acp_command` of crates/gamchi/src/ops.rs.
use gamchi.Prelude.{ℕ, String, Bool, Option, none, some, [], Result, ok, err, map_err, and_then}
use gamchi.Prelude.Text.{◌<>◌, quoted}
use gamchi.Wire.{UnsupportedValueError, status_str}
use gamchi.Home.{HomeError, resolve_home_from_os}
use gamchi.Home as Home
use gamchi.Ledger.Error.{
  IoKind, LedgerError, io, json, not_found, turn_in_progress, already_terminal, invalid_home,
  invalid_id, invalid_status,
}
use gamchi.Ledger.State.{Body}
use gamchi.Ledger.Waiters.{Waiters}
use gamchi.Ledger.Call.{Call}
use gamchi.Grok.Defaults.{ResolveError, model_mismatch}
use gamchi.Grok.Launch.{LaunchError, unenforceable}
use gamchi.Grok.Begin.{AgentCommand, grok, given, AdapterError, launch, ledger, acp, excluded_fatal}

-- `env_home`, `user_home` and `acp_program` are environment variables; `made` says whether the n-th
-- directory of a home can be made; `config` is the home's config.yaml; `runtime` is the error of a
-- runtime that cannot be built, and `late` an admission that takes more than 30 seconds. The texts
-- are those of the errors that the operating system and serde give.
pub record Host : Type 0 where
  pub env_home : Option String
  pub user_home : Option String
  pub acp_program : Option String
  pub current_dir : Result String String
  pub made : ℕ → Bool
  pub config : Option (Body String)
  pub config_text : String
  pub runtime : Option String
  pub late : Bool
  pub io_text : IoKind → String
  pub json_text : String

-- `Display for LedgerError`.
unfoldable pub ledger_text : Host → LedgerError → String
ledger_text host (io kind) = host.io_text kind
ledger_text host json = host.json_text
ledger_text host (not_found kind id) = kind <> " " <> id <> " not found"
ledger_text host (turn_in_progress thread_id turn_id) =
    "thread " <> thread_id <> " already has inProgress turn " <> turn_id
ledger_text host (already_terminal turn_id status) =
    "turn " <> turn_id <> " already terminal (" <> status_str status <> ")"
ledger_text host (invalid_home reason) = reason
ledger_text host (invalid_id id) = "invalid id " <> quoted id
ledger_text host (invalid_status reason) = reason

-- `Display for UnsupportedValueError`.
unfoldable pub unsupported_text : UnsupportedValueError → String
unsupported_text e = "unsupported " <> e.kind <> " " <> quoted e.value

-- `Display for ResolveError`.
unfoldable pub resolve_text : ResolveError → String
resolve_text (ResolveError.invalid_config reason) = "INVALID_CONFIG: " <> reason
resolve_text (model_mismatch requested frozen) =
    "INVALID_CONFIG: follow-up model " <> requested <> " is not thread model " <> frozen

-- `Display for LaunchError`.
unfoldable pub launch_text : LaunchError → String
launch_text (unenforceable field reason) = "unenforceable " <> field <> ": " <> reason
launch_text (LaunchError.invalid_config reason) = "INVALID_CONFIG: " <> reason

-- `Display for AdapterError`.
unfoldable pub adapter_text : Host → AdapterError → String
adapter_text host (launch e) = launch_text e
adapter_text host (ledger e) = ledger_text host e
adapter_text host (AdapterError.io text) = text
adapter_text host (acp text) = text
adapter_text host (excluded_fatal text) = text

unfoldable pub acp_command : Host → AgentCommand
acp_command host = elim host.acp_program [ some program ↦ given program [] | none ↦ grok "grok" ]

unfoldable pub open_home : Host → Option String → Result String String
open_home host explicit =
    map_err (λ (e : HomeError). e.reason)
      (resolve_home_from_os host.env_home host.user_home explicit)

-- The home and the registry of waiters of the new handle.
unfoldable pub open_ledger : Host → Option String → Result String (String × Waiters)
open_ledger host explicit =
    and_then (open_home host explicit)
      (λ home. map_err (ledger_text host) (Home.open_ledger host.made home))

-- A handle of its own, on the files that are under that home: what another handle of the process
-- waits for and holds is put aside, and is there again afterwards.
unfoldable pub on_handle {ℓ κ} :
    {E : Type κ} {A : Type ℓ} → Result E (String × Waiters) → Call E A → Call E A
on_handle (err e) m s = (err e, s)
on_handle (ok (home, waiters)) m s =
    let (r, t) = m (record s { home = home; waiters = waiters; live_files = [] }) in
    (r, record t { home = s.home; waiters = s.waiters; live_files = s.live_files })

-- ===== src/Ops/Request.antt =====
-- The requests that the facades make of a turn: crates/gamchi/src/ops.rs.
use gamchi.Prelude.{ℕ, String, Option, none, some, Result, ok, err, if◌then◌else◌}
use gamchi.Prelude.Text.{◌<>◌, is_empty, trim}
use gamchi.Wire.{ApprovalPolicy, ThreadSandbox, Thread}
use gamchi.Grok.Launch.{ExtraSpawnFields}
use gamchi.Grok.Begin.{TurnRequest}
use gamchi.Prelude.Json.{Value, null, get, as_str}
use gamchi.Ops.Host.{Host, acp_command}

-- `MAX_WAIT_MS`.
abbrev pub max_wait_ms : ℕ
max_wait_ms = 50000

abbrev pub text_field : String → Option String → Result String String
text_field key none = err (key <> " must be a string")
text_field key (some s) = if is_empty (trim s) then err ("INVALID_CONFIG: blank " <> key) else ok s

abbrev pub optional_text : String → Option Value → Result String String
optional_text key none = ok ""
optional_text key (some null) = ok ""
optional_text key (some v) = text_field key (as_str v)

unfoldable pub optional_text_field : Value → String → Result String String
optional_text_field args key = optional_text key (get args key)

-- `ExtraSpawnFields::default()`.
abbrev pub no_extra : ExtraSpawnFields
no_extra = record {
  writable_roots = none;
  network_access = none;
  exclude_slash_tmp = none;
  exclude_tmpdir_env_var = none;
}

unfoldable pub start_request :
    Host
    → (cwd prompt : String) → ApprovalPolicy
    → ThreadSandbox
    → (model effort : String) → Option String
    → TurnRequest
start_request host cwd prompt approval sandbox model effort client_request_id = record {
  cwd = cwd;
  prompt = prompt;
  approval = approval;
  sandbox = sandbox;
  extra = no_extra;
  model = model;
  effort = effort;
  command = acp_command host;
  client_request_id = client_request_id;
  follow_up_thread_id = none;
  reuse_thread_id = none;
}

-- A directory that is given takes the place of the thread's.
unfoldable pub followup_request :
    Host → Thread → (prompt model effort : String) → Option String → TurnRequest
followup_request host thread prompt model effort cwd = record {
  cwd = elim cwd [ some dir ↦ dir | none ↦ thread.cwd ];
  prompt = prompt;
  approval = thread.approval_policy;
  sandbox = thread.sandbox;
  extra = no_extra;
  model = model;
  effort = effort;
  command = acp_command host;
  client_request_id = none;
  follow_up_thread_id = some thread.id;
  reuse_thread_id = none;
}

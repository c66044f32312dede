-- ===== src/Wire/Policy.antt =====
-- Approval policies, sandboxes and approval decisions, their wire names and their parsers.
use gamchi.Prelude.{String, ◌==◌, if◌then◌else◌, Result, ok, err}

-- Rejects unknown values rather than ignoring them.
pub record UnsupportedValueError : Type 0 where
  pub kind : String
  pub value : String

abbrev pub unsupported {ℓ} : {A : Type ℓ} → String → String → Result UnsupportedValueError A
unsupported kind value = err (record { kind = kind; value = value })

pub data ApprovalPolicy : Type 0 where
  untrusted on_request never : ApprovalPolicy

abbrev pub policy_str : ApprovalPolicy → String
policy_str untrusted = "untrusted"
policy_str on_request = "on-request"
policy_str never = "never"

unfoldable pub parse_approval_policy : String → Result UnsupportedValueError ApprovalPolicy
parse_approval_policy v =
    if v == "untrusted"
    then ok untrusted
    else if v == "on-request"
    then ok on_request
    else if v == "never"
    then ok never
    else unsupported "approvalPolicy" v

pub data ThreadSandbox : Type 0 where
  read_only workspace_write : ThreadSandbox

abbrev pub sandbox_str : ThreadSandbox → String
sandbox_str read_only = "read-only"
sandbox_str workspace_write = "workspace-write"

unfoldable pub parse_thread_sandbox : String → Result UnsupportedValueError ThreadSandbox
parse_thread_sandbox v =
    if v == "read-only"
    then ok read_only
    else if v == "workspace-write"
    then ok workspace_write
    else unsupported "sandbox" v

-- MCP spawn defaults, and those of the app server for omitted fields.
abbrev pub default_approval_policy : ApprovalPolicy
default_approval_policy = never

abbrev pub default_thread_sandbox : ThreadSandbox
default_thread_sandbox = workspace_write

abbrev pub app_server_default_approval_policy : ApprovalPolicy
app_server_default_approval_policy = untrusted

abbrev pub app_server_default_thread_sandbox : ThreadSandbox
app_server_default_thread_sandbox = read_only

pub data TurnSandboxType : Type 0 where
  read_only workspace_write : TurnSandboxType

abbrev pub turn_sandbox_str : TurnSandboxType → String
turn_sandbox_str TurnSandboxType.read_only = "readOnly"
turn_sandbox_str TurnSandboxType.workspace_write = "workspaceWrite"

abbrev pub to_thread_sandbox : TurnSandboxType → ThreadSandbox
to_thread_sandbox TurnSandboxType.read_only = ThreadSandbox.read_only
to_thread_sandbox TurnSandboxType.workspace_write = ThreadSandbox.workspace_write

unfoldable pub parse_turn_sandbox_type : String → Result UnsupportedValueError TurnSandboxType
parse_turn_sandbox_type v =
    if v == "readOnly"
    then ok TurnSandboxType.read_only
    else if v == "workspaceWrite"
    then ok TurnSandboxType.workspace_write
    else unsupported "sandboxPolicy.type" v

pub data ApprovalDecision : Type 0 where
  accept accept_for_session decline cancel : ApprovalDecision

abbrev pub decision_str : ApprovalDecision → String
decision_str accept = "accept"
decision_str accept_for_session = "acceptForSession"
decision_str decline = "decline"
decision_str cancel = "cancel"

unfoldable pub parse_approval_decision : String → Result UnsupportedValueError ApprovalDecision
parse_approval_decision v =
    if v == "accept"
    then ok accept
    else if v == "acceptForSession"
    then ok accept_for_session
    else if v == "decline"
    then ok decline
    else if v == "cancel"
    then ok cancel
    else unsupported "approvalDecision" v

-- ===== src/Wire/RoundTrip.antt =====
-- The parsers and the printers of crates/core/src/source_wire.rs, against each other.
use gamchi.Prelude.{String, ◌≡◌, refl, ◌↔◌, eq_iff, arith, Result, ok, subst, sym}
use gamchi.Wire.Policy.{
  UnsupportedValueError, ApprovalPolicy, untrusted, on_request, never, policy_str,
  parse_approval_policy, ThreadSandbox, sandbox_str, parse_thread_sandbox, TurnSandboxType,
  turn_sandbox_str, parse_turn_sandbox_type, ApprovalDecision, accept, accept_for_session, decline,
  cancel, decision_str, parse_approval_decision,
}
use gamchi.Wire.Status.{
  TurnStatus, in_progress, completed, interrupted, failed, status_str, parse_turn_status,
}

-- `parse` reads what `print` writes, and nothing else.
abbrev pub Reads : {A : Type 0} → (String → Result UnsupportedValueError A) → (A → String) → Type 0
Reads {A} parse print = (v : String) (a : A) → (parse v ≡ ok a) ↔ (v ≡ print a)

Reads-of_halves :
    {A : Type 0} (parse : String → Result UnsupportedValueError A) (print : A → String)
    → ((v : String) (a : A) → parse v ≡ ok a → v ≡ print a)
    → ((a : A) → parse (print a) ≡ ok a)
    → Reads parse print
Reads-of_halves parse print sound complete v a =
    (sound v a, λ e. subst (λ w. parse w ≡ ok a) (sym e) (complete a))

parse_approval_policy_sound :
    (v : String) (a : ApprovalPolicy) → parse_approval_policy v ≡ ok a → v ≡ policy_str a
unfolding parse_approval_policy
parse_approval_policy_sound v untrusted h =
    ground (arith, eq_iff v "untrusted", eq_iff v "on-request", eq_iff v "never")
parse_approval_policy_sound v on_request h =
    ground (arith, eq_iff v "untrusted", eq_iff v "on-request", eq_iff v "never")
parse_approval_policy_sound v never h =
    ground (arith, eq_iff v "untrusted", eq_iff v "on-request", eq_iff v "never")

parse_approval_policy_complete : (a : ApprovalPolicy) → parse_approval_policy (policy_str a) ≡ ok a
unfolding parse_approval_policy
parse_approval_policy_complete untrusted = refl
parse_approval_policy_complete on_request = refl
parse_approval_policy_complete never = refl

parse_thread_sandbox_sound :
    (v : String) (a : ThreadSandbox) → parse_thread_sandbox v ≡ ok a → v ≡ sandbox_str a
unfolding parse_thread_sandbox
parse_thread_sandbox_sound v ThreadSandbox.read_only h =
    ground (arith, eq_iff v "read-only", eq_iff v "workspace-write")
parse_thread_sandbox_sound v ThreadSandbox.workspace_write h =
    ground (arith, eq_iff v "read-only", eq_iff v "workspace-write")

parse_thread_sandbox_complete : (a : ThreadSandbox) → parse_thread_sandbox (sandbox_str a) ≡ ok a
unfolding parse_thread_sandbox
parse_thread_sandbox_complete ThreadSandbox.read_only = refl
parse_thread_sandbox_complete ThreadSandbox.workspace_write = refl

parse_turn_sandbox_type_sound :
    (v : String) (a : TurnSandboxType) → parse_turn_sandbox_type v ≡ ok a → v ≡ turn_sandbox_str a
unfolding parse_turn_sandbox_type
parse_turn_sandbox_type_sound v TurnSandboxType.read_only h =
    ground (arith, eq_iff v "readOnly", eq_iff v "workspaceWrite")
parse_turn_sandbox_type_sound v TurnSandboxType.workspace_write h =
    ground (arith, eq_iff v "readOnly", eq_iff v "workspaceWrite")

parse_turn_sandbox_type_complete :
    (a : TurnSandboxType) → parse_turn_sandbox_type (turn_sandbox_str a) ≡ ok a
unfolding parse_turn_sandbox_type
parse_turn_sandbox_type_complete TurnSandboxType.read_only = refl
parse_turn_sandbox_type_complete TurnSandboxType.workspace_write = refl

parse_approval_decision_sound :
    (v : String) (a : ApprovalDecision) → parse_approval_decision v ≡ ok a → v ≡ decision_str a
unfolding parse_approval_decision
parse_approval_decision_sound v accept h =
    ground
      (arith, eq_iff v "accept", eq_iff v "acceptForSession", eq_iff v "decline", eq_iff v "cancel")
parse_approval_decision_sound v accept_for_session h =
    ground
      (arith, eq_iff v "accept", eq_iff v "acceptForSession", eq_iff v "decline", eq_iff v "cancel")
parse_approval_decision_sound v decline h =
    ground
      (arith, eq_iff v "accept", eq_iff v "acceptForSession", eq_iff v "decline", eq_iff v "cancel")
parse_approval_decision_sound v cancel h =
    ground
      (arith, eq_iff v "accept", eq_iff v "acceptForSession", eq_iff v "decline", eq_iff v "cancel")

parse_approval_decision_complete :
    (a : ApprovalDecision) → parse_approval_decision (decision_str a) ≡ ok a
unfolding parse_approval_decision
parse_approval_decision_complete accept = refl
parse_approval_decision_complete accept_for_session = refl
parse_approval_decision_complete decline = refl
parse_approval_decision_complete cancel = refl

parse_turn_status_sound :
    (v : String) (a : TurnStatus) → parse_turn_status v ≡ ok a → v ≡ status_str a
unfolding parse_turn_status
parse_turn_status_sound v in_progress h =
    ground (
      arith,
      eq_iff v "inProgress",
      eq_iff v "completed",
      eq_iff v "interrupted",
      eq_iff v "failed",
    )
parse_turn_status_sound v completed h =
    ground (
      arith,
      eq_iff v "inProgress",
      eq_iff v "completed",
      eq_iff v "interrupted",
      eq_iff v "failed",
    )
parse_turn_status_sound v interrupted h =
    ground (
      arith,
      eq_iff v "inProgress",
      eq_iff v "completed",
      eq_iff v "interrupted",
      eq_iff v "failed",
    )
parse_turn_status_sound v failed h =
    ground (
      arith,
      eq_iff v "inProgress",
      eq_iff v "completed",
      eq_iff v "interrupted",
      eq_iff v "failed",
    )

parse_turn_status_complete : (a : TurnStatus) → parse_turn_status (status_str a) ≡ ok a
unfolding parse_turn_status
parse_turn_status_complete in_progress = refl
parse_turn_status_complete completed = refl
parse_turn_status_complete interrupted = refl
parse_turn_status_complete failed = refl

-- Each of the five parsers accepts a text as a value exactly when the text is the wire name of
-- that value: it reads back what is written, and refuses every other text.
pub parsers_read_exactly :
    Reads parse_approval_policy policy_str
    × Reads parse_thread_sandbox sandbox_str
    × Reads parse_turn_sandbox_type turn_sandbox_str
    × Reads parse_approval_decision decision_str
    × Reads parse_turn_status status_str
parsers_read_exactly = (
  Reads-of_halves parse_approval_policy policy_str parse_approval_policy_sound
      parse_approval_policy_complete,
  Reads-of_halves parse_thread_sandbox sandbox_str parse_thread_sandbox_sound
      parse_thread_sandbox_complete,
  Reads-of_halves parse_turn_sandbox_type turn_sandbox_str parse_turn_sandbox_type_sound
      parse_turn_sandbox_type_complete,
  Reads-of_halves parse_approval_decision decision_str parse_approval_decision_sound
      parse_approval_decision_complete,
  Reads-of_halves parse_turn_status status_str parse_turn_status_sound parse_turn_status_complete,
)

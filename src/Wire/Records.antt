-- ===== src/Wire/Records.antt =====
-- The durable records. A `u32` or `u64` field is a native number.
use gamchi.Prelude.{ℕ, String, Bool, not, ◌&&◌, Option, List}
use gamchi.Prelude.Text.{is_empty}
use gamchi.Wire.Policy.{ApprovalPolicy, ThreadSandbox}
use gamchi.Wire.Status.{TurnStatus, is_terminal}

pub record UserInput : Type 0 where
  pub kind : String
  pub text : String

pub record Item : Type 0 where
  pub id : String
  pub item_type : String
  pub text : String
  pub status : String

-- `in_progress_turn_id` is empty when the thread has no turn in progress.
pub record Thread : Type 0 where
  pub id : String
  pub cwd : String
  pub model : String
  pub sandbox : ThreadSandbox
  pub approval_policy : ApprovalPolicy
  pub developer_instructions : String
  pub acp_session_id : String
  pub in_progress_turn_id : String

pub record Turn : Type 0 where
  pub id : String
  pub thread_id : String
  pub generation_id : String
  pub status : TurnStatus
  pub input : List UserInput
  pub model : String
  pub effort : String
  pub stop_reason : String
  pub failure_reason : String
  pub client_request_id : String
  pub pending_request_id : String
  pub pending_decision : String
  pub items : List Item

-- An in-flight permission request that is not a `TurnStatus`.
abbrev pub pending_approval : Turn → Bool
pending_approval t =
    not (is_terminal t.status) && not (is_empty t.pending_request_id) && is_empty t.pending_decision

-- The owner process of an in-flight turn.
pub record Generation : Type 0 where
  pub id : String
  pub turn_id : String
  pub owner_pid : ℕ
  pub started_epoch : ℕ
  pub child_pid : Option ℕ
  pub child_started_epoch : Option ℕ
  pub child_eof : Bool

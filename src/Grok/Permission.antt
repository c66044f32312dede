-- ===== src/Grok/Permission.antt =====
-- What the adapter answers to an agent's permission request: `decision_option`,
-- `auto_allow_permission` and `finish_gated_permission` of crates/adapter-grok/src/turn.rs.
pub mod Polarity
use gamchi.Prelude.{
  String, Bool, true, false, ◌||◌, Option, none, some, List, [], ◌∷◌, find, Result, ok, err,
}
use gamchi.Wire.{ApprovalDecision, accept, accept_for_session, decline, cancel}
use gamchi.Ledger.Exec.{Exec, pure, attempt, ignore, ◌>>=◌, ◌>>◌}
use gamchi.Ledger.Error.{LedgerError}
use gamchi.Ledger.Wait.{Round, wait_pending_decision}
use gamchi.Ledger.Approval.{clear_pending}

-- The variants of ACP's `PermissionOptionKind` that the code names, and `unnamed` for the others.
pub data PermissionOptionKind : Type 0 where
  allow_once allow_always reject_once reject_always unnamed : PermissionOptionKind

pub record PermissionOption : Type 0 where
  pub option_id : String
  pub kind : PermissionOptionKind

pub data PermissionOutcome : Type 0 where
  cancelled : PermissionOutcome
  selected : String → PermissionOutcome

-- `==` on the kinds that the code looks for.
abbrev pub same_kind : PermissionOptionKind → PermissionOptionKind → Bool
same_kind allow_once allow_once = true
same_kind allow_always allow_always = true
same_kind reject_once reject_once = true
same_kind reject_always reject_always = true
same_kind _ _ = false

abbrev pub preferred : ApprovalDecision → List PermissionOptionKind
preferred accept = allow_once ∷ allow_always ∷ []
preferred accept_for_session = allow_always ∷ allow_once ∷ []
preferred decline = reject_once ∷ reject_always ∷ []
preferred cancel = []

-- `find_map` over the preferred kinds: the first option of the first kind that there is.
unfoldable pub first_of : List PermissionOptionKind → List PermissionOption → Option String
first_of [] options = none
first_of (want ∷ wants) options =
    let rest = first_of wants options in
    elim (find (λ o. same_kind o.kind want) options) [ some o ↦ some o.option_id | none ↦ rest ]

unfoldable pub decision_option : List PermissionOption → ApprovalDecision → Option String
unfolding first_of
decision_option options decision = first_of (preferred decision) options

abbrev pub outcome : Option String → PermissionOutcome
outcome (some id) = selected id
outcome none = cancelled

-- The answer to what `wait_pending_decision` returned.
abbrev pub answer_decision :
    List PermissionOption → Result LedgerError (Option ApprovalDecision) → PermissionOutcome
answer_decision options (ok (some decision)) = outcome (decision_option options decision)
answer_decision options _ = cancelled

-- The request is cleared once the wait has returned; `none` is a wait that has not.
abbrev pub clear_and_answer :
    List PermissionOption
    → String
    → String
    → Result LedgerError (Option (Option ApprovalDecision))
    → Exec (Option PermissionOutcome)
clear_and_answer options turn_id request_id (ok none) = pure none
clear_and_answer options turn_id request_id (ok (some decided)) = do
  ignore (clear_pending turn_id request_id)
  pure (some (answer_decision options (ok decided)))
clear_and_answer options turn_id request_id (err e) = do
  ignore (clear_pending turn_id request_id)
  pure (some (answer_decision options (err e)))

unfoldable pub finish_gated_permission :
    List PermissionOption → String → String → List Round → Exec (Option PermissionOutcome)
finish_gated_permission options turn_id request_id rounds = do
  waited ← attempt (wait_pending_decision turn_id request_id rounds)
  clear_and_answer options turn_id request_id waited

abbrev pub is_allow : PermissionOptionKind → Bool
is_allow allow_once = true
is_allow allow_always = true
is_allow _ = false

-- The outcome, and the reason for which the turn fails, if it does.
unfoldable pub auto_allow_permission : List PermissionOption → PermissionOutcome × Option String
auto_allow_permission options = elim (find (λ o. is_allow o.kind) options) [
  | some o ↦ (selected o.option_id, none)
  | none ↦ (cancelled, some "session/request_permission without allow option")
]

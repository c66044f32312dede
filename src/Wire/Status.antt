-- ===== src/Wire/Status.antt =====
-- The turn statuses, the fold of an ACP stop reason into one, and the emitted item types.
use gamchi.Prelude.{String, ◌==◌, Bool, true, false, List, [], ◌∷◌, any, if◌then◌else◌, Result, ok}
use gamchi.Wire.Policy.{UnsupportedValueError, unsupported}

pub data TurnStatus : Type 0 where
  in_progress completed interrupted failed : TurnStatus

abbrev pub status_str : TurnStatus → String
status_str in_progress = "inProgress"
status_str completed = "completed"
status_str interrupted = "interrupted"
status_str failed = "failed"

abbrev pub is_terminal : TurnStatus → Bool
is_terminal in_progress = false
is_terminal _ = true

unfoldable pub parse_turn_status : String → Result UnsupportedValueError TurnStatus
parse_turn_status v =
    if v == "inProgress"
    then ok in_progress
    else if v == "completed"
    then ok completed
    else if v == "interrupted"
    then ok interrupted
    else if v == "failed"
    then ok failed
    else unsupported "turnStatus" v

unfoldable pub map_stop_reason : String → TurnStatus
map_stop_reason stop_reason =
    if stop_reason == "end_turn"
    then completed
    else if stop_reason == "cancelled"
    then interrupted
    else failed

abbrev pub failure_worker_gone : String
failure_worker_gone = "worker_gone"

abbrev pub item_user_message : String
item_user_message = "userMessage"

abbrev pub item_agent_message : String
item_agent_message = "agentMessage"

abbrev pub item_plan : String
item_plan = "plan"

abbrev pub item_command_execution : String
item_command_execution = "commandExecution"

abbrev pub item_file_change : String
item_file_change = "fileChange"

abbrev pub item_web_search : String
item_web_search = "webSearch"

abbrev pub public_item_types : List String
public_item_types =
    item_user_message ∷ item_agent_message ∷ item_plan ∷ item_command_execution ∷ item_file_change
    ∷ item_web_search ∷ []

abbrev pub excluded_fatal_item_types : List String
excluded_fatal_item_types = "collabAgentToolCall" ∷ "subAgentActivity" ∷ []

-- `list.contains(&t)`.
abbrev pub contains : List String → String → Bool
contains l t = any (λ x. x == t) l

-- Whether `t` is public, and whether it is excluded-fatal.
unfoldable pub known_item_type : String → Bool × Bool
known_item_type t =
    if contains public_item_types t
    then (true, false)
    else if contains excluded_fatal_item_types t
    then (false, true)
    else (false, false)

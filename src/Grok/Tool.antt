-- ===== src/Grok/Tool.antt =====
-- What the adapter reads of ACP's updates, and what it makes of a tool call's id, kind and status:
-- crates/adapter-grok/src/map.rs.
pub mod Ids
use Prim.Native.Char.{Char, code}
use Prim.Native.String.{len, char_at}
use gamchi.Prelude.{
  ℕ, Bool, true, false, ◌||◌, String, ◌==◌, List, [], ◌∷◌, ◌++◌, Option, none, some, Result, ok,
  err, length, get_elem?, set, find, position, ltb, nat_eq, if◌then◌else◌,
}
use gamchi.Prelude.Assoc.{Assoc, lookup, insert}
use gamchi.Prelude.Text.{◌<>◌, is_empty, is_alphanumeric, to_lower, has_text, truncate, join}
use gamchi.Wire.{
  Item, item_user_message, item_agent_message, item_plan, item_command_execution, item_file_change,
  item_web_search, known_item_type,
}

-- The variants of ACP's `ToolKind` that the code names, and `unnamed` for the others.
pub data ToolKind : Type 0 where
  edit execute other fetch search delete move unnamed : ToolKind

-- The same of `ToolCallStatus`.
pub data ToolCallStatus : Type 0 where
  pending in_progress completed failed unnamed : ToolCallStatus

-- What the code asks of the JSON `raw_input`: whether it has a key `command`, and its text.
pub record RawInput : Type 0 where
  pub has_command : Bool
  pub printed : String

pub record ToolCall : Type 0 where
  pub tool_call_id : String
  pub title : String
  pub kind : ToolKind
  pub status : ToolCallStatus
  pub raw_input : Option RawInput

pub record ToolCallUpdate : Type 0 where
  pub tool_call_id : String
  pub kind : Option ToolKind
  pub status : Option ToolCallStatus
  pub title : Option String

-- `plan` has the contents of the plan's entries; `skipped` is every update that the code passes by.
pub data SessionUpdate : Type 0 where
  agent_thought_chunk skipped : SessionUpdate
  agent_message_chunk : String → SessionUpdate
  plan : List String → SessionUpdate
  tool_call : ToolCall → SessionUpdate
  tool_call_update : ToolCallUpdate → SessionUpdate

abbrev pub item_status_in_progress : String
item_status_in_progress = "inProgress"

abbrev pub item_status_completed : String
item_status_completed = "completed"

abbrev pub item_status_failed : String
item_status_failed = "failed"

abbrev pub item_status : Option ToolCallStatus → String
item_status (some completed) = item_status_completed
item_status (some failed) = item_status_failed
item_status _ = item_status_in_progress

abbrev pub id_char : Char → Char
id_char c =
    if is_alphanumeric (code c) || nat_eq (code c) b'-' || nat_eq (code c) b'_'
    then c
    else char_at "_" 0

abbrev pub map_chars : (Char → Char) → String → String
map_chars f String.[] = String.[]
map_chars f (String.◌∷◌ c s) = String.◌∷◌ (f c) (map_chars f s)

abbrev pub or_id : String → String
or_id s = if is_empty s then "id" else s

abbrev pub cut : String → String
cut s = if ltb 128 (len s) then truncate 128 s else s

unfoldable pub sanitize_id : String → String
sanitize_id raw = cut (or_id (map_chars id_char raw))

abbrev pub is_shell : String → Option RawInput → Bool
is_shell title raw_input =
    has_text (to_lower title) "shell"
    || has_text (to_lower title) "bash"
    || has_text (to_lower title) "zsh"
    || elim raw_input [ none ↦ false | some v ↦ v.has_command ]

abbrev pub is_web : String → Option RawInput → Bool
is_web title raw_input =
    let blob = title <> elim raw_input [ none ↦ "" | some v ↦ v.printed ] in
    has_text blob "http://" || has_text blob "https://" || has_text blob "www."

unfoldable pub map_kind : ToolKind → String → Option RawInput → Option String
map_kind edit title raw = some item_file_change
map_kind execute title raw = some item_command_execution
map_kind other title raw = if is_shell title raw then some item_command_execution else none
map_kind fetch title raw = if is_web title raw then some item_web_search else none
map_kind search title raw = if is_web title raw then some item_web_search else none
map_kind _ title raw = none

-- ===== src/Grok/Map.antt =====
-- The fold of ACP `session/update` messages into one turn's items: crates/adapter-grok/src/map.rs.
pub mod Sound
pub mod Runs
use Prim.Native.Char.{Char, code}
use Prim.Native.String.{len, char_at}
use gamchi.Prelude.{
  ℕ, Bool, true, false, ◌||◌, String, ◌==◌, List, [], ◌∷◌, ◌++◌, Option, none, some, Result, ok,
  err, length, get_elem?, set, find, position, ltb, nat_eq, if◌then◌else◌,
}
use gamchi.Prelude.Assoc.{Assoc, lookup, insert}
use gamchi.Prelude.Text.{◌<>◌, is_empty, is_alphanumeric, to_lower, has_text, truncate, join}
use gamchi.Wire.{
  Item, item_user_message, item_agent_message, item_plan, item_command_execution, item_file_change,
  item_web_search, known_item_type,
}
use gamchi.Grok.Tool.{
  ToolKind, edit, execute, other, fetch, search, delete, move, ToolCallStatus, pending, in_progress,
  completed, failed, unnamed, RawInput, ToolCall, ToolCallUpdate, SessionUpdate,
  agent_thought_chunk, skipped, agent_message_chunk, plan, tool_call, tool_call_update,
  item_status_in_progress, item_status_completed, item_status_failed, item_status, id_char,
  map_chars, or_id, cut, sanitize_id, is_shell, is_web, map_kind,
}

pub record ExcludedFatal : Type 0 where
  pub item_type : String

-- `tools` gives the index of a tool call's item.
pub record Mapper : Type 0 where
  pub items : List Item
  pub tools : Assoc ℕ

abbrev pub agent_item_id : String
agent_item_id = "agent-message"

abbrev pub plan_item_id : String
plan_item_id = "plan"

-- `Mapper::new`.
unfoldable pub new : String → Mapper
new user_text = record {
  items =
      record {
        id = "user-message";
        item_type = item_user_message;
        text = user_text;
        status = item_status_completed;
      }
      ∷ [];
  tools = [];
}

unfoldable pub reject_fatal : String → Result ExcludedFatal (Unit {0})
unfolding known_item_type
reject_fatal item_type =
    if (known_item_type item_type).1 then err (record { item_type = item_type }) else ok tt

-- What a method of the mapper does: `none` where an index is out of bounds or an `unwrap` meets
-- `None`, which panics; else a result, with the mapper it leaves.
abbrev pub Mapping : Type 0
Mapping = Option (Result ExcludedFatal (List Item) × Mapper)

abbrev pub with_items : List Item → Mapper → Mapper
with_items items m = record m { items = items }

-- `self.items[idx]` changed by `f`.
abbrev pub update_at : ℕ → (Item → Item) → List Item → Option (List Item)
update_at idx f items = elim (get_elem? items idx) [
  | none ↦ none
  | some item ↦ some (set items idx (f item))
]

-- `items.iter().position(|i| i.id == id)`, then a change there, or a push.
unfoldable pub upsert : String → (Item → Item) → Item → List Item → Option (List Item)
upsert id f fresh items = elim (position (λ i. i.id == id) items) [
  | some idx ↦ update_at idx f items
  | none ↦ some (items ++ fresh ∷ [])
]

unfoldable pub upsert_agent : String → List Item → Option (List Item)
unfolding upsert
upsert_agent chunk =
    upsert agent_item_id (λ i. record i { text = i.text <> chunk })
      (record {
        id = agent_item_id;
        item_type = item_agent_message;
        text = chunk;
        status = item_status_in_progress;
      })

unfoldable pub upsert_plan : List String → List Item → Option (List Item)
unfolding upsert
upsert_plan entries =
    let text = join "\n" entries in
    upsert plan_item_id (λ i. record i { text = text })
      (record {
        id = plan_item_id;
        item_type = item_plan;
        text = text;
        status = item_status_in_progress;
      })

-- `item_by_id(id).cloned().unwrap()`, on the items that an upsert leaves.
abbrev pub report : String → Mapper → Option (List Item) → Mapping
report id m none = none
report id m (some items) = elim (find (λ i. i.id == id) items) [
  | none ↦ none
  | some item ↦ some (ok (item ∷ []), with_items items m)
]

-- The item at an index, in an answer.
abbrev pub answer : ℕ → Mapper → Mapping
answer idx m = elim (get_elem? m.items idx) [ none ↦ none | some item ↦ some (ok (item ∷ []), m) ]

abbrev pub store_at : Mapper → ℕ → Item → Mapping
store_at m idx item = elim (update_at idx (λ _. item) m.items) [
  | none ↦ none
  | some items ↦ answer idx (with_items items m)
]

unfoldable pub store_tool : String → Item → Mapper → Mapping
store_tool id item m = elim (lookup id m.tools) [
  | some idx ↦ store_at m idx item
  | none ↦
      answer (length m.items)
        (record { items = m.items ++ item ∷ []; tools = insert id (length m.items) m.tools })
]

-- `reject_fatal(&item_type)?`, then `rest`.
abbrev pub unless_fatal : String → Mapper → Mapping → Mapping
unless_fatal item_type m rest = elim (reject_fatal item_type) [
  | err e ↦ some (err e, m)
  | ok _ ↦ rest
]

unfoldable pub apply_tool_call : ToolCall → Mapper → Mapping
apply_tool_call c m = elim (map_kind c.kind c.title c.raw_input) [
  | none ↦ some (ok [], m)
  | some item_type ↦ unless_fatal item_type m (
      store_tool (sanitize_id c.tool_call_id)
        (record {
          id = sanitize_id c.tool_call_id;
          item_type = item_type;
          text = c.title;
          status = item_status (some c.status);
        })
        m)
]

-- The status and the title that an update gives.
abbrev pub amend : ToolCallUpdate → Item → Item
amend u i = record i {
  text = elim u.title [ none ↦ i.text | some title ↦ title ];
  status = elim u.status [ none ↦ i.status | some status ↦ item_status (some status) ];
}

-- The item type that an update gives, from the text at the index.
abbrev pub retype : ToolCallUpdate → Item → Option String
retype u i = elim u.kind [ none ↦ none | some kind ↦ map_kind kind i.text none ]

abbrev pub change_type : Mapper → ℕ → Item → Option String → Mapping
change_type m idx i none = answer idx m
change_type m idx i (some item_type) =
    unless_fatal item_type m
      (answer idx (with_items (set m.items idx (record i { item_type = item_type })) m))

unfoldable pub update_tool : ToolCallUpdate → ℕ → Mapper → Mapping
update_tool u idx m = elim (get_elem? m.items idx) [
  | none ↦ none
  | some i ↦
      change_type (with_items (set m.items idx (amend u i)) m) idx (amend u i)
        (retype u (amend u i))
]

abbrev pub kind_or_other : Option ToolKind → ToolKind
kind_or_other none = other
kind_or_other (some kind) = kind

abbrev pub or_empty : Option String → String
or_empty none = ""
or_empty (some s) = s

-- An update of a tool call that is not known yet.
unfoldable pub first_update : ToolCallUpdate → Mapper → Mapping
first_update u m = elim (map_kind (kind_or_other u.kind) (or_empty u.title) none) [
  | none ↦ some (ok [], m)
  | some item_type ↦ unless_fatal item_type m (
      store_tool (sanitize_id u.tool_call_id)
        (record {
          id = sanitize_id u.tool_call_id;
          item_type = item_type;
          text = or_empty u.title;
          status = item_status u.status;
        })
        m)
]

unfoldable pub apply_tool_update : ToolCallUpdate → Mapper → Mapping
apply_tool_update u m = elim (lookup (sanitize_id u.tool_call_id) m.tools) [
  | some idx ↦ update_tool u idx m
  | none ↦ first_update u m
]

unfoldable pub apply : SessionUpdate → Mapper → Mapping
unfolding upsert_agent upsert_plan apply_tool_call apply_tool_update
apply agent_thought_chunk m = some (ok [], m)
apply skipped m = some (ok [], m)
apply (agent_message_chunk text) m = report agent_item_id m (upsert_agent text m.items)
apply (plan entries) m = report plan_item_id m (upsert_plan entries m.items)
apply (tool_call c) m = apply_tool_call c m
apply (tool_call_update u) m = apply_tool_update u m

-- Outer `none`: a panic. Inner `none`: there is no agent message.
unfoldable pub finish_agent_message : Mapper → Option (Option Item × Mapper)
finish_agent_message m = elim (position (λ i. i.id == agent_item_id) m.items) [
  | none ↦ some (none, m)
  | some idx ↦ elim (update_at idx (λ i. record i { status = item_status_completed }) m.items) [
    | none ↦ none
    | some items ↦ some (get_elem? items idx, with_items items m)
  ]
]

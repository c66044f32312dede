-- ===== src/Ops/Report.antt =====
-- The JSON of a turn, and its bound: `turn_json` and `bounded_turn_json` of
-- crates/gamchi/src/ops.rs.
use gamchi.Prelude.{
  ℕ, ◌*◌, String, true, false, Option, none, some, [], ◌∷◌, map, leb, if◌then◌else◌,
}
use gamchi.Prelude.Text.{◌<>◌, join_path}
use gamchi.Wire.{Item, Turn, status_str, pending_approval}
use gamchi.Prelude.Json.{Value, string, boolean, obj, arr, with_field}

-- `RESULT_CAP`.
abbrev pub result_cap : ℕ
result_cap = 64 * 1024

-- What serde derives for an `Item`.
abbrev pub item_json : Item → Value
item_json item = obj (
    ("id", string item.id)
    ∷ ("item_type", string item.item_type)
    ∷ ("text", string item.text)
    ∷ ("status", string item.status)
    ∷ [])

unfoldable pub turn_json : Turn → Value
turn_json turn =
    let v = obj (
      ("turn_id", string turn.id)
      ∷ ("thread_id", string turn.thread_id)
      ∷ ("status", string (status_str turn.status))
      ∷ ("stop_reason", string turn.stop_reason)
      ∷ ("failure_reason", string turn.failure_reason)
      ∷ ("items", arr (map item_json turn.items))
      ∷ []) in
    if pending_approval turn
    then with_field "request_id" (string turn.pending_request_id)
        (with_field "await_reason" (string "pending_approval") v)
    else v

-- The value without its items, and the path of the file that has all of it.
abbrev pub truncated_json : Option String → Value → Value
truncated_json none v = with_field "items" (arr []) (with_field "truncated" (boolean true) v)
truncated_json (some path) v =
    with_field "items" (arr [])
      (with_field "path" (string path) (with_field "truncated" (boolean true) v))

-- `home/results/<id>.json`.
abbrev pub result_path : Turn → String → String
result_path turn home = join_path (join_path home "results") (turn.id <> ".json")

abbrev pub path_in : Turn → Option String → Option String
path_in turn none = none
path_in turn (some home) = some (result_path turn home)

-- `size` is the length of what serde writes. The second part is what the code tries to write to
-- the file, where it names one; whether that succeeds changes nothing.
unfoldable pub bounded_turn_json :
    (size : Value → ℕ) → Turn → Option String → Value × Option (String × Value)
bounded_turn_json size turn home =
    let v = turn_json turn in
    if leb (size v) result_cap then (with_field "truncated" (boolean false) v, none) else (
      truncated_json (path_in turn home) v,
      elim (path_in turn home) [ none ↦ none | some path ↦ some (path, v) ],
    )

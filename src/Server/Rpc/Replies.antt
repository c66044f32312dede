-- ===== src/Server/Rpc/Replies.antt =====
-- The values that the app server sends: crates/gamchi/src/app_server.rs.
use gamchi.Prelude.{String, true, Option, none, some, List, [], ◌∷◌, map, Result, ok, err}
use gamchi.Wire.{Item, Turn, status_str}
use gamchi.Prelude.Json.{Value, null, boolean, number, string, obj, arr, get}

-- `USER_AGENT`.
abbrev pub user_agent : String
user_agent = "gamchi/app-server-v1"

abbrev pub invalid_request : String
invalid_request = "-32600"

-- The code's name; JSON-RPC has this number for invalid params.
abbrev pub method_not_found : String
method_not_found = "-32602"

abbrev pub reply_result : Value → Value → Value
reply_result id result = obj (("id", id) ∷ ("result", result) ∷ [])

abbrev pub rpc_error : Value → (code message : String) → Value
rpc_error id code message =
    obj
      (("id", id) ∷ ("error", obj (("code", number code) ∷ ("message", string message) ∷ [])) ∷ [])

abbrev pub rpc_result : Value → Result String Value → Value
rpc_result id (ok result) = reply_result id result
rpc_result id (err message) = rpc_error id method_not_found message

abbrev pub item_obj : Item → Value
item_obj item = obj (
    ("id", string item.id)
    ∷ ("type", string item.item_type)
    ∷ ("text", string item.text)
    ∷ ("status", string item.status)
    ∷ [])

abbrev pub items_wire : Turn → List Value
items_wire turn = map item_obj turn.items

abbrev pub turn_obj : Turn → Value
turn_obj turn = obj (
    ("id", string turn.id)
    ∷ ("items", arr (items_wire turn))
    ∷ ("status", string (status_str turn.status))
    ∷ [])

abbrev pub turn_result : Turn → Value
turn_result turn = obj (("turn", turn_obj turn) ∷ [])

abbrev pub thread_result : String → List Value → Value
thread_result id turns = obj (("thread", obj (("id", string id) ∷ ("turns", arr turns) ∷ [])) ∷ [])

abbrev pub initialize_result : Value
initialize_result = obj (("userAgent", string user_agent) ∷ [])

abbrev pub grok_runtime_read : String → Value
grok_runtime_read home =
    obj (("runtime", string "grok") ∷ ("userAgent", string user_agent) ∷ ("home", string home) ∷ [])

abbrev pub model_list_stub : Value
model_list_stub = obj (
    (
      "data",
      arr (
          obj (
            ("model", string "grok")
            ∷ ("isDefault", boolean true)
            ∷ ("supportedReasoningEfforts", arr [])
            ∷ [])
          ∷ []),
    )
    ∷ ("nextCursor", null)
    ∷ [])

-- `fixture` is the JSON of the file that the environment names, where it can be read.
unfoldable pub model_list_result : Option Value → Value
model_list_result none = model_list_stub
model_list_result (some parsed) = elim (get parsed "data") [
  | none ↦ model_list_stub
  | some v ↦ parsed
]

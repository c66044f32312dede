-- ===== src/Tests/Requests.antt =====
-- Requests to the app server and a watch, at fixed messages and ledgers.
use mathlib.Core.List.{Memᴰ}
use gamchi.Prelude.{◌≤◌, ◌≡◌, refl, String, false, not, none, some, [], ◌∷◌}
use gamchi.Wire.{completed}
use gamchi.Prelude.Json.{Value, null, number, string, obj, arr, get}
use gamchi.Server.Rpc.Params.{is_some, opt_out_is_nonempty}
use gamchi.Server.Rpc.Replies.{method_not_found, rpc_error, reply_result}
use gamchi.Server.Rpc.Handle.{asks_ccas, initialize, on_method, handle_named, handle_rpc}
use gamchi.Server.Rpc.Handle.Shape.{handle_rpc-Replies}
use gamchi.Server.Rpc.Handle.Extras.{handle_rpc-refuses_extras}
use gamchi.Grok.Teardown.{no_children}
use gamchi.Server.Connection.{new_conn}
use gamchi.Server.Watch.{notify_item_started, notify_item_completed, Round, new_watcher, watch_turn}
use gamchi.Server.Watch.Counts.{count}
use gamchi.Server.Watch.Once.{conn_of, watch_turn-once}
use gamchi.Tests.{host, idle, busy}

abbrev message : String → Value → Value
message method params =
    obj (("id", number "5") ∷ ("method", string method) ∷ ("params", params) ∷ [])

handle_rpc-Replies_example :
    (reply : Value) × ((handle_rpc host none "/home"
        (message "turn/nap" (obj []))
        idle
        no_children).0
      ≡ some reply)
    × (get reply "id" ≡ some (number "5"))
    × (is_some (get reply "result") ≡ not (is_some (get reply "error")))
handle_rpc-Replies_example =
    handle_rpc-Replies host none "/home" "turn/nap" (message "turn/nap" (obj [])) (number "5") idle
      no_children refl refl

abbrev extra : Value
extra = obj (("cwd", string "/work") ∷ ("networkAccess", null) ∷ [])

handle_rpc-refuses_extras_example :
    (text : String) × (handle_rpc host none "/home" (message "thread/start" extra) idle no_children
      ≡ (some (rpc_error (number "5") method_not_found text), idle, no_children))
handle_rpc-refuses_extras_example =
    handle_rpc-refuses_extras host none "/home" "thread/start" "networkAccess"
      (message "thread/start" extra) (number "5") extra null idle no_children (Memᴰ.head refl)
      (Memᴰ.tail (Memᴰ.head refl)) refl refl refl refl

abbrev round : Round
round = record { others = λ s. s; replies = []; emitted_at = 1; emitted_again_at = 2; asked_at = 3 }

watch_turn-once_example :
    (count notify_item_started "user-message"
        (conn_of (
          watch_turn "th1" "tu1"
            (round ∷ [])
            new_watcher
            (busy completed false)
            (new_conn (λ n. false)))).sent
      ≤ 1)
    × (count notify_item_completed "user-message"
          (conn_of (
            watch_turn "th1" "tu1"
              (round ∷ [])
              new_watcher
              (busy completed false)
              (new_conn (λ n. false)))).sent
        ≤ 1)
watch_turn-once_example =
    watch_turn-once "user-message" "th1" "tu1" (round ∷ []) (busy completed false) (λ n. false)

-- A handshake that opts out of nothing.
initialized :
    (handle_rpc host none "/home"
      (message "initialize" (obj (("optOutNotificationMethods", arr []) ∷ [])))
      idle
      no_children).0
    ≡ some (reply_result (number "5") (obj (("userAgent", string "gamchi/app-server-v1") ∷ [])))
unfolding handle_rpc handle_named on_method asks_ccas initialize opt_out_is_nonempty
initialized = refl

-- A message without an id gets no reply.
unanswered :
    (handle_rpc host none "/home" (obj (("method", string "initialized") ∷ [])) idle no_children).0
    ≡ none
unfolding handle_rpc handle_named
unanswered = refl

-- ===== src/Tests/Upgrades.antt =====
-- Upgrade requests and arguments of the app server.
use gamchi.Prelude.{
  ℕ, ◌≡◌, refl, Bool, true, false, none, some, Option, String, List, [], ◌∷◌, Result, ok, err,
  if◌then◌else◌,
}
use gamchi.Prelude.Text.{codes}
use gamchi.Server.Bytes.{Socket, IoError}
use gamchi.Server.Utf8.{from_utf8, as_bytes, same}
use gamchi.Server.Upgrade.{
  UpgradeReject, bad_request, upgrade_required, method_not_allowed, not_found, status_line,
  write_text, write_status, write_reject, read_headers, read_http_headers, request_parts,
  request_line, parse_request_line, header_pairs, parse_header_map, header, eq_ignore,
  connection_has_upgrade, valid_websocket_key, websocket_accept, check_key, check_headers,
  check_request, check_upgrade, write_accept, answer, upgrade, serve_connection,
}
use gamchi.Server.Upgrade.Accepted.{Upgraded, serve_connection-Upgraded}
use gamchi.Server.Listen.{parse_listen, parse_rest, parse_args, bind_listen, run}
use gamchi.Server.Connection.{new_conn}
use gamchi.Server.Loop.{Session, rpc_loop}
use gamchi.Server.Loop.InOrder.{ids, rpc_loop-in_order}
use gamchi.Prelude.Json.{Value, obj, string, number}
use gamchi.Grok.Teardown.{no_children}
use gamchi.Ops.Host.{open_home}
use gamchi.Home.{require_absolute, resolve_home, resolve_home_from_os}
use gamchi.Tests.{host, idle}

abbrev key : String
key = "dGhlIHNhbXBsZSBub25jZQ=="

-- base64 and SHA-1 at this one key.
abbrev decode : List ℕ → Option (List ℕ)
decode text = if same text (codes key) then some (codes "the sample nonce") else none

abbrev encode : List ℕ → String
encode digest = "s3pPLMBiTxaQ9kYGzzhZRbK+xOo="

abbrev from_client : String → Socket
from_client text = record {
  incoming = as_bytes (codes text);
  broken = false;
  sent = [];
  writes = 0;
  accepts = λ n. none;
}

abbrev request : String
request =
    "GET / HTTP/1.1\r\nhost: x\r\nUPGRADE: WebSocket\r\nConnection: keep-alive, Upgrade\r\nSec-WebSocket-Key: dGhlIHNhbXBsZSBub25jZQ==\r\nSec-WebSocket-Version: 13\r\n\r\nrest"

abbrev serve : String → Result IoError Bool × Socket
serve text = serve_connection decode (λ bytes. bytes) encode (from_client text)

abbrev check : String → Result UpgradeReject (List ℕ)
check text = check_upgrade decode (as_bytes (codes text))

abbrev answered : Socket
answered = record (from_client "rest") {
  sent = as_bytes (
      codes
        "HTTP/1.1 101 Switching Protocols\r\nUpgrade: websocket\r\nConnection: Upgrade\r\nSec-WebSocket-Accept: s3pPLMBiTxaQ9kYGzzhZRbK+xOo=\r\n\r\n");
  writes = 3;
}

accepted_request : serve request ≡ (ok true, answered)
unfolding serve_connection upgrade read_http_headers read_headers answer write_accept write_text
    websocket_accept check_upgrade check_request check_headers check_key valid_websocket_key
    connection_has_upgrade eq_ignore header parse_header_map header_pairs parse_request_line
    request_line request_parts
accepted_request = refl

serve_connection-Upgraded_example :
    Upgraded decode (λ bytes. bytes) encode (from_client request) answered
serve_connection-Upgraded_example =
    serve_connection-Upgraded decode (λ bytes. bytes) encode (from_client request) answered
      accepted_request

unfinished_request : serve "GET / HTTP/1.1\r\n" ≡ (
  ok false,
  record (from_client "") {
    sent = as_bytes (codes "HTTP/1.1 400 Bad Request\r\nConnection: close\r\n\r\n");
    writes = 2;
  },
)
unfolding serve_connection upgrade read_http_headers read_headers answer write_reject write_status
    status_line write_text
unfinished_request = refl

post_refused : check "POST / HTTP/1.1\r\n\r\n" ≡ err method_not_allowed
unfolding check_upgrade check_request parse_request_line request_line request_parts
post_refused = refl

target_refused : check "GET /x HTTP/1.1\r\n\r\n" ≡ err not_found
unfolding check_upgrade check_request parse_request_line request_line request_parts
target_refused = refl

spaces_refused : check "GET  / HTTP/1.1\r\n\r\n" ≡ err bad_request
unfolding check_upgrade check_request parse_request_line request_line request_parts
spaces_refused = refl

-- A header without a colon.
header_refused : check "GET / HTTP/1.1\r\nUpgrade websocket\r\n\r\n" ≡ err bad_request
unfolding check_upgrade check_request parse_request_line request_line request_parts parse_header_map
    header_pairs
header_refused = refl

version_refused :
    check
      "GET / HTTP/1.1\r\nUpgrade: websocket\r\nConnection: Upgrade\r\nSec-WebSocket-Key: dGhlIHNhbXBsZSBub25jZQ==\r\nSec-WebSocket-Version: 8\r\n\r\n"
    ≡ err upgrade_required
unfolding check_upgrade check_request check_headers check_key valid_websocket_key
    connection_has_upgrade eq_ignore header parse_header_map header_pairs parse_request_line
    request_line request_parts
version_refused = refl

-- Overlong bytes and a surrogate are no text; a code point of four bytes is one.
utf8_read :
    (from_utf8 (0xc0 ∷ 0xaf ∷ []) ≡ none)
    × (from_utf8 (0xed ∷ 0xa0 ∷ 0x80 ∷ []) ≡ none)
    × (from_utf8 (0xf0 ∷ 0x9f ∷ 0x98 ∷ 0x80 ∷ []) ≡ some (0x1f600 ∷ []))
    × (as_bytes (0x1f600 ∷ 0xe9 ∷ []) ≡ 0xf0 ∷ 0x9f ∷ 0x98 ∷ 0x80 ∷ 0xc3 ∷ 0xa9 ∷ [])
utf8_read = (refl, refl, refl, refl)

-- The last value of a flag counts.
last_flag :
    parse_args ("--listen" ∷ "unix:///a" ∷ "--home" ∷ "/h" ∷ "--listen" ∷ "unix:///b" ∷ [])
    ≡ ok (record { socket_path = "/b"; home = some "/h" })
unfolding parse_args parse_rest parse_listen
last_flag = refl

relative_listen : parse_args ("--listen" ∷ "unix://a" ∷ []) ≡ err "--listen path must be absolute"
unfolding parse_args parse_rest parse_listen
relative_listen = refl

no_listen : parse_args ("--home" ∷ "/h" ∷ []) ≡ err "--listen unix://<absolute-path> is required"
unfolding parse_args parse_rest parse_listen
no_listen = refl

-- The path is there already.
occupied_path :
    run host (λ path. true) (λ path. ok tt) ("--listen" ∷ "unix:///a" ∷ "--home" ∷ "/h" ∷ [])
    ≡ err ("GAMCHI_STARTUP_ERROR OCCUPIED_PATH" ∷ [])
unfolding run parse_args parse_rest parse_listen open_home resolve_home_from_os resolve_home
    require_absolute bind_listen
occupied_path = refl

abbrev session : Session
session = record {
  ledger = idle;
  children = no_children;
  conn = new_conn (λ n. false);
  watches = [];
}

-- A text that is no JSON, a request, a message without an id, and one without a method.
abbrev messages : List (Option Value)
messages =
    none
    ∷ some (obj (("id", number "5") ∷ ("method", string "model/list") ∷ []))
    ∷ some (obj (("method", string "initialized") ∷ []))
    ∷ some (obj (("id", number "1000") ∷ ("result", obj []) ∷ []))
    ∷ []

rpc_loop-in_order_example :
    ((rpc_loop host none "/home" (λ id. "1000") messages session).0 ≡ true)
    × (ids (rpc_loop host none "/home" (λ id. "1000") messages session).1.conn.sent
        ≡ number "5" ∷ [])
rpc_loop-in_order_example =
    rpc_loop-in_order host none "/home" (λ id. "1000") messages session (λ n. refl)

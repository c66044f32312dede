-- ===== src/Server/Upgrade.antt =====
-- The HTTP upgrade of a connection and its refusals, in crates/gamchi/src/app_server.rs. `decode` and
-- `encode` are those of base64, and `sha1` is the digest of the bytes that the hasher was given.
pub mod Checked
pub mod Accepted
use gamchi.Prelude.{
  ℕ, zero, suc, ◌*◌, Bool, true, false, not, ◌||◌, String, List, [], ◌∷◌, ◌++◌, Option, none, some,
  Result, ok, err, and_then, length, any, find, nat_eq, if◌then◌else◌,
}
use gamchi.Prelude.Text.{codes}
use gamchi.Server.Bytes.{IoError, Socket, read_exact, write_all, Io, pure, ◌>>=◌}
use gamchi.Server.Frame.{byte_at}
use gamchi.Server.Utf8.{
  from_utf8, as_bytes, same, ends_with, split, split_first, trimmed, same_ignoring_case,
}

pub data UpgradeReject : Type 0 where
  method_not_allowed not_found bad_request upgrade_required headers_too_large : UpgradeReject

unfoldable pub status_line : UpgradeReject → Option String
status_line method_not_allowed = some "HTTP/1.1 405 Method Not Allowed"
status_line not_found = some "HTTP/1.1 404 Not Found"
status_line bad_request = some "HTTP/1.1 400 Bad Request"
status_line upgrade_required = some "HTTP/1.1 426 Upgrade Required"
status_line headers_too_large = none

-- What `write!` does with each piece of its text.
unfoldable pub write_text : String → Io (Unit {0})
write_text text = write_all (as_bytes (codes text))

abbrev pub refusal_headers : UpgradeReject → String
refusal_headers upgrade_required = "\r\nSec-WebSocket-Version: 13\r\nConnection: close\r\n\r\n"
refusal_headers _ = "\r\nConnection: close\r\n\r\n"

unfoldable pub write_status : Option String → String → Io (Unit {0})
write_status none headers = pure tt
write_status (some status) headers = do _ ← write_text status; write_text headers

unfoldable pub write_reject : UpgradeReject → Io (Unit {0})
write_reject reject = write_status (status_line reject) (refusal_headers reject)

-- `MAX_HTTP_UPGRADE_BYTES`.
abbrev pub max_http_upgrade_bytes : ℕ
max_http_upgrade_bytes = 16 * 1024

abbrev pub blank_line : List ℕ
blank_line = codes "\r\n\r\n"

-- The loop of `read_http_headers` with room for `left` more bytes behind those of `buf`.
unfoldable pub read_headers : (left : ℕ) → List ℕ → Socket → Result UpgradeReject (List ℕ) × Socket
read_headers zero buf s = (err headers_too_large, s)
read_headers (suc left) buf s = elim (read_exact 1 s).0 [
  | err e ↦ (err bad_request, (read_exact 1 s).1)
  | ok byte ↦ elim (ends_with (buf ++ byte_at byte 0 ∷ []) blank_line) [
    | true ↦ (ok (buf ++ byte_at byte 0 ∷ []), (read_exact 1 s).1)
    | false ↦ read_headers left (buf ++ byte_at byte 0 ∷ []) (read_exact 1 s).1
  ]
]

unfoldable pub read_http_headers : Socket → Result UpgradeReject (List ℕ) × Socket
read_http_headers s = read_headers max_http_upgrade_bytes [] s

-- The code points of a request.
abbrev pub text_of : List ℕ → Result UpgradeReject (List ℕ)
text_of req = elim (from_utf8 req) [ none ↦ err bad_request | some text ↦ ok text ]

abbrev pub is_blank : List ℕ → Bool
is_blank [] = true
is_blank (c ∷ s) = false

-- `method`, `target` and `version`, where the line has these three parts and no other.
unfoldable pub request_parts : List (List ℕ) → Result UpgradeReject (List ℕ × List ℕ × List ℕ)
request_parts (method ∷ target ∷ version ∷ []) =
    if is_blank method || is_blank target || is_blank version
    then err bad_request
    else ok (method, target, version)
request_parts _ = err bad_request

unfoldable pub request_line : List (List ℕ) → Result UpgradeReject (List ℕ × List ℕ × List ℕ)
request_line [] = err bad_request
request_line (line ∷ lines) = request_parts (split (codes " ") line)

unfoldable pub parse_request_line : List ℕ → Result UpgradeReject (List ℕ × List ℕ × List ℕ)
parse_request_line req = and_then (text_of req) (λ text. request_line (split (codes "\r\n") text))

pub record HeaderMap : Type 0 where
  pub pairs : List (List ℕ × List ℕ)

abbrev pub with_pair :
    List ℕ × List ℕ
    → Result UpgradeReject (List (List ℕ × List ℕ))
    → Result UpgradeReject (List (List ℕ × List ℕ))
with_pair (name, value) more = and_then more (λ pairs. ok ((trimmed name, trimmed value) ∷ pairs))

-- The lines up to the empty one. The first line without a colon refuses the request.
unfoldable pub header_pairs : List (List ℕ) → Result UpgradeReject (List (List ℕ × List ℕ))
header_pairs [] = ok []
header_pairs ([] ∷ lines) = ok []
header_pairs ((c ∷ line) ∷ lines) = elim (split_first b':' (c ∷ line)) [
  | none ↦ err bad_request
  | some pair ↦ with_pair pair (header_pairs lines)
]

abbrev pub after_first : List (List ℕ) → List (List ℕ)
after_first [] = []
after_first (line ∷ lines) = lines

unfoldable pub parse_header_map : List ℕ → Result UpgradeReject HeaderMap
parse_header_map req = and_then (text_of req) (λ text.
    and_then (header_pairs (after_first (split (codes "\r\n") text)))
      (λ pairs. ok (record { pairs = pairs })))

abbrev pub value_of : Option (List ℕ × List ℕ) → Option (List ℕ)
value_of none = none
value_of (some (name, value)) = some value

unfoldable pub header : HeaderMap → String → Option (List ℕ)
header headers name = value_of (find (λ pair. same_ignoring_case pair.0 (codes name)) headers.pairs)

unfoldable pub eq_ignore : HeaderMap → String → String → Bool
eq_ignore headers name want = elim (header headers name) [
  | none ↦ false
  | some value ↦ same_ignoring_case value (codes want)
]

unfoldable pub connection_has_upgrade : HeaderMap → Bool
connection_has_upgrade headers = elim (header headers "connection") [
  | none ↦ false
  | some value ↦
      any (λ t. same_ignoring_case (trimmed t) (codes "upgrade")) (split (codes ",") value)
]

-- `Some("13")`.
abbrev pub is_version_13 : Option (List ℕ) → Bool
is_version_13 none = false
is_version_13 (some value) = same value (codes "13")

abbrev pub websocket_guid : String
websocket_guid = "258EAFA5-E914-47DA-95CA-C5AB0DC85B11"

module _ (decode : List ℕ → Option (List ℕ)) where
  unfoldable pub valid_websocket_key : List ℕ → Bool
  valid_websocket_key key = elim (decode key) [
    | none ↦ false
    | some bytes ↦ nat_eq (length bytes) 16
  ]

  -- The key, where it is there and valid and the version is 13.
  unfoldable pub check_key : HeaderMap → Option (List ℕ) → Result UpgradeReject (List ℕ)
  check_key headers none = err bad_request
  check_key headers (some key) =
      if not (valid_websocket_key key)
      then err bad_request
      else if is_version_13 (header headers "sec-websocket-version")
      then ok key
      else err upgrade_required

  unfoldable pub check_headers : HeaderMap → Result UpgradeReject (List ℕ)
  check_headers headers =
      if not (eq_ignore headers "upgrade" "websocket")
      then err bad_request
      else if not (connection_has_upgrade headers)
      then err bad_request
      else check_key headers (header headers "sec-websocket-key")

  unfoldable pub check_request : List ℕ → List ℕ × List ℕ × List ℕ → Result UpgradeReject (List ℕ)
  check_request req (method, target, version) =
      if not (same method (codes "GET"))
      then err method_not_allowed
      else if not (same version (codes "HTTP/1.1"))
      then err bad_request
      else if not (same target (codes "/"))
      then err not_found
      else and_then (parse_header_map req) check_headers

  -- `upgrade` from the request to the key.
  unfoldable pub check_upgrade : List ℕ → Result UpgradeReject (List ℕ)
  check_upgrade req = and_then (parse_request_line req) (check_request req)

abbrev pub switching_protocols : String
switching_protocols =
    "HTTP/1.1 101 Switching Protocols\r\nUpgrade: websocket\r\nConnection: Upgrade\r\nSec-WebSocket-Accept: "

abbrev pub accepted : Result IoError (Unit {0}) × Socket → Result UpgradeReject (Unit {0}) × Socket
accepted (ok done, s) = (ok tt, s)
accepted (err e, s) = (err bad_request, s)

abbrev pub refused : Result UpgradeReject (Unit {0}) → Io Bool
refused (ok done) = pure true
refused (err headers_too_large) = pure false
refused (err reject) = do _ ← write_reject reject; pure false

module _ (sha1 : List ℕ → List ℕ) (encode : List ℕ → String) where
  unfoldable pub websocket_accept : List ℕ → String
  websocket_accept key = encode (sha1 (as_bytes key ++ as_bytes (codes websocket_guid)))

  unfoldable pub write_accept : List ℕ → Io (Unit {0})
  write_accept key = do
    _ ← write_text switching_protocols
    _ ← write_text (websocket_accept key)
    write_text "\r\n\r\n"

  unfoldable pub answer :
      Result UpgradeReject (List ℕ) → Socket → Result UpgradeReject (Unit {0}) × Socket
  answer (err reject) s = (err reject, s)
  answer (ok key) s = accepted (write_accept key s)

module _ (decode : List ℕ → Option (List ℕ)) (sha1 : List ℕ → List ℕ)
    (encode : List ℕ → String) where
  unfoldable pub upgrade : Socket → Result UpgradeReject (Unit {0}) × Socket
  upgrade s =
      let (req, t) = read_http_headers s in
      answer sha1 encode (and_then req (check_upgrade decode)) t

  -- `serve_connection` up to its `rpc_loop`: whether it comes to that.
  unfoldable pub serve_connection : Io Bool
  serve_connection s = let (r, t) = upgrade s in refused r t

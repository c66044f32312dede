-- ===== src/Server/Frame.antt =====
-- WebSocket frames: `read_ws_frame`, `write_ws_frame` and what stands on them in
-- crates/gamchi/src/app_server.rs. Bytes are numbers below 256.
pub mod Xor
pub mod Client
pub mod RoundTrip
pub mod Bound
pub mod Ends
pub mod Answers
pub mod Reply
use Prim.Native.Nat.{bit_and, bit_or, bit_xor}
use gamchi.Prelude.{
  ℕ, zero, suc, ◌+◌, ◌*◌, ◌%◌, ◌^◌, Bool, true, false, not, ◌&&◌, List, [], ◌∷◌, ◌++◌, Option, none,
  some, Result, ok, err, length, get_elem?, ltb, leb, nat_eq, if◌then◌else◌,
}
use gamchi.Server.Bytes.{
  IoError, unexpected_eof, lost, other, Socket, read_exact, write_all, to_be_bytes, from_be_bytes,
  Io, pure, raise, ◌>>=◌, ◌>>◌,
}

pub record Frame : Type 0 where
  pub fin : Bool
  pub opcode : ℕ
  pub payload : List ℕ

-- `MAX_WEBSOCKET_FRAME_BYTES`.
abbrev pub max_websocket_frame_bytes : ℕ
max_websocket_frame_bytes = 16 * 1024 * 1024

-- An array at an index below its length.
abbrev pub byte_at : List ℕ → ℕ → ℕ
byte_at bytes i = elim (get_elem? bytes i) [ none ↦ 0 | some b ↦ b ]

-- `b & mask != 0`.
abbrev pub has_bits : ℕ → ℕ → Bool
has_bits b mask = not (nat_eq (bit_and b mask) 0)

-- `u16::from_be_bytes` and `u64::from_be_bytes`, by the number of bytes.
unfoldable pub read_number : ℕ → Io ℕ
read_number size = do bytes ← read_exact size; pure (from_be_bytes bytes)

unfoldable pub read_length : ℕ → Io ℕ
read_length marker =
    if leb marker 125
    then pure marker
    else if nat_eq marker 126
    then read_number 2
    else if nat_eq marker 127
    then read_number 8
    else raise (other "invalid length")

-- The payload from its index i on.
unfoldable pub unmask : List ℕ → ℕ → List ℕ → List ℕ
unmask mask i [] = []
unmask mask i (b ∷ bytes) = bit_xor b (byte_at mask (i % 4)) ∷ unmask mask (suc i) bytes

unfoldable pub read_payload : Bool → ℕ → ℕ → Io (Option Frame)
read_payload fin opcode size =
    if ltb max_websocket_frame_bytes size then raise (other "frame too large") else do
      mask ← read_exact 4
      payload ← read_exact size
      pure (some (record { fin = fin; opcode = opcode; payload = unmask mask 0 payload }))

unfoldable pub after_prefix : ℕ → ℕ → Io (Option Frame)
after_prefix first second =
    if has_bits first 0x70
    then raise (other "reserved bits")
    else if not (has_bits second 0x80)
    then raise (other "client frame must be masked")
    else do
      size ← read_length (bit_and second 0x7f)
      read_payload (has_bits first 0x80) (bit_and first 0x0f) size

unfoldable pub from_prefix : Result IoError (List ℕ) → Io (Option Frame)
from_prefix (err unexpected_eof) = pure none
from_prefix (err lost) = raise lost
from_prefix (err (other message)) = raise (other message)
from_prefix (ok prefix) = after_prefix (byte_at prefix 0) (byte_at prefix 1)

-- `none` is the end of the stream.
unfoldable pub read_ws_frame : Io (Option Frame)
read_ws_frame s = let (prefix, t) = read_exact 2 s in from_prefix prefix t

-- The header after its first byte. `len as u8`, `as u16` and `as u64` wrap around.
unfoldable pub length_bytes : ℕ → List ℕ
length_bytes len =
    if leb len 125
    then (len % 256) ∷ []
    else if leb len 65535
    then 126 ∷ to_be_bytes 2 (len % 2 ^ 16)
    else 127 ∷ to_be_bytes 8 (len % 2 ^ 64)

unfoldable pub write_ws_frame : ℕ → List ℕ → Io (Unit {0})
write_ws_frame opcode payload = do
  _ ← write_all (bit_or 0x80 opcode ∷ length_bytes (length payload))
  write_all payload

unfoldable pub write_ws_text : List ℕ → Io (Unit {0})
write_ws_text payload = write_ws_frame 0x1 payload

-- What a frame does to the loop of `read_ws_text`: it returns `some`, or reads on at `none`.
unfoldable pub on_frame : Frame → Io (Option (Option (List ℕ)))
on_frame frame =
    if nat_eq frame.opcode 0x1 && frame.fin
    then pure (some (some frame.payload))
    else if nat_eq frame.opcode 0x8
    then pure (some none)
    else if nat_eq frame.opcode 0x9
    then (do _ ← write_ws_frame 0xA frame.payload; pure none)
    else if nat_eq frame.opcode 0xA
    then pure none
    else pure (some none)

unfoldable pub on_read : Option Frame → Io (Option (Option (List ℕ)))
on_read none = pure (some none)
on_read (some frame) = on_frame frame

unfoldable pub read_round : Io (Option (Option (List ℕ)))
read_round = do frame ← read_ws_frame; on_read frame

-- One round of the loop, with what the later ones give.
unfoldable pub next_round :
    Result IoError (Option (Option (List ℕ)))
    → Socket
    → Option (Result IoError (Option (List ℕ)) × Socket)
    → Option (Result IoError (Option (List ℕ)) × Socket)
next_round (ok none) s later = later
next_round (ok (some payload)) s later = some (ok payload, s)
next_round (err e) s later = some (err e, s)

-- `none` is a loop that is not through after so many rounds.
unfoldable pub read_ws_text_in : ℕ → Socket → Option (Result IoError (Option (List ℕ)) × Socket)
read_ws_text_in zero s = none
read_ws_text_in (suc fuel) s =
    let (r, t) = read_round s in let later = read_ws_text_in fuel t in next_round r t later

-- Each frame takes bytes, so there are fewer rounds than bytes, but for the last one.
unfoldable pub read_ws_text : Socket → Option (Result IoError (Option (List ℕ)) × Socket)
read_ws_text s = read_ws_text_in (suc (length s.incoming)) s

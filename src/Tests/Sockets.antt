-- ===== src/Tests/Sockets.antt =====
-- Frames of the app server at fixed bytes.
use gamchi.Prelude.{
  ℕ, ◌+◌, ◌≤◌, ◌≡◌, refl, true, false, none, some, List, [], ◌∷◌, ◌++◌, ok, err, arith, length,
}
use gamchi.Server.Bytes.{Socket, unexpected_eof, other}
use gamchi.Server.Frame.{
  Frame, read_number, read_length, unmask, read_payload, after_prefix, from_prefix, read_ws_frame,
  length_bytes, write_ws_frame, on_frame, on_read, read_round, next_round, read_ws_text_in,
  read_ws_text,
}
use gamchi.Server.Frame.Client.{client_frame}
use gamchi.Server.Frame.RoundTrip.{read_ws_frame-client_frame}
use gamchi.Server.Frame.Bound.{read_ws_frame-bound}
use gamchi.Server.Frame.Reply.{read_server_frame, read_server_frame-write_ws_frame}
use gamchi.Server.Frame.Answers.{
  Control, ping, pong, controls_before, pongs, pong_writes, read_ws_text-answers,
}

abbrev socket : List ℕ → Socket
socket bytes = record {
  incoming = bytes;
  broken = false;
  sent = [];
  writes = 0;
  accepts = λ n. none;
}

abbrev text : List ℕ
text = b'h' ∷ b'i' ∷ []

abbrev text_frame : List ℕ
text_frame = client_frame true 1 1 2 3 4 text

abbrev got : Frame
got = record { fin = true; opcode = 1; payload = text }

read_ws_frame-client_frame_example :
    read_ws_frame (record (socket []) { incoming = text_frame ++ 7 ∷ [] })
    ≡ (ok (some got), record (socket []) { incoming = 7 ∷ [] })
read_ws_frame-client_frame_example =
    read_ws_frame-client_frame (socket []) true 1 1 2 3 4 text (7 ∷ []) (omega arith) (omega arith)
      (omega arith) (omega arith) (omega arith) (omega arith) (omega arith)

frame_read : read_ws_frame (socket text_frame) ≡ (ok (some got), socket [])
unfolding read_ws_frame from_prefix after_prefix read_length read_payload unmask
frame_read = refl

read_ws_frame-bound_example : (length text ≤ 16777216) × (6 + length text + 0 ≤ length text_frame)
read_ws_frame-bound_example = read_ws_frame-bound (socket text_frame) (socket []) got frame_read

read_server_frame-write_ws_frame_example :
    read_server_frame ((write_ws_frame 1 text (socket [])).1.sent ++ 7 ∷ [])
    ≡ some (1, text, 7 ∷ [])
read_server_frame-write_ws_frame_example =
    read_server_frame-write_ws_frame (socket []) 1 text (λ n. refl) (7 ∷ []) (omega arith)
      (omega arith) refl

abbrev controls : List Control
controls = ping 5 6 7 8 text ∷ pong 0 0 0 0 [] ∷ []

read_ws_text-answers_example :
    read_ws_text (record (socket []) { incoming = controls_before controls (text_frame ++ []) })
    ≡ some (
      ok (some text),
      record (socket []) {
        incoming = [];
        sent = [] ++ pongs controls;
        writes = 0 + pong_writes controls;
      },
    )
read_ws_text-answers_example =
    read_ws_text-answers 1 2 3 4 text [] (omega arith) controls (socket []) (omega arith)
      (λ n. refl)

-- A pong on the wire.
ponged : (write_ws_frame 0xA text (socket [])).1.sent ≡ 0x8a ∷ 2 ∷ text
unfolding write_ws_frame length_bytes
ponged = refl

-- The end of the stream before a frame, and inside its header.
ends : (read_ws_frame (socket [])).0 ≡ ok none
unfolding read_ws_frame from_prefix
ends = refl

cut : (read_ws_frame (socket (0x81 ∷ 0xfe ∷ 1 ∷ []))).0 ≡ err unexpected_eof
unfolding read_ws_frame from_prefix after_prefix read_length read_number
cut = refl

-- A length above the bound is refused before a payload is read, and so is a frame with no mask.
large :
    (read_ws_frame (socket (0x81 ∷ 0xff ∷ 0 ∷ 0 ∷ 0 ∷ 0 ∷ 1 ∷ 0 ∷ 0 ∷ 1 ∷ []))).0
    ≡ err (other "frame too large")
unfolding read_ws_frame from_prefix after_prefix read_length read_number read_payload
large = refl

bare : (read_ws_frame (socket (0x81 ∷ 2 ∷ text))).0 ≡ err (other "client frame must be masked")
unfolding read_ws_frame from_prefix after_prefix
bare = refl

-- A close ends the connection; what follows it is not read.
closed :
    read_ws_text (socket (client_frame true 8 1 2 3 4 [] ++ text_frame))
    ≡ some (ok none, socket text_frame)
unfolding read_ws_text read_ws_text_in read_round next_round on_read on_frame read_ws_frame
    from_prefix after_prefix read_length read_payload unmask
closed = refl

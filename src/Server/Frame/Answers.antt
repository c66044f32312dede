-- ===== src/Server/Frame/Answers.antt =====
-- `read_ws_text` on a client that keeps the connection alive before it sends its text.
use mathlib.Core.List.{append_assoc, append-nil}
use gamchi.Prelude.{
  ℕ, zero, suc, ◌+◌, ◌<◌, ◌≤◌, ◌≡◌, refl, ap, sym, ◌∙◌, true, List, [], ◌∷◌, ◌++◌, none, some, ok,
  arith, length, length-append, All,
}
use gamchi.Server.Bytes.{Socket}
use gamchi.Server.Frame.{
  max_websocket_frame_bytes, on_frame, on_read, read_round, next_round, read_ws_text_in,
  read_ws_text,
}
use gamchi.Server.Frame.Client.{IsByte, client_frame}
use gamchi.Server.Frame.RoundTrip.{read_ws_frame-client_frame}
use gamchi.Server.Frame.Reply.{server_frame, write_ws_frame-sent}

-- A ping or a pong of the client, with the bytes of its mask and what it carries.
pub data Control : Type 0 where
  ping pong : ℕ → ℕ → ℕ → ℕ → List ℕ → Control

abbrev pub IsMasked : ℕ → ℕ → ℕ → ℕ → List ℕ → Type 0
IsMasked a b c d payload =
    IsByte a
    × IsByte b
    × IsByte c
    × IsByte d
    × All IsByte payload
    × (length payload ≤ max_websocket_frame_bytes)

abbrev pub IsControl : Control → Type 0
IsControl (ping a b c d payload) = IsMasked a b c d payload
IsControl (pong a b c d payload) = IsMasked a b c d payload

abbrev pub control_frame : Control → List ℕ
control_frame (ping a b c d payload) = client_frame true 0x9 a b c d payload
control_frame (pong a b c d payload) = client_frame true 0xA a b c d payload

-- The frames of a list of controls, before other bytes.
abbrev pub controls_before : List Control → List ℕ → List ℕ
controls_before [] bytes = bytes
controls_before (f ∷ fs) bytes = control_frame f ++ controls_before fs bytes

-- What the server sends for a control: a pong with the same payload for a ping, in two writes.
abbrev pub pong_of : Control → List ℕ
pong_of (ping a b c d payload) = server_frame 0xA payload
pong_of (pong a b c d payload) = []

abbrev pub writes_of : Control → ℕ
writes_of (ping a b c d payload) = 2
writes_of (pong a b c d payload) = 0

abbrev pub pongs : List Control → List ℕ
pongs [] = []
pongs (f ∷ fs) = pong_of f ++ pongs fs

abbrev pub pong_writes : List Control → ℕ
pong_writes [] = 0
pong_writes (f ∷ fs) = writes_of f + pong_writes fs

-- The socket with other bytes to come, after so many bytes sent in so many writes.
abbrev after : Socket → List ℕ → List ℕ → ℕ → Socket
after s bytes more n = record s { incoming = bytes; sent = s.sent ++ more; writes = s.writes + n }

after-nothing : (s : Socket) (bytes : List ℕ) → record s { incoming = bytes } ≡ after s bytes [] 0
after-nothing s bytes = λ i. record s { incoming = bytes; sent = same_list i; writes = same i }
  where
    same : s.writes ≡ s.writes + 0
    same = omega arith

    same_list : s.sent ≡ s.sent ++ []
    same_list = sym (append-nil s.sent)

control_round :
    (s : Socket) (f : Control) (bytes : List ℕ)
    → IsControl f
    → ((n : ℕ) → s.accepts n ≡ none)
    → read_round (record s { incoming = control_frame f ++ bytes })
      ≡ (ok none, after s bytes (pong_of f) (writes_of f))
unfolding read_round on_read on_frame
control_round s (ping a b c d payload) bytes (ha, hb, hc, hd, hp, small) free =
    rw
      (
        read_ws_frame-client_frame s true 0x9 a b c d payload bytes (omega arith) ha hb hc hd hp
            small,
        write_ws_frame-sent (record s { incoming = bytes }) 0xA payload free,
      )
      (λ i. (
        ok none,
        record s { incoming = bytes; sent = s.sent ++ server_frame 0xA payload; writes = two i },
      ))
  where
    two : suc (suc s.writes) ≡ s.writes + 2
    two = omega arith
control_round s (pong a b c d payload) bytes (ha, hb, hc, hd, hp, small) free =
    rw
      (read_ws_frame-client_frame s true 0xA a b c d payload bytes (omega arith) ha hb hc hd hp
        small)
      (ap (λ t. (ok none, t)) (after-nothing s bytes))

length-controls_before :
    (fs : List Control) (bytes : List ℕ) → length fs ≤ length (controls_before fs bytes)
length-controls_before [] bytes = omega arith
length-controls_before (ping a b c d payload ∷ fs) bytes = omega (
  arith,
  length-controls_before fs bytes,
  length-append (client_frame true 0x9 a b c d payload) (controls_before fs bytes),
)
length-controls_before (pong a b c d payload ∷ fs) bytes = omega (
  arith,
  length-controls_before fs bytes,
  length-append (client_frame true 0xA a b c d payload) (controls_before fs bytes),
)

-- A text is returned, and what follows it stays.
text_round :
    (s : Socket) (a b c d : ℕ) (payload rest : List ℕ)
    → IsMasked a b c d payload
    → read_round (record s { incoming = client_frame true 0x1 a b c d payload ++ rest })
      ≡ (ok (some (some payload)), record s { incoming = rest })
unfolding read_round on_read on_frame
text_round s a b c d payload rest (ha, hb, hc, hd, hp, small) =
    rw
      (read_ws_frame-client_frame s true 0x1 a b c d payload rest (omega arith) ha hb hc hd hp
        small)
      refl

after-after :
    (s : Socket) (bytes more most rest : List ℕ) (n k : ℕ)
    → after (after s bytes more n) rest most k ≡ after s rest (more ++ most) (n + k)
after-after s bytes more most rest n k =
    λ i. record s { incoming = rest; sent = append_assoc s.sent more most i; writes = sum i }
  where
    sum : s.writes + n + k ≡ s.writes + (n + k)
    sum = omega arith

module _ (a b c d : ℕ) (payload rest : List ℕ) (masks : IsMasked a b c d payload) where
  text_loop :
      (fs : List Control) (fuel : ℕ) (s : Socket)
      → All IsControl fs
      → ((n : ℕ) → s.accepts n ≡ none)
      → length fs < fuel
      → read_ws_text_in fuel (record s {
        incoming = controls_before fs (client_frame true 0x1 a b c d payload ++ rest);
      })
        ≡ some (ok (some payload), after s rest (pongs fs) (pong_writes fs))
  unfolding read_ws_text_in next_round
  text_loop fs zero s h free few = absurd (omega arith)
  text_loop [] (suc fuel) s h free few =
      rw (text_round s a b c d payload rest masks)
        (ap (λ t. some (ok (some payload), t)) (after-nothing s rest))
  text_loop (f ∷ fs) (suc fuel) s (hf, h) free few =
      let bytes = controls_before fs (client_frame true 0x1 a b c d payload ++ rest) in
      let next = after s bytes (pong_of f) (writes_of f) in
      rw (control_round s f bytes hf free) (
        text_loop fs fuel next h free (omega arith)
        ∙ ap (λ t. some (ok (some payload), t))
            (after-after s bytes (pong_of f) (pongs fs) rest (writes_of f) (pong_writes fs)))

  -- Where a client sends ping and pong frames and then a text, the text is returned, what follows
  -- it is left, and the pings were answered in their order by pongs with the payloads that they
  -- had. Masks and payloads are bytes, no payload is above 16 MiB, and no write fails.
  pub read_ws_text-answers :
      (fs : List Control) (s : Socket)
      → All IsControl fs
      → ((n : ℕ) → s.accepts n ≡ none)
      → read_ws_text (record s {
        incoming = controls_before fs (client_frame true 0x1 a b c d payload ++ rest);
      })
        ≡ some (
          ok (some payload),
          record s {
            incoming = rest;
            sent = s.sent ++ pongs fs;
            writes = s.writes + pong_writes fs;
          },
        )
  unfolding read_ws_text
  read_ws_text-answers fs s h free =
      let bytes = client_frame true 0x1 a b c d payload ++ rest in
      text_loop fs (suc (length (controls_before fs bytes))) s h free
        (omega (arith, length-controls_before fs bytes))

-- ===== src/Server/Frame/Ends.antt =====
-- The loop of `read_ws_text` comes to an end.
use gamchi.Prelude.{
  ℕ, zero, suc, ◌<◌, ◌≡◌, refl, List, Option, none, some, Result, ok, err, arith, length, inl, inr,
  Result-cases,
}
use gamchi.Server.Bytes.{IoError, Socket, write_all}
use gamchi.Server.Frame.{
  Frame, write_ws_frame, on_frame, on_read, read_ws_frame, read_round, next_round, read_ws_text_in,
  read_ws_text,
}
use gamchi.Server.Frame.Bound.{bind-ok, read_ws_frame-bound}

write_all-incoming : (bytes : List ℕ) (s : Socket) → (write_all bytes s).1.incoming ≡ s.incoming
write_all-incoming bytes s = ground arith

write_ws_frame-incoming :
    (opcode : ℕ) (payload : List ℕ) (s : Socket)
    → (write_ws_frame opcode payload s).1.incoming ≡ s.incoming
unfolding write_ws_frame
write_ws_frame-incoming opcode payload s = ground arith

on_frame-incoming : (frame : Frame) (s : Socket) → (on_frame frame s).1.incoming ≡ s.incoming
unfolding on_frame
on_frame-incoming frame s = ground (arith, write_ws_frame-incoming 0xA frame.payload s)

read_round-shorter :
    (s t : Socket) → read_round s ≡ (ok none, t) → length t.incoming < length s.incoming
unfolding read_round
read_round-shorter s t h = bind-ok read_ws_frame on_read s t none h reads
  where
    reads :
        (o : Option Frame) (u : Socket)
        → read_ws_frame s ≡ (ok o, u)
        → on_read o u ≡ (ok none, t)
        → length t.incoming < length s.incoming
    reads none u e after = unfold on_read in cc
    reads (some frame) u e after =
        let bound = read_ws_frame-bound s u frame e in
        let kept = on_frame-incoming frame u in unfold on_read in ground arith

abbrev Ending : Option (Result IoError (Option (List ℕ)) × Socket) → Type 0
Ending o = (r : Result IoError (Option (List ℕ)) × Socket) × (o ≡ some r)

ends-in : (fuel : ℕ) (s : Socket) → length s.incoming < fuel → Ending (read_ws_text_in fuel s)
unfolding read_ws_text_in next_round
ends-in zero s h = absurd (omega arith)
ends-in (suc fuel) s h = elim (Result-cases (read_round s).0) [
  | inr (e, failed) ↦ ((err e, (read_round s).1), rw failed refl)
  | inl (some payload, returned) ↦ ((ok payload, (read_round s).1), rw returned refl)
  | inl (none, again) ↦
      let shorter = read_round-shorter s (read_round s).1 (λ i. (again i, (read_round s).1)) in
      let (r, e) = ends-in fuel (read_round s).1 (omega arith) in (r, rw again e)
]

-- Reading a text message ends on every input, with a payload, the end of the stream or an error:
-- the loop over ping and pong frames takes fewer rounds than the input has bytes, and one more.
pub read_ws_text_ends :
    (s : Socket) → (r : Result IoError (Option (List ℕ)) × Socket) × (read_ws_text s ≡ some r)
unfolding read_ws_text
read_ws_text_ends s = ends-in (suc (length s.incoming)) s (omega arith)

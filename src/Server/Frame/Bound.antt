-- ===== src/Server/Frame/Bound.antt =====
-- What a read takes from the socket, whatever the peer sends, and that the loop over frames ends.
use Prim.Native.Nat.{bit_and}
use gamchi.Prelude.{
  ℕ, zero, suc, ◌+◌, ◌≤◌, ◌≡◌, refl, Bool, List, [], ◌∷◌, some, ok, arith, length, ltb, Bool-cases,
  inl, inr, Option-cases, Result-cases,
}
use gamchi.Server.Bytes.{unexpected_eof, lost, other, Socket, split_at, read_exact, Io, pure, ◌>>=◌}
use gamchi.Server.Frame.{
  Frame, max_websocket_frame_bytes, byte_at, has_bits, read_number, read_length, unmask,
  read_payload, after_prefix, from_prefix, read_ws_frame,
}

split_at-some :
    (n : ℕ) (bytes front rest : List ℕ)
    → split_at n bytes ≡ some (front, rest)
    → (length front ≡ n) × (length bytes ≡ n + length rest)
split_at-some zero bytes front rest h = ground arith
split_at-some (suc n) [] front rest h = cc
split_at-some (suc n) (b ∷ bytes) front rest h = elim (Option-cases (split_at n bytes)) [
  | inl no_split ↦ cc (rw no_split at h)
  | inr ((more, back), e) ↦ let ih = split_at-some n bytes more back e in ground arith
]

-- A call that succeeds through another one.
pub bind-ok {ℓ κ μ} :
    {A : Type ℓ} {B : Type κ} {P : Type μ} (m : Io A) (f : A → Io B) (s u : Socket) (b : B)
    → (m >>= f) s ≡ (ok b, u)
    → ((a : A) (t : Socket) → m s ≡ (ok a, t) → f a t ≡ (ok b, u) → P)
    → P
bind-ok m f s u b h use_parts = elim (Result-cases (m s).0) [
  | inl (a, e) ↦ use_parts a (m s).1 (λ i. (e i, (m s).1)) (rw e at h)
  | inr (x, e) ↦ absurd (cc (rw e at h))
]

read_exact-ok :
    (n : ℕ) (s t : Socket) (front : List ℕ)
    → read_exact n s ≡ (ok front, t)
    → (length front ≡ n) × (length s.incoming ≡ n + length t.incoming)
read_exact-ok n s t front h = elim (Option-cases (split_at n s.incoming)) [
  | inl no_split ↦ cc (rw (no_split, read_exact) at h)
  | inr ((more, back), e) ↦ let sizes = split_at-some n s.incoming more back e in ground arith
]

length-unmask : (mask : List ℕ) (i : ℕ) (xs : List ℕ) → length (unmask mask i xs) ≡ length xs
unfolding unmask
length-unmask mask i [] = refl
length-unmask mask i (x ∷ xs) = omega (arith, length-unmask mask (suc i) xs)

read_number-ok :
    (n size : ℕ) (s t : Socket)
    → read_number n s ≡ (ok size, t)
    → length s.incoming ≡ n + length t.incoming
unfolding read_number
read_number-ok n size s t h =
    bind-ok (read_exact n) _ s t size h
      (λ bytes u reads e. let sizes = read_exact-ok n s u bytes reads in ground arith)

read_length-ok :
    (marker size : ℕ) (s t : Socket)
    → read_length marker s ≡ (ok size, t)
    → length t.incoming ≤ length s.incoming
unfolding read_length
read_length-ok marker size s t h =
    ground (arith, read_number-ok 2 size s t, read_number-ok 8 size s t)

-- The payload that is given is as long as the one that was read.
shown_frame :
    (fin : Bool) (opcode : ℕ) (mask bytes : List ℕ) (frame : Frame) (s t : Socket)
    → pure (some (record { fin = fin; opcode = opcode; payload = unmask mask 0 bytes })) s
      ≡ (ok (some frame), t)
    → (length frame.payload ≡ length bytes) × (length t.incoming ≡ length s.incoming)
shown_frame fin opcode mask bytes frame s t h =
    let sizes = length-unmask mask 0 bytes in ground arith

read_payload-ok :
    (fin : Bool) (opcode size : ℕ) (s t : Socket) (frame : Frame)
    → read_payload fin opcode size s ≡ (ok (some frame), t)
    → (length frame.payload ≤ max_websocket_frame_bytes)
      × (4 + length frame.payload + length t.incoming ≤ length s.incoming)
unfolding read_payload
read_payload-ok fin opcode size s t frame h =
    elim (Bool-cases (ltb max_websocket_frame_bytes size)) [
      | inl large ↦ absurd (cc (rw large at h))
      | inr fits ↦ bind-ok (read_exact 4) _ s t (some frame) (rw fits at h) (λ mask u masks after.
          bind-ok (read_exact size) _ u t (some frame) after (λ bytes v reads same.
            let mask_size = read_exact-ok 4 s u mask masks in
            let size_of = read_exact-ok size u v bytes reads in
            let shown = shown_frame fin opcode mask bytes frame v t same in ground arith))
    ]

after_prefix-ok :
    (first second : ℕ) (s t : Socket) (frame : Frame)
    → after_prefix first second s ≡ (ok (some frame), t)
    → (length frame.payload ≤ max_websocket_frame_bytes)
      × (4 + length frame.payload + length t.incoming ≤ length s.incoming)
unfolding after_prefix
after_prefix-ok first second s t frame h = elim (Bool-cases (has_bits first 0x70)) [
  | inl reserved ↦ absurd (cc (rw reserved at h))
  | inr clear ↦ elim (Bool-cases (has_bits second 0x80)) [
    | inr bare ↦ absurd (cc (rw (clear, bare) at h))
    | inl masks ↦
        bind-ok (read_length (bit_and second 0x7f)) _ s t (some frame) (rw (clear, masks) at h)
          (λ size u sized payload.
            let shorter = read_length-ok (bit_and second 0x7f) size s u sized in
            let rest =
              read_payload-ok (has_bits first 0x80) (bit_and first 0x0f) size u t frame payload in
            ground arith)
  ]
]

-- A frame that is read has a payload of at most 16 MiB, and at least six bytes more than that of
-- the input are gone.
pub read_ws_frame-bound :
    (s t : Socket) (frame : Frame)
    → read_ws_frame s ≡ (ok (some frame), t)
    → (length frame.payload ≤ 16777216)
      × (6 + length frame.payload + length t.incoming ≤ length s.incoming)
unfolding read_ws_frame from_prefix
read_ws_frame-bound s t frame h = elim (Result-cases (read_exact 2 s).0) [
  | inr (unexpected_eof, e) ↦ cc (rw e at h)
  | inr (lost, e) ↦ cc (rw e at h)
  | inr (other message, e) ↦ cc (rw e at h)
  | inl (prefix, e) ↦
      let sizes = read_exact-ok 2 s (read_exact 2 s).1 prefix (λ i. (e i, (read_exact 2 s).1)) in
      let rest =
        after_prefix-ok (byte_at prefix 0) (byte_at prefix 1) (read_exact 2 s).1 t frame
          (rw e at h) in
      ground arith
]

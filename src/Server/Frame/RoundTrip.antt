-- ===== src/Server/Frame/RoundTrip.antt =====
-- `read_ws_frame` on the frames of a client.
use Prim.Native.Nat.{bit_and}
use gamchi.Prelude.{
  ℕ, zero, suc, ◌+◌, ◌/◌, ◌%◌, ◌^◌, ◌<◌, ◌≤◌, ◌≡◌, refl, ap, Bool, true, false, not, ◌&&◌, List, [],
  ◌∷◌, ◌++◌, Option, some, Result, ok, arith, length, ltb, leb, nat_eq, nat_eq_iff, if◌then◌else◌,
  All, Bool-cases, inl, inr, leb→le,
}
use gamchi.Server.Bytes.{IoError, Socket, split_at, read_exact, from_be_bytes}
use gamchi.Server.Frame.{
  Frame, max_websocket_frame_bytes, byte_at, has_bits, read_number, read_length, unmask,
  read_payload, after_prefix, from_prefix, read_ws_frame,
}
use gamchi.Server.Frame.Xor.{all_below, all_below-elim, bit_xor-bit_xor}
use gamchi.Server.Frame.Client.{IsByte, masked, first_byte, client_frame}

pub split_at-append : (xs rest : List ℕ) → split_at (length xs) (xs ++ rest) ≡ some (xs, rest)
split_at-append [] rest = refl
split_at-append (x ∷ xs) rest = rw (split_at-append xs rest) refl

pub read_exact-append :
    (s : Socket) (xs rest : List ℕ)
    → read_exact (length xs) (record s { incoming = xs ++ rest })
      ≡ (ok xs, record s { incoming = rest })
read_exact-append s xs rest = rw (read_exact, split_at-append xs rest) refl

-- The first byte's parts.
abbrev first_parts : Bool → ℕ → Bool
first_parts fin opcode =
    not (has_bits (first_byte fin opcode) 0x70)
    && nat_eq (bit_and (first_byte fin opcode) 0x0f) opcode
    && (if fin
        then has_bits (first_byte fin opcode) 0x80
        else not (has_bits (first_byte fin opcode) 0x80))

first_table : (fin : Bool) → all_below 16 (first_parts fin) ≡ true
unfolding all_below
first_table true = refl
first_table false = refl

abbrev second_parts : ℕ → Bool
second_parts marker = has_bits (128 + marker) 0x80 && nat_eq (bit_and (128 + marker) 0x7f) marker

second_table : all_below 128 second_parts ≡ true
unfolding all_below
second_table = refl

masked-length : (a b c d : ℕ) (xs : List ℕ) → length (masked a b c d xs) ≡ length xs
masked-length a b c d [] = refl
masked-length a b c d (x ∷ xs) = omega (arith, masked-length b c d a xs)

-- The code takes the mask by index, the client turns it.
unmask-masked_from :
    (mask : List ℕ) (i : ℕ) (xs : List ℕ)
    → ((k : ℕ) → IsByte (byte_at mask k))
    → All IsByte xs
    → unmask mask i (
        masked
          (byte_at mask (i % 4))
          (byte_at mask (suc i % 4))
          (byte_at mask (suc (suc i) % 4))
          (byte_at mask (suc (suc (suc i)) % 4))
          xs)
      ≡ xs
unfolding unmask
unmask-masked_from mask i [] hm h = refl
unmask-masked_from mask i (x ∷ xs) hm (hx, h) =
    let turned : suc (suc (suc (suc i))) % 4 ≡ i % 4 = omega arith in
    let ih = unmask-masked_from mask (suc i) xs hm h in
    rw (bit_xor-bit_xor x (byte_at mask (i % 4)) hx (hm (i % 4)), rw turned at ih) refl

module _ (a b c d : ℕ) (ha : IsByte a) (hb : IsByte b) (hc : IsByte c) (hd : IsByte d) where
  mask-IsByte : (k : ℕ) → IsByte (byte_at (a ∷ b ∷ c ∷ d ∷ []) k)
  mask-IsByte zero = ha
  mask-IsByte (suc zero) = hb
  mask-IsByte (suc (suc zero)) = hc
  mask-IsByte (suc (suc (suc zero))) = hd
  mask-IsByte (suc (suc (suc (suc k)))) = omega arith

  unmask-masked :
      (xs : List ℕ) → All IsByte xs → unmask (a ∷ b ∷ c ∷ d ∷ []) 0 (masked a b c d xs) ≡ xs
  unmask-masked xs h = unmask-masked_from (a ∷ b ∷ c ∷ d ∷ []) 0 xs mask-IsByte h

  read_exact-masked :
      (s : Socket) (payload rest : List ℕ)
      → read_exact (length payload) (record s { incoming = masked a b c d payload ++ rest })
        ≡ (ok (masked a b c d payload), record s { incoming = rest })
  read_exact-masked s payload rest =
      rw (masked-length a b c d payload) at (read_exact-append s (masked a b c d payload) rest)

  read_payload-masked :
      (s : Socket) (fin : Bool) (opcode : ℕ) (payload rest : List ℕ)
      → All IsByte payload
      → length payload ≤ max_websocket_frame_bytes
      → read_payload fin opcode
          (length payload)
          (record s { incoming = a ∷ b ∷ c ∷ d ∷ (masked a b c d payload ++ rest) })
        ≡ (
          ok (some (record { fin = fin; opcode = opcode; payload = payload })),
          record s { incoming = rest },
        )
  unfolding read_payload
  read_payload-masked s fin opcode payload rest h small =
      let fits : ltb max_websocket_frame_bytes (length payload) ≡ false = ground arith in
      rw (fits, read_exact-masked s payload rest, unmask-masked payload h) refl

two_bytes : (n : ℕ) → n ≤ 65535 → from_be_bytes (n / 256 ∷ n % 256 ∷ []) ≡ n
two_bytes n h = omega arith

eight_bytes :
    (n : ℕ)
    → n ≤ max_websocket_frame_bytes
    → from_be_bytes (0 ∷ 0 ∷ 0 ∷ 0 ∷ n / 256 ^ 3 ∷ n / 256 ^ 2 % 256 ∷ n / 256 % 256 ∷ n % 256 ∷ [])
      ≡ n
eight_bytes n h = omega arith

-- The second byte, in its two parts.
second_byte :
    (marker : ℕ)
    → marker < 128
    → (has_bits (128 + marker) 0x80 ≡ true) × (bit_and (128 + marker) 0x7f ≡ marker)
second_byte marker h =
    let parts = all_below-elim 128 second_parts marker second_table h in
    (ground arith, (nat_eq_iff (bit_and (128 + marker) 0x7f) marker).0 (ground arith))

first_part :
    (fin : Bool) (opcode : ℕ)
    → opcode < 16
    → (has_bits (first_byte fin opcode) 0x70 ≡ false)
      × (bit_and (first_byte fin opcode) 0x0f ≡ opcode)
      × (has_bits (first_byte fin opcode) 0x80 ≡ fin)
first_part true opcode h =
    let parts = all_below-elim 16 (first_parts true) opcode (first_table true) h in
    (
      ground arith,
      (nat_eq_iff (bit_and (first_byte true opcode) 0x0f) opcode).0 (ground arith),
      ground arith,
    )
first_part false opcode h =
    let parts = all_below-elim 16 (first_parts false) opcode (first_table false) h in
    (
      ground arith,
      (nat_eq_iff (bit_and (first_byte false opcode) 0x0f) opcode).0 (ground arith),
      ground arith,
    )

module _ (s : Socket) (fin : Bool) (opcode a b c d : ℕ) (payload rest : List ℕ) (op : opcode < 16)
    (ha : IsByte a) (hb : IsByte b) (hc : IsByte c) (hd : IsByte d) (hp : All IsByte payload)
    (small : length payload ≤ max_websocket_frame_bytes) where
  abbrev mask_on : List ℕ
  mask_on = a ∷ b ∷ c ∷ d ∷ (masked a b c d payload ++ rest)

  abbrev got : Result IoError (Option Frame) × Socket
  got = (
    ok (some (record { fin = fin; opcode = opcode; payload = payload })),
    record s { incoming = rest },
  )

  -- Once the length is read, so is the frame.
  after_prefix-sized :
      (marker : ℕ) (more : List ℕ)
      → marker < 128
      → read_length marker (record s { incoming = more })
        ≡ (ok (length payload), record s { incoming = mask_on })
      → after_prefix (first_byte fin opcode) (128 + marker) (record s { incoming = more }) ≡ got
  unfolding after_prefix
  after_prefix-sized marker more hm sized =
      let (reserved, code, final) = first_part fin opcode op in
      let (masks, size) = second_byte marker hm in
      rw (reserved, masks, size, sized, code, final)
        (read_payload-masked a b c d ha hb hc hd s fin opcode payload rest hp small)

  short :
      length payload ≤ 125
      → read_length (length payload) (record s { incoming = mask_on })
        ≡ (ok (length payload), record s { incoming = mask_on })
  unfolding read_length
  short h = let test : leb (length payload) 125 ≡ true = ground arith in rw test refl

  two :
      length payload ≤ 65535
      → read_length 126
          (record s { incoming = length payload / 256 ∷ length payload % 256 ∷ mask_on })
        ≡ (ok (length payload), record s { incoming = mask_on })
  unfolding read_length read_number
  two h = ap (λ n. (ok n, record s { incoming = mask_on })) (two_bytes (length payload) h)

  eight :
      read_length 127 (record s {
        incoming =
            0
            ∷ 0
            ∷ 0
            ∷ 0
            ∷ length payload / 256 ^ 3
            ∷ length payload / 256 ^ 2 % 256
            ∷ length payload / 256 % 256
            ∷ length payload % 256
            ∷ mask_on;
      })
      ≡ (ok (length payload), record s { incoming = mask_on })
  unfolding read_length read_number
  eight = ap (λ n. (ok n, record s { incoming = mask_on })) (eight_bytes (length payload) small)

  -- A masked frame with a payload that is not too large is read as it was meant, and what follows
  -- it is left for the next read. The opcode has four bits, mask and payload are bytes.
  pub read_ws_frame-client_frame :
      read_ws_frame (record s { incoming = client_frame fin opcode a b c d payload ++ rest }) ≡ (
        ok (some (record { fin = fin; opcode = opcode; payload = payload })),
        record s { incoming = rest },
      )
  unfolding read_ws_frame from_prefix
  read_ws_frame-client_frame = elim (Bool-cases (leb (length payload) 125)) [
    | inl tiny ↦
        let le = leb→le (length payload) 125 tiny in
        rw tiny (after_prefix-sized (length payload) mask_on (omega arith) (short le))
    | inr long ↦ elim (Bool-cases (leb (length payload) 65535)) [
      | inl fits ↦
          let le = leb→le (length payload) 65535 fits in
          rw (long, fits) (after_prefix-sized 126 _ (omega arith) (two le))
      | inr wide ↦ rw (long, wide) (after_prefix-sized 127 _ (omega arith) eight)
    ]
  ]

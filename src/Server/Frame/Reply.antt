-- ===== src/Server/Frame/Reply.antt =====
-- `write_ws_frame`, read back by what RFC 6455 has a client do with a server's frame.
use Prim.Native.Nat.{bit_or}
use mathlib.Core.List.{append_assoc}
use gamchi.Prelude.{
  ℕ, suc, ◌+◌, ◌-◌, ◌*◌, ◌%◌, ◌^◌, ◌<◌, ◌≡◌, refl, ap, true, ◌&&◌, List, [], ◌∷◌, ◌++◌, Option,
  none, some, ok, arith, length, ltb, leb, nat_eq, nat_eq_iff, if◌then◌else◌, Bool-cases, inl, inr,
  leb→le,
}
use gamchi.Server.Bytes.{Socket, split_at, write_all, to_be_bytes}
use gamchi.Server.Frame.{length_bytes, write_ws_frame}
use gamchi.Server.Frame.Xor.{all_below, all_below-elim}
use gamchi.Server.Frame.RoundTrip.{split_at-append}

abbrev two_size : List ℕ → Option (ℕ × List ℕ)
two_size (high ∷ low ∷ rest) = some (high * 256 + low, rest)
two_size bytes = none

abbrev eight_size : List ℕ → Option (ℕ × List ℕ)
eight_size (a ∷ b ∷ c ∷ d ∷ e ∷ f ∷ g ∷ h ∷ rest) = some (
  a * 256 ^ 7 + b * 256 ^ 6 + c * 256 ^ 5 + d * 256 ^ 4 + e * 256 ^ 3 + f * 256 ^ 2 + g * 256 + h,
  rest,
)
eight_size bytes = none

-- The length of the payload, and the payload with what follows it.
abbrev size_and_rest : ℕ → List ℕ → Option (ℕ × List ℕ)
size_and_rest marker bytes =
    if leb marker 125
    then some (marker, bytes)
    else if nat_eq marker 126
    then two_size bytes
    else if nat_eq marker 127
    then eight_size bytes
    else none

abbrev payload_and_rest : ℕ → Option (ℕ × List ℕ) → Option (ℕ × List ℕ × List ℕ)
payload_and_rest opcode none = none
payload_and_rest opcode (some (size, bytes)) = elim (split_at size bytes) [
  | none ↦ none
  | some (payload, rest) ↦ some (opcode, payload, rest)
]

-- The opcode and the payload of an unmasked final frame, and what follows it.
abbrev pub read_server_frame : List ℕ → Option (ℕ × List ℕ × List ℕ)
read_server_frame (first ∷ marker ∷ bytes) =
    if leb 128 first && ltb first 144
    then payload_and_rest (first - 128) (size_and_rest marker bytes)
    else none
read_server_frame bytes = none

or_table : all_below 16 (λ opcode. nat_eq (bit_or 0x80 opcode) (128 + opcode)) ≡ true
unfolding all_below
or_table = refl

first_of : (opcode : ℕ) → opcode < 16 → bit_or 0x80 opcode ≡ 128 + opcode
first_of opcode h =
    (nat_eq_iff (bit_or 0x80 opcode) (128 + opcode)).0
      (all_below-elim 16 (λ k. nat_eq (bit_or 0x80 k) (128 + k)) opcode or_table h)

size-two :
    (n : ℕ) (rest : List ℕ)
    → n < 65536
    → two_size (to_be_bytes 2 (n % 2 ^ 16) ++ rest) ≡ some (n, rest)
size-two n rest h = ap (λ k. some (k, rest)) (omega arith)

size-eight :
    (n : ℕ) (rest : List ℕ)
    → n < 2 ^ 64
    → eight_size (to_be_bytes 8 (n % 2 ^ 64) ++ rest) ≡ some (n, rest)
size-eight n rest h = ap (λ k. some (k, rest)) (omega arith)

-- What a frame is on the wire.
abbrev pub server_frame : ℕ → List ℕ → List ℕ
server_frame opcode payload = bit_or 0x80 opcode ∷ (length_bytes (length payload) ++ payload)

read-payload :
    (opcode : ℕ) (payload rest : List ℕ)
    → payload_and_rest opcode (some (length payload, payload ++ rest))
      ≡ some (opcode, payload, rest)
read-payload opcode payload rest = rw (payload_and_rest, split_at-append payload rest) refl

-- A frame whose length is found is read.
read-sized :
    (opcode marker : ℕ) (bytes payload rest : List ℕ)
    → opcode < 16
    → size_and_rest marker bytes ≡ some (length payload, payload ++ rest)
    → read_server_frame (bit_or 0x80 opcode ∷ marker ∷ bytes) ≡ some (opcode, payload, rest)
read-sized opcode marker bytes payload rest op sized =
    let first = first_of opcode op in
    let known : (leb 128 (bit_or 0x80 opcode) && ltb (bit_or 0x80 opcode) 144) ≡ true =
      ground arith in
    let less : bit_or 0x80 opcode - 128 ≡ opcode = omega arith in
    rw (known, less, sized) (read-payload opcode payload rest)

pub read-server_frame :
    (opcode : ℕ) (payload rest : List ℕ)
    → opcode < 16
    → length payload < 2 ^ 64
    → read_server_frame (server_frame opcode payload ++ rest) ≡ some (opcode, payload, rest)
unfolding length_bytes
read-server_frame opcode payload rest op small = elim (Bool-cases (leb (length payload) 125)) [
  | inl tiny ↦
      let le = leb→le (length payload) 125 tiny in
      let same : length payload % 256 ≡ length payload = omega arith in
      rw (tiny, same) (read-sized opcode (length payload) _ payload rest op (rw tiny refl))
  | inr long ↦ elim (Bool-cases (leb (length payload) 65535)) [
    | inl fits ↦
        let le = leb→le (length payload) 65535 fits in
        rw (long, fits)
          (read-sized opcode 126 (to_be_bytes 2 (length payload % 2 ^ 16) ++ (payload ++ rest))
            payload rest op (size-two (length payload) (payload ++ rest) (omega arith)))
    | inr wide ↦
        rw (long, wide)
          (read-sized opcode 127 (to_be_bytes 8 (length payload % 2 ^ 64) ++ (payload ++ rest))
            payload rest op (size-eight (length payload) (payload ++ rest) small))
  ]
]

module _ (s : Socket) (opcode : ℕ) (payload : List ℕ)
    (open_end : (n : ℕ) → s.accepts n ≡ none) where
  -- Where no write fails, a frame is sent in two writes.
  pub write_ws_frame-sent : write_ws_frame opcode payload s ≡ (
    ok tt,
    record s { sent = s.sent ++ server_frame opcode payload; writes = suc (suc s.writes) },
  )
  unfolding write_ws_frame
  write_ws_frame-sent =
      rw
        (
          write_all,
          open_end s.writes,
          open_end (suc s.writes),
          append_assoc s.sent (bit_or 0x80 opcode ∷ length_bytes (length payload)) payload,
        )
        refl

  -- What `write_ws_frame` puts behind the bytes sent before, where no write fails, is a final
  -- unmasked frame with the opcode and the payload that were given, whatever is sent after it.
  -- The opcode has four bits, and the length of the payload fits an u64.
  pub read_server_frame-write_ws_frame :
      (rest : List ℕ)
      → opcode < 16
      → length payload < 2 ^ 64
      → s.sent ≡ []
      → read_server_frame ((write_ws_frame opcode payload s).1.sent ++ rest)
        ≡ some (opcode, payload, rest)
  read_server_frame-write_ws_frame rest op small fresh =
      rw (write_ws_frame-sent, fresh) (read-server_frame opcode payload rest op small)

-- ===== src/Server/Frame/Client.antt =====
-- What RFC 6455 has a client send: the frames that `read_ws_frame` is for.
use Prim.Native.Nat.{bit_xor}
use gamchi.Prelude.{
  ℕ, ◌+◌, ◌/◌, ◌%◌, ◌^◌, ◌<◌, Bool, List, [], ◌∷◌, ◌++◌, length, leb, if◌then◌else◌,
}

abbrev pub IsByte : ℕ → Type 0
IsByte b = b < 256

-- The four bytes of a mask, and one turn of them for each byte of the payload.
abbrev pub masked : ℕ → ℕ → ℕ → ℕ → List ℕ → List ℕ
masked a b c d [] = []
masked a b c d (x ∷ xs) = bit_xor x a ∷ masked b c d a xs

-- The mask bit and the length of a payload of n bytes.
abbrev pub client_length : ℕ → List ℕ
client_length n =
    if leb n 125
    then (128 + n) ∷ []
    else if leb n 65535
    then 254 ∷ n / 256 ∷ n % 256 ∷ []
    else 255 ∷ 0 ∷ 0 ∷ 0 ∷ 0 ∷ n / 256 ^ 3 ∷ n / 256 ^ 2 % 256 ∷ n / 256 % 256 ∷ n % 256 ∷ []

-- The first byte of a frame.
abbrev pub first_byte : Bool → ℕ → ℕ
first_byte fin opcode = (if fin then 128 else 0) + opcode

-- A frame with a payload of less than 2 ^ 32 bytes.
abbrev pub client_frame : Bool → ℕ → ℕ → ℕ → ℕ → ℕ → List ℕ → List ℕ
client_frame fin opcode a b c d payload =
    first_byte fin opcode
    ∷ (client_length (length payload) ++ (a ∷ b ∷ c ∷ d ∷ masked a b c d payload))

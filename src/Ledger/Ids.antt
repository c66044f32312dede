-- ===== src/Ledger/Ids.antt =====
-- Ids: their validation, and the ids that the process makes for itself.
use Prim.Native.Char.{Char, code}
use Prim.Native.Nat.{bit_xor}
use Prim.Native.String.{len, char_at}
use gamchi.Prelude.{
  ℕ, zero, suc, ◌+◌, ◌*◌, ◌/◌, ◌%◌, ◌^◌, ◌≡◌, refl, String, not, Bool, ◌||◌, List, [], ◌∷◌, ◌++◌,
  Result, ok, err, ltb, leb, nat_eq, if◌then◌else◌,
}
use gamchi.Prelude.Text.{◌<>◌, is_empty, all_chars, is_alphanumeric}
use gamchi.Ledger.Error.{LedgerError, invalid_id}

abbrev pub is_id_char : ℕ → Bool
is_id_char c = is_alphanumeric c || nat_eq c b'-' || nat_eq c b'_'

-- `len` counts bytes, as Rust's does.
unfoldable pub validate_id : String → Result LedgerError (Unit {0})
validate_id id =
    if is_empty id || ltb 128 (len id) || not (all_chars is_id_char id)
    then err (invalid_id id)
    else ok tt

-- The digits of `{:x}`, the last ones first; 32 of them hold any u128.
hex_digits : ℕ → ℕ → String → String
hex_digits zero n out = out
hex_digits (suc fuel) n out =
    let more = String.◌∷◌ (char_at "0123456789abcdef" (n % 16)) out in
    let rest = hex_digits fuel (n / 16) more in if ltb n 16 then more else rest

pub hex : ℕ → String
unfolding hex_digits
hex n = hex_digits 32 n String.[]

-- `new_id`, with the process id, the clock and the counter's value given.
unfoldable pub format_id : String → ℕ → ℕ → ℕ → String
unfolding hex
format_id prefix pid nanos n = prefix <> hex pid <> hex nanos <> hex n

format_id_runs : format_id "tu" 255 4096 17 ≡ "tuff100011"
unfolding format_id
format_id_runs = refl

-- The bytes of a code point in UTF-8.
abbrev utf8 : ℕ → List ℕ
utf8 c =
    if ltb c 0x80
    then c ∷ []
    else if ltb c 0x800
    then (0xc0 + c / 64) ∷ (0x80 + c % 64) ∷ []
    else if ltb c 0x10000
    then (0xe0 + c / 4096) ∷ (0x80 + c / 64 % 64) ∷ (0x80 + c % 64) ∷ []
    else (0xf0 + c / 262144) ∷ (0x80 + c / 4096 % 64) ∷ (0x80 + c / 64 % 64) ∷ (0x80 + c % 64) ∷ []

-- `as_bytes`.
unfoldable pub bytes : String → List ℕ
bytes String.[] = []
bytes (String.◌∷◌ c s) = utf8 (code c) ++ bytes s

abbrev pub hex_digit : ℕ → Char
hex_digit d = char_at "0123456789abcdef" d

-- `{b:02x}` of each byte.
unfoldable pub hex_bytes : List ℕ → String
hex_bytes [] = String.[]
hex_bytes (b ∷ s) = String.◌∷◌ (hex_digit (b / 16)) (String.◌∷◌ (hex_digit (b % 16)) (hex_bytes s))

-- FNV-1a on u64.
unfoldable pub fnv1a : ℕ → List ℕ → ℕ
fnv1a h [] = h
fnv1a h (b ∷ s) = fnv1a (bit_xor h b * 0x100000001b3 % 2 ^ 64) s

-- `{h:016x}`: the last `width` digits.
unfoldable pub hex_padded : ℕ → ℕ → String → String
hex_padded zero n out = out
hex_padded (suc width) n out = hex_padded width (n / 16) (String.◌∷◌ (hex_digit (n % 16)) out)

-- The file name of a client's request id: its bytes in hexadecimal, or a hash of a long one.
unfoldable pub client_filename : String → String
client_filename id =
    let s = hex_bytes (bytes id) in
    if leb (len s) 200
    then s
    else "h" <> hex_padded 16 (fnv1a 0xcbf29ce484222325 (bytes id)) String.[]

client_filename_runs : client_filename "a-1" ≡ "612d31"
unfolding client_filename hex_bytes bytes
client_filename_runs = refl

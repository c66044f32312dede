-- ===== src/Server/Bytes.antt =====
-- Byte sequences, the socket that they travel over, and what the code uses of std on them.
use gamchi.Prelude.{
  ℕ, zero, suc, ◌+◌, ◌*◌, ◌/◌, ◌%◌, Bool, String, List, [], ◌∷◌, ◌++◌, Option, none, some, Result,
  ok, err, if◌then◌else◌,
}

-- `io::Error`, by what the code asks of it: its kind is `UnexpectedEof`, or it is another one.
pub data IoError : Type 0 where
  unexpected_eof lost : IoError
  other : String → IoError

-- One end of a stream. `incoming` is what the peer sends before the stream ends, in an error where
-- `broken`; `accepts` says whether the n-th write fails, and after how many bytes.
pub record Socket : Type 0 where
  pub incoming : List ℕ
  pub broken : Bool
  pub sent : List ℕ
  pub writes : ℕ
  pub accepts : ℕ → Option ℕ

-- The first n bytes and the others.
abbrev pub split_at : ℕ → List ℕ → Option (List ℕ × List ℕ)
split_at zero bytes = some ([], bytes)
split_at (suc n) [] = none
split_at (suc n) (b ∷ bytes) = elim (split_at n bytes) [
  | none ↦ none
  | some (front, rest) ↦ some (b ∷ front, rest)
]

abbrev pub take : ℕ → List ℕ → List ℕ
take zero bytes = []
take (suc n) [] = []
take (suc n) (b ∷ bytes) = b ∷ take n bytes

-- `read_exact` into an array of n bytes. A read that fails takes all that is left.
abbrev pub read_exact : ℕ → Socket → Result IoError (List ℕ) × Socket
read_exact n s = elim (split_at n s.incoming) [
  | none ↦ (err (if s.broken then lost else unexpected_eof), record s { incoming = [] })
  | some (front, rest) ↦ (ok front, record s { incoming = rest })
]

-- `write_all`. `flush` on a socket does nothing.
abbrev pub write_all : List ℕ → Socket → Result IoError (Unit {0}) × Socket
write_all bytes s = elim (s.accepts s.writes) [
  | none ↦ (ok tt, record s { sent = s.sent ++ bytes; writes = suc s.writes })
  | some k ↦ (err lost, record s { sent = s.sent ++ take k bytes; writes = suc s.writes })
]

-- `to_be_bytes` of a number of k bytes.
abbrev pub to_be_bytes : ℕ → ℕ → List ℕ
to_be_bytes zero v = []
to_be_bytes (suc k) v = to_be_bytes k (v / 256) ++ v % 256 ∷ []

abbrev pub be_loop : ℕ → List ℕ → ℕ
be_loop sum [] = sum
be_loop sum (b ∷ bytes) = be_loop (sum * 256 + b) bytes

-- `from_be_bytes`.
abbrev pub from_be_bytes : List ℕ → ℕ
from_be_bytes bytes = be_loop 0 bytes

-- A call on the socket.
abbrev pub Io {ℓ} : Type ℓ → Type ℓ
Io A = Socket → Result IoError A × Socket

module _ {ℓ} {A : Type ℓ} where
  abbrev pub pure : A → Io A
  pure a s = (ok a, s)

  abbrev pub raise : IoError → Io A
  raise e s = (err e, s)

module _ {ℓ κ} {A : Type ℓ} {B : Type κ} where
  abbrev pub continue : Result IoError A → (A → Io B) → Io B
  continue (ok a) f s = f a s
  continue (err e) f s = (err e, s)

  infixl 5 ◌>>=◌
  abbrev pub ◌>>=◌ : Io A → (A → Io B) → Io B
  ◌>>=◌ m f s = let (r, t) = m s in continue r f t

infixl 5 ◌>>◌
abbrev pub ◌>>◌ {ℓ κ} : {A : Type ℓ} {B : Type κ} → Io A → Io B → Io B
m >> n = m >>= λ _. n

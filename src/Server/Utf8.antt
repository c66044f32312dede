-- ===== src/Server/Utf8.antt =====
-- Texts that come as bytes: `str::from_utf8` and what crates/gamchi/src/app_server.rs calls on the
-- text of an upgrade request. A text is the list of its code points.
use gamchi.Prelude.{
  ℕ, zero, suc, ◌+◌, ◌-◌, ◌*◌, ◌/◌, ◌%◌, Bool, true, false, ◌&&◌, ◌||◌, List, [], ◌∷◌, ◌++◌, Option,
  none, some, length, ltb, leb, nat_eq, if◌then◌else◌,
}
use gamchi.Prelude.Text.{is_whitespace}

-- What a code point still wants: so many bytes, the next one from `low` to `high`, with the bits
-- that are there already.
pub record Partial : Type 0 where
  pub wants : ℕ
  pub low : ℕ
  pub high : ℕ
  pub bits : ℕ

abbrev wanting : ℕ → ℕ → ℕ → ℕ → Partial
wanting wants low high bits = record { wants = wants; low = low; high = high; bits = bits }

abbrev pub at_start : Partial
at_start = wanting 0 0 0 0

-- The first byte of a code point: a code point by itself, or the start of one.
abbrev first_byte : ℕ → Option (Option ℕ × Partial)
first_byte b =
    if ltb b 0x80
    then some (some b, at_start)
    else if ltb b 0xc2
    then none
    else if ltb b 0xe0
    then some (none, wanting 1 0x80 0xbf (b - 0xc0))
    else if nat_eq b 0xe0
    then some (none, wanting 2 0xa0 0xbf 0)
    else if nat_eq b 0xed
    then some (none, wanting 2 0x80 0x9f 13)
    else if ltb b 0xf0
    then some (none, wanting 2 0x80 0xbf (b - 0xe0))
    else if nat_eq b 0xf0
    then some (none, wanting 3 0x90 0xbf 0)
    else if ltb b 0xf4
    then some (none, wanting 3 0x80 0xbf (b - 0xf0))
    else if nat_eq b 0xf4
    then some (none, wanting 3 0x80 0x8f 4)
    else none

abbrev later_byte : ℕ → ℕ → Option (Option ℕ × Partial)
later_byte zero bits = some (some bits, at_start)
later_byte (suc wants) bits = some (none, wanting (suc wants) 0x80 0xbf bits)

-- `none` where the byte cannot stand there; else the code point that it ends.
abbrev next_byte : Partial → ℕ → Option (Option ℕ × Partial)
next_byte p b = elim p.wants [
  | zero ↦ first_byte b
  | suc wants ↦
      if leb p.low b && leb b p.high then later_byte wants (p.bits * 64 + b % 64) else none
]

abbrev put : Option ℕ → Option (List ℕ) → Option (List ℕ)
put ended none = none
put none (some text) = some text
put (some c) (some text) = some (c ∷ text)

abbrev decode_from : Partial → List ℕ → Option (List ℕ)
decode_from p [] = if nat_eq p.wants 0 then some [] else none
decode_from p (b ∷ bytes) = elim (next_byte p b) [
  | none ↦ none
  | some (done, q) ↦ put done (decode_from q bytes)
]

-- `from_utf8`.
abbrev pub from_utf8 : List ℕ → Option (List ℕ)
from_utf8 bytes = decode_from at_start bytes

-- The bytes of a code point.
abbrev char_bytes : ℕ → List ℕ
char_bytes c =
    if ltb c 0x80
    then c ∷ []
    else if ltb c 0x800
    then (0xc0 + c / 64) ∷ (0x80 + c % 64) ∷ []
    else if ltb c 0x10000
    then (0xe0 + c / 4096) ∷ (0x80 + c / 64 % 64) ∷ (0x80 + c % 64) ∷ []
    else (0xf0 + c / 262144) ∷ (0x80 + c / 4096 % 64) ∷ (0x80 + c / 64 % 64) ∷ (0x80 + c % 64) ∷ []

-- `as_bytes`.
abbrev pub as_bytes : List ℕ → List ℕ
as_bytes [] = []
as_bytes (c ∷ text) = char_bytes c ++ as_bytes text

abbrev pub same : List ℕ → List ℕ → Bool
same [] [] = true
same [] (d ∷ q) = false
same (c ∷ s) [] = false
same (c ∷ s) (d ∷ q) = nat_eq c d && same s q

abbrev pub begins_with : List ℕ → List ℕ → Bool
begins_with s [] = true
begins_with [] (d ∷ q) = false
begins_with (c ∷ s) (d ∷ q) = nat_eq c d && begins_with s q

abbrev pub ends_with : List ℕ → List ℕ → Bool
ends_with [] q = same [] q
ends_with (c ∷ s) q = same (c ∷ s) q || ends_with s q

abbrev to_front : ℕ → List (List ℕ) → List (List ℕ)
to_front c [] = (c ∷ []) ∷ []
to_front c (part ∷ parts) = (c ∷ part) ∷ parts

-- `skip` of the code points belong to a separator that is found already.
abbrev split_after : List ℕ → ℕ → List ℕ → List (List ℕ)
split_after sep skip [] = [] ∷ []
split_after sep (suc skip) (c ∷ s) = split_after sep skip s
split_after sep zero (c ∷ s) =
    let found = begins_with (c ∷ s) sep in
    let parts = split_after sep (if found then length sep - 1 else 0) s in
    if found then [] ∷ parts else to_front c parts

-- `split`, at a text that is not empty.
abbrev pub split : List ℕ → List ℕ → List (List ℕ)
split sep s = split_after sep 0 s

-- `split_once` at a character.
abbrev pub split_first : ℕ → List ℕ → Option (List ℕ × List ℕ)
split_first at [] = none
split_first at (c ∷ s) =
    let rest = split_first at s in
    if nat_eq c at then some ([], s) else elim rest [ none ↦ none | some (k, v) ↦ some (c ∷ k, v) ]

abbrev drop_blank : List ℕ → List ℕ
drop_blank [] = []
drop_blank (c ∷ s) = let rest = drop_blank s in if is_whitespace c then rest else c ∷ s

abbrev unless_blank : ℕ → List ℕ → List ℕ
unless_blank c (d ∷ rest) = c ∷ d ∷ rest
unless_blank c [] = if is_whitespace c then [] else c ∷ []

abbrev drop_blank_end : List ℕ → List ℕ
drop_blank_end [] = []
drop_blank_end (c ∷ s) = unless_blank c (drop_blank_end s)

-- `trim`.
abbrev pub trimmed : List ℕ → List ℕ
trimmed s = drop_blank_end (drop_blank s)

abbrev lower : ℕ → ℕ
lower c = if leb b'A' c && leb c b'Z' then c + 32 else c

-- `eq_ignore_ascii_case`.
abbrev pub same_ignoring_case : List ℕ → List ℕ → Bool
same_ignoring_case [] [] = true
same_ignoring_case [] (d ∷ q) = false
same_ignoring_case (c ∷ s) [] = false
same_ignoring_case (c ∷ s) (d ∷ q) = nat_eq (lower c) (lower d) && same_ignoring_case s q

-- ===== src/Prelude/Text.antt =====
-- Texts as native strings that the code walks character by character.
use Prim.Native.Char.{Char, code, len_utf8}
use Prim.Native.String.{String, ◌++◌, char_at}
use mathlib.Core.Bool.{Bool, true, false, ◌&&◌, ◌||◌}
use mathlib.Core.Option.{Option, none, some}
use mathlib.Core.List.{List, [], ◌∷◌}
use Prim.Native.Nat.{ℕ, zero, suc, ◌-◌, ◌/◌, ◌%◌}
use gamchi.Prelude.Tests.{ltb, leb, nat_eq, if◌then◌else◌}
pub use Prim.Native.String.{◌++◌ as ◌<>◌}

-- `is_empty`.
abbrev pub is_empty : String → Bool
is_empty String.[] = true
is_empty (String.◌∷◌ c s) = false

-- `chars().all(p)`, on code points.
abbrev pub all_chars : (ℕ → Bool) → String → Bool
all_chars p String.[] = true
all_chars p (String.◌∷◌ c s) = p (code c) && all_chars p s

abbrev pub codes : String → List ℕ
codes String.[] = []
codes (String.◌∷◌ first rest) = code first ∷ codes rest

abbrev pub is_digit : ℕ → Bool
is_digit c = leb b'0' c && leb c b'9'

abbrev pub is_alphabetic : ℕ → Bool
is_alphabetic c = leb b'a' c && leb c b'z' || (leb b'A' c && leb c b'Z')

-- `is_ascii_alphanumeric`.
abbrev pub is_alphanumeric : ℕ → Bool
is_alphanumeric c = is_alphabetic c || is_digit c

-- `char::is_whitespace`, the code points of Unicode's White_Space.
abbrev pub is_whitespace : ℕ → Bool
is_whitespace c =
    leb 9 c && leb c 13
    || nat_eq c 32
    || nat_eq c 0x85
    || nat_eq c 0xa0
    || nat_eq c 0x1680
    || (leb 0x2000 c && leb c 0x200a)
    || nat_eq c 0x2028
    || nat_eq c 0x2029
    || nat_eq c 0x202f
    || nat_eq c 0x205f
    || nat_eq c 0x3000

-- `to_ascii_lowercase`.
abbrev pub to_lower : String → String
to_lower String.[] = String.[]
to_lower (String.◌∷◌ c s) =
    String.◌∷◌
      (if leb b'A' (code c) && leb (code c) b'Z'
        then char_at "abcdefghijklmnopqrstuvwxyz" (code c - b'A')
        else c)
      (to_lower s)

-- `starts_with`.
abbrev pub starts_with : String → String → Bool
starts_with _ String.[] = true
starts_with String.[] (String.◌∷◌ d p) = false
starts_with (String.◌∷◌ c s) (String.◌∷◌ d p) = nat_eq (code c) (code d) && starts_with s p

-- `contains`.
abbrev pub has_text : String → String → Bool
has_text String.[] p = starts_with String.[] p
has_text (String.◌∷◌ c s) p = starts_with (String.◌∷◌ c s) p || has_text s p

-- `truncate`, a character at a time. Rust panics where the bound lies inside a character.
abbrev pub truncate : ℕ → String → String
truncate b String.[] = String.[]
truncate b (String.◌∷◌ c s) =
    let rest = truncate (b - len_utf8 c) s in
    if leb (len_utf8 c) b then String.◌∷◌ c rest else String.[]

-- `join`.
abbrev pub join : String → List String → String
join sep [] = ""
join sep (s ∷ []) = s
join sep (s ∷ t ∷ rest) = s ++ sep ++ join sep (t ∷ rest)

abbrev pub trim_start : String → String
trim_start String.[] = String.[]
trim_start (String.◌∷◌ c s) =
    let rest = trim_start s in if is_whitespace (code c) then rest else String.◌∷◌ c s

-- The character is dropped where only white space follows it.
abbrev pub cons_trim : Char → String → String
cons_trim c rest = if is_whitespace (code c) && is_empty rest then String.[] else String.◌∷◌ c rest

abbrev pub trim_end : String → String
trim_end String.[] = String.[]
trim_end (String.◌∷◌ c s) = cons_trim c (trim_end s)

-- `trim`.
abbrev pub trim : String → String
trim s = trim_end (trim_start s)

-- A character in front of the first line.
abbrev pub into_first : Char → List String → List String
into_first c [] = String.◌∷◌ c String.[] ∷ []
into_first c (l ∷ rest) = String.◌∷◌ c l ∷ rest

-- `lines`: a line ends at `\n` or `\r\n`, and the last one may have no end.
abbrev pub lines : String → List String
lines String.[] = []
lines (String.◌∷◌ c s) =
    let rest = lines s in
    if nat_eq (code c) 10
    then "" ∷ rest
    else if nat_eq (code c) 13 && starts_with s "\n"
    then rest
    else into_first c rest

-- `split_once(':')`, and with another character of one byte.
abbrev pub split_once : ℕ → String → Option (String × String)
split_once at String.[] = none
split_once at (String.◌∷◌ c s) =
    let rest = split_once at s in
    if nat_eq (code c) at
    then some ("", s)
    else elim rest [ none ↦ none | some (k, v) ↦ some (String.◌∷◌ c k, v) ]

-- Decimal digits, the last ones first.
abbrev pub decimal_digits : ℕ → ℕ → String → String
decimal_digits zero n out = out
decimal_digits (suc fuel) n out =
    let more = String.◌∷◌ (char_at "0123456789" (n % 10)) out in
    let rest = decimal_digits fuel (n / 10) more in if ltb n 10 then more else rest

-- `{}` of a u64, which has at most 20 digits.
abbrev pub decimal : ℕ → String
decimal n = decimal_digits 20 n ""

-- `Path::is_absolute` on Unix.
abbrev pub is_absolute : String → Bool
is_absolute path = starts_with path "/"

-- `Path::join` of a relative name.
abbrev pub join_path : String → String → String
join_path String.[] name = name
join_path (String.◌∷◌ c String.[]) name =
    if nat_eq (code c) b'/'
    then String.◌∷◌ c name
    else String.◌∷◌ c (String.◌∷◌ (char_at "/" 0) name)
join_path (String.◌∷◌ c (String.◌∷◌ d s)) name = String.◌∷◌ c (join_path (String.◌∷◌ d s) name)

-- What `{:?}` writes for a character of a text. Characters that do not print are left as they are.
abbrev pub escaped : Char → String
escaped c =
    if nat_eq (code c) b'"'
    then "\\\""
    else if nat_eq (code c) 92
    then "\\\\"
    else if nat_eq (code c) 10
    then "\\n"
    else if nat_eq (code c) 13
    then "\\r"
    else if nat_eq (code c) 9
    then "\\t"
    else String.◌∷◌ c String.[]

abbrev pub escape : String → String
escape String.[] = String.[]
escape (String.◌∷◌ c s) = escaped c ++ escape s

-- `{:?}` of a text.
abbrev pub quoted : String → String
quoted s = "\"" ++ escape s ++ "\""

-- ===== src/Ledger/Process.antt =====
-- Is a process alive (`process_alive` on Linux, and what it reads under /proc)?
use gamchi.Prelude.{
  ℕ, ◌+◌, ◌-◌, ◌*◌, ◌/◌, ◌^◌, String, Bool, false, not, ◌&&◌, Option, none, some, List, [], ◌∷◌,
  get_elem?, ltb, nat_eq, if◌then◌else◌,
}
use gamchi.Prelude.Text.{codes, is_digit, is_whitespace}

-- What /proc and `sysconf` hold: the text of /proc/PID/stat, the clock ticks in a second (`none`
-- if not positive), and the boot time of /proc/stat (`none` if there is no readable line).
pub record ProcFs : Type 0 where
  pub stat : ℕ → Option String
  pub clock_ticks : Option ℕ
  pub btime : Option ℕ

-- `rsplit_once(')')?.1`: what follows the last one.
unfoldable pub after_last : ℕ → List ℕ → Option (List ℕ)
after_last c [] = none
after_last c (x ∷ s) = elim (after_last c s) [
  | some rest ↦ some rest
  | none ↦ if nat_eq x c then some s else none
]

-- `trim_start`.
unfoldable pub trim_start : List ℕ → List ℕ
trim_start [] = []
trim_start (x ∷ s) = if is_whitespace x then trim_start s else x ∷ s

-- `split_whitespace`: `word` is the reversed start of the word that is being read.
abbrev pub push_word : List ℕ → List (List ℕ) → List (List ℕ)
push_word [] rest = rest
push_word (c ∷ word) rest = (c ∷ word) ∷ rest

-- A word and the words after it.
unfoldable pub words_from : List ℕ → List ℕ × List (List ℕ)
words_from [] = ([], [])
words_from (c ∷ s) =
    let (word, rest) = words_from s in
    if is_whitespace c then ([], push_word word rest) else (c ∷ word, rest)

unfoldable pub split_whitespace : List ℕ → List (List ℕ)
split_whitespace s = let (word, rest) = words_from s in push_word word rest

-- `str::parse::<u64>`: an optional plus sign, at least one digit, no overflow.
unfoldable pub read_digits : ℕ → List ℕ → Option ℕ
read_digits n [] = some n
read_digits n (c ∷ s) =
    let m = n * 10 + (c - b'0') in
    let rest = read_digits m s in if is_digit c && ltb m (2 ^ 64) then rest else none

abbrev pub read_digits_nonempty : List ℕ → Option ℕ
read_digits_nonempty [] = none
read_digits_nonempty (c ∷ s) = read_digits 0 (c ∷ s)

unfoldable pub parse_u64 : List ℕ → Option ℕ
parse_u64 [] = none
parse_u64 (c ∷ s) = if nat_eq c b'+' then read_digits_nonempty s else read_digits 0 (c ∷ s)

abbrev stat_fields : List (List ℕ) → Option (ℕ × ℕ)
stat_fields ((state ∷ word) ∷ fields) = elim (get_elem? fields 18) [
  | none ↦ none
  | some field ↦ elim (parse_u64 field) [ none ↦ none | some ticks ↦ some (state, ticks) ]
]
stat_fields _ = none

-- The state letter and the start time of a process, in ticks after the boot.
unfoldable pub parse_proc_stat : List ℕ → Option (ℕ × ℕ)
parse_proc_stat body = elim (after_last b')' body) [
  | none ↦ none
  | some rest ↦ stat_fields (split_whitespace (trim_start rest))
]

abbrev started_late : Option ℕ → Option ℕ → Bool
started_late (some epoch) (some started) = ltb epoch started
started_late _ _ = false

unfoldable pub proc_stat_alive : List ℕ → Option ℕ → Option ℕ → Bool
proc_stat_alive body start_epoch_secs not_started_after = elim (parse_proc_stat body) [
  | none ↦ false
  | some (state, ticks) ↦
      if nat_eq state b'Z' then false else not (started_late not_started_after start_epoch_secs)
]

-- `saturating_add` on u64.
abbrev saturating_add : ℕ → ℕ → ℕ
saturating_add a b = if ltb (a + b) (2 ^ 64) then a + b else 2 ^ 64 - 1

unfoldable pub linux_start_epoch_secs : ProcFs → ℕ → Option ℕ
linux_start_epoch_secs p start_ticks = elim p.clock_ticks [
  | none ↦ none
  | some ticks ↦ elim p.btime [
    | none ↦ none
    | some btime ↦ some (saturating_add btime (start_ticks / ticks))
  ]
]

abbrev start_epoch : ProcFs → List ℕ → Option ℕ
start_epoch p body = elim (parse_proc_stat body) [
  | none ↦ none
  | some (state, ticks) ↦ linux_start_epoch_secs p ticks
]

unfoldable pub process_alive : ProcFs → ℕ → Option ℕ → Bool
process_alive p pid not_started_after = if nat_eq pid 0 then false else elim (p.stat pid) [
  | none ↦ false
  | some body ↦ proc_stat_alive (codes body) (start_epoch p (codes body)) not_started_after
]

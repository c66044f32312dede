-- ===== src/Worker.antt =====
-- The flags of the worker's commands: crates/gamchi/src/worker.rs.
pub mod Unblank
use Prim.Native.Char.{code}
use gamchi.Prelude.{
  ℕ, ◌+◌, ◌-◌, ◌*◌, ◌^◌, String, ◌==◌, Bool, true, false, not, ◌||◌, List, [], ◌∷◌, ◌++◌, Option,
  none, some, Result, ok, err, and_then, ltb, nat_eq, if◌then◌else◌,
}
use gamchi.Prelude.Text.{is_empty, all_chars, is_digit, starts_with, trim, join}
use gamchi.Wire.{UnsupportedValueError, ApprovalPolicy, never, parse_approval_policy}

pub record Flags : Type 0 where
  pub json : Bool
  pub home : Option String
  pub cwd : Option String
  pub turn_id : String
  pub thread_id : String
  pub timeout_ms : Option ℕ
  pub prompt : String
  pub approval : ApprovalPolicy
  pub request_id : String
  pub decision : String
  pub model : String
  pub effort : String

-- The flags that a value follows.
pub data Valued : Type 0 where
  at_home in_cwd of_turn of_thread timeout policy of_request to_decide with_model with_effort :
      Valued

-- An argument by what `parse_flags` does with it.
pub data Argument : Type 0 where
  json_flag dashes unknown word : Argument
  valued : Valued → Argument

abbrev pub valued_flags : List (String × Valued)
valued_flags =
    ("--home", at_home)
    ∷ ("--cwd", in_cwd)
    ∷ ("--turn-id", of_turn)
    ∷ ("--thread-id", of_thread)
    ∷ ("--timeout-ms", timeout)
    ∷ ("--approval-policy", policy)
    ∷ ("--request-id", of_request)
    ∷ ("--decision", to_decide)
    ∷ ("--model", with_model)
    ∷ ("--effort", with_effort)
    ∷ []

abbrev pub other_argument : String → Argument
other_argument arg =
    if arg == "--json"
    then json_flag
    else if arg == "--"
    then dashes
    else if starts_with arg "-"
    then unknown
    else word

abbrev pub argument_in : List (String × Valued) → String → Argument
argument_in [] arg = other_argument arg
argument_in ((name, flag) ∷ flags) arg =
    let rest = argument_in flags arg in if arg == name then valued flag else rest

abbrev pub argument : String → Argument
argument arg = argument_in valued_flags arg

abbrev pub digits_value : ℕ → String → ℕ
digits_value sum String.[] = sum
digits_value sum (String.◌∷◌ c s) = digits_value (sum * 10 + (code c - b'0')) s

abbrev pub u64_digits : String → Option ℕ
u64_digits s =
    if is_empty s || not (all_chars is_digit s)
    then none
    else if ltb (digits_value 0 s) (2 ^ 64)
    then some (digits_value 0 s)
    else none

-- `parse::<u64>`, which takes a plus sign.
abbrev pub parse_u64 : String → Option ℕ
parse_u64 String.[] = none
parse_u64 (String.◌∷◌ c s) =
    if nat_eq (code c) b'+' then u64_digits s else u64_digits (String.◌∷◌ c s)

abbrev pub on_timeout : Flags → Option ℕ → Result ℕ Flags
on_timeout f none = err 1
on_timeout f (some ms) = ok (record f { timeout_ms = some ms })

abbrev pub on_policy : Flags → Result UnsupportedValueError ApprovalPolicy → Result ℕ Flags
on_policy f (err e) = err 1
on_policy f (ok approval) = ok (record f { approval = approval })

unfoldable pub set_flag : Valued → String → Flags → Result ℕ Flags
set_flag at_home value f = ok (record f { home = some value })
set_flag in_cwd value f = ok (record f { cwd = some value })
set_flag of_turn value f = ok (record f { turn_id = value })
set_flag of_thread value f = ok (record f { thread_id = value })
set_flag timeout value f = on_timeout f (parse_u64 value)
set_flag policy value f = on_policy f (parse_approval_policy value)
set_flag of_request value f = ok (record f { request_id = value })
set_flag to_decide value f = ok (record f { decision = value })
set_flag with_model value f =
    if is_empty (trim value) then err 1 else ok (record f { model = value })
set_flag with_effort value f =
    if is_empty (trim value) then err 1 else ok (record f { effort = value })

-- What `parse_flags` has before its loop.
abbrev pub no_flags : Flags
no_flags = record {
  json = false;
  home = none;
  cwd = none;
  turn_id = "";
  thread_id = "";
  timeout_ms = none;
  prompt = "";
  approval = never;
  request_id = "";
  decision = "";
  model = "";
  effort = "";
}

abbrev pub finished : List String → Flags → Result ℕ Flags
finished words f = ok (record f { prompt = join " " words })

-- The loop of `parse_flags`, with the words of the prompt so far. The last argument has no value.
unfoldable pub parse_loop : Bool → List String → Flags → List String → Result ℕ Flags
parse_loop take_prompt words f [] = finished words f
parse_loop take_prompt words f (arg ∷ []) = elim (argument arg) [
  | json_flag ↦ finished words (record f { json = true })
  | dashes ↦ finished words f
  | unknown ↦ err 1
  | word ↦ if take_prompt then finished (words ++ arg ∷ []) f else err 1
  | valued flag ↦ err 1
]
parse_loop take_prompt words f (arg ∷ next ∷ args) = elim (argument arg) [
  | json_flag ↦ parse_loop take_prompt words (record f { json = true }) (next ∷ args)
  | dashes ↦ finished (words ++ next ∷ args) f
  | unknown ↦ err 1
  | word ↦ elim take_prompt [
    | true ↦ parse_loop take_prompt (words ++ arg ∷ []) f (next ∷ args)
    | false ↦ err 1
  ]
  | valued flag ↦ and_then (set_flag flag next f) (λ g. parse_loop take_prompt words g args)
]

unfoldable pub parse_flags : List String → Bool → Result ℕ Flags
parse_flags args take_prompt = parse_loop take_prompt [] no_flags args

-- ===== src/Server/Rpc/Params.antt =====
-- What the app server reads of a request's params: crates/gamchi/src/app_server.rs.
use gamchi.Prelude.{
  String, ◌==◌, Bool, true, false, not, ◌&&◌, ◌||◌, Option, none, some, List, [], ◌∷◌, Result, ok,
  err, map_err, and_then, if◌then◌else◌,
}
use gamchi.Prelude.Text.{◌<>◌, is_empty, all_chars, is_whitespace, is_absolute, join}
use gamchi.Wire.{
  ApprovalPolicy, ThreadSandbox, parse_approval_policy, parse_thread_sandbox,
  parse_turn_sandbox_type, to_thread_sandbox,
}
use gamchi.Prelude.Json.{Value, null, string, get, get_in, as_array, text_in}
use gamchi.Ops.Host.{Host, unsupported_text}

-- `UNENFORCEABLE_EXTRA_FIELD_NAMES`.
abbrev pub unenforceable_extra_field_names : List String
unenforceable_extra_field_names =
    "writableRoots" ∷ "networkAccess" ∷ "excludeSlashTmp" ∷ "excludeTmpdirEnvVar" ∷ []

abbrev pub is_some {ℓ} : {A : Type ℓ} → Option A → Bool
is_some none = false
is_some (some a) = true

-- The loop over the names.
unfoldable pub reject_fields : List String → Value → Result String (Unit {0})
reject_fields [] v = ok tt
reject_fields (name ∷ names) v =
    let later = reject_fields names v in
    if is_some (get v name) then err ("unenforceable extra spawn field " <> name) else later

unfoldable pub reject_unenforceable_extras : Value → Result String (Unit {0})
reject_unenforceable_extras v = reject_fields unenforceable_extra_field_names v

-- Whether the value is there, and is no empty array.
abbrev pub is_nonempty : Option Value → Bool
is_nonempty none = false
is_nonempty (some v) = elim (as_array v) [
  | none ↦ true
  | some vs ↦ elim vs [ [] ↦ false | w ∷ ws ↦ true ]
]

unfoldable pub opt_out_is_nonempty : Value → Bool
opt_out_is_nonempty params =
    is_nonempty (get params "optOutNotificationMethods")
    || is_nonempty (get_in (get params "capabilities") "optOutNotificationMethods")

unfoldable pub required : String → Value → String → Result String String
required reason v key = elim (text_in (get v key)) [ none ↦ err reason | some s ↦ ok s ]

abbrev pub start_instructions : Option Value → Result String String
start_instructions none = ok ""
start_instructions (some null) = ok ""
start_instructions (some (string s)) =
    if is_empty s
    then ok ""
    else if all_chars is_whitespace s
    then err "developerInstructions whitespace-only"
    else ok s
start_instructions (some v) = err "developerInstructions must be a string or null"

unfoldable pub parse_start_developer_instructions : Value → Result String String
parse_start_developer_instructions params = start_instructions (get params "developerInstructions")

abbrev pub resume_instructions : Option Value → String → Result String (Unit {0})
resume_instructions none stored = ok tt
resume_instructions (some null) stored = ok tt
resume_instructions (some (string s)) stored =
    if is_empty s && is_empty stored
    then ok tt
    else if is_empty s
    then err "developerInstructions change refused"
    else if all_chars is_whitespace s
    then err "developerInstructions whitespace-only"
    else if s == stored && not (is_empty stored)
    then ok tt
    else err "developerInstructions change refused"
resume_instructions (some v) stored = err "developerInstructions must be a string or null"

unfoldable pub check_resume_developer_instructions : Value → String → Result String (Unit {0})
check_resume_developer_instructions params stored =
    resume_instructions (get params "developerInstructions") stored

-- The text of one element of a turn's input.
unfoldable pub input_text : Value → Result String String
input_text el =
    let ty : String = elim (text_in (get el "type")) [ none ↦ "" | some name ↦ name ] in
    if not (ty == "text")
    then err ("unsupported input type " <> ty)
    else required "text required" el "text"

unfoldable pub input_texts : List Value → Result String (List String)
input_texts [] = ok []
input_texts (el ∷ els) =
    and_then (input_text el) (λ text. and_then (input_texts els) (λ texts. ok (text ∷ texts)))

abbrev pub join_texts : List Value → Result String String
join_texts [] = err "input required"
join_texts (el ∷ els) = and_then (input_texts (el ∷ els)) (λ texts. ok (join "\n" texts))

unfoldable pub prompt_from_input : Value → Result String String
prompt_from_input input = elim (as_array input) [
  | none ↦ err "input required"
  | some els ↦ join_texts els
]

-- The approval policy that the params name, or else the one given.
unfoldable pub approval_or : ApprovalPolicy → Value → Result String ApprovalPolicy
approval_or otherwise params = elim (text_in (get params "approvalPolicy")) [
  | none ↦ ok otherwise
  | some v ↦ map_err unsupported_text (parse_approval_policy v)
]

-- The sandbox of a new thread.
unfoldable pub sandbox_or : ThreadSandbox → Value → Result String ThreadSandbox
sandbox_or otherwise params = elim (text_in (get params "sandbox")) [
  | none ↦ ok otherwise
  | some v ↦ map_err unsupported_text (parse_thread_sandbox v)
]

-- The sandbox of a turn.
unfoldable pub turn_sandbox_or : ThreadSandbox → Value → Result String ThreadSandbox
turn_sandbox_or otherwise params = elim (get params "sandboxPolicy") [
  | none ↦ ok otherwise
  | some policy ↦ and_then (required "sandboxPolicy.type required" policy "type") (λ ty.
      and_then (map_err unsupported_text (parse_turn_sandbox_type ty))
        (λ sandbox. ok (to_thread_sandbox sandbox)))
]

abbrev pub absolute_cwd : String → Result String String
absolute_cwd path = if is_absolute path then ok path else err "cwd must be absolute"

-- The directory of a new thread: the one named, or the server's own.
unfoldable pub start_cwd : Host → Value → Result String String
start_cwd host params = elim (text_in (get params "cwd")) [
  | some path ↦ absolute_cwd path
  | none ↦ and_then host.current_dir absolute_cwd
]

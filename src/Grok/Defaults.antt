-- ===== src/Grok/Defaults.antt =====
-- The model and effort of a spawn: crates/adapter-grok/src/defaults.rs.
pub mod Trim
pub mod Frozen
use Prim.Native.Char.{Char, code}
use gamchi.Prelude.{
  ℕ, suc, ◌+◌, Bool, true, false, not, ◌&&◌, ◌||◌, String, ◌==◌, List, [], ◌∷◌, Option, none, some,
  Result, ok, err, and_then, nat_eq, if◌then◌else◌,
}
use gamchi.Prelude.Text.{◌<>◌, is_empty, starts_with, trim, lines, split_once, decimal}
use gamchi.Wire.{contains}
use gamchi.Ledger.State.{Body, good, garbled, unreadable}

abbrev pub builtin_model : String
builtin_model = "grok-4.6"

abbrev pub builtin_effort : String
builtin_effort = "high"

abbrev pub grok_alias : String
grok_alias = "grok"

pub record HomeDefaults : Type 0 where
  pub default_model : Option String
  pub default_effort : Option String

pub data ResolveError : Type 0 where
  invalid_config : (reason : String) → ResolveError
  model_mismatch : (requested frozen : String) → ResolveError

abbrev pub no_defaults : HomeDefaults
no_defaults = record { default_model = none; default_effort = none }

-- The text between a first and a last quote, where the text starts and ends with that quote.
abbrev pub until_quote : ℕ → String → Option String
until_quote q String.[] = none
until_quote q (String.◌∷◌ c String.[]) = if nat_eq (code c) q then some "" else none
until_quote q (String.◌∷◌ c (String.◌∷◌ d s)) = elim (until_quote q (String.◌∷◌ d s)) [
  | none ↦ none
  | some inside ↦ some (String.◌∷◌ c inside)
]

abbrev pub is_quote : ℕ → Bool
is_quote c = nat_eq c b'"' || nat_eq c 39

unfoldable pub unquote : String → String
unquote String.[] = ""
unquote (String.◌∷◌ c s) =
    if is_quote (code c)
    then elim (until_quote (code c) s) [ none ↦ String.◌∷◌ c s | some inside ↦ inside ]
    else String.◌∷◌ c s

abbrev pub is_skipped : String → Bool
is_skipped trimmed = is_empty trimmed || starts_with trimmed "#" || trimmed == "---"

abbrev pub is_malformed : String → String → Bool
is_malformed line trimmed = starts_with line " " || starts_with line "\t" || starts_with trimmed "-"

abbrev pub malformed : ℕ → ResolveError
malformed idx = invalid_config ("malformed config.yaml line " <> decimal (idx + 1))

-- A key's value put into the defaults.
abbrev pub set_key : String → String → HomeDefaults → Result ResolveError HomeDefaults
set_key key value defaults =
    if key == "default_model"
    then ok (record defaults { default_model = some value })
    else if key == "default_effort"
    then ok (record defaults { default_effort = some value })
    else err (invalid_config ("unknown key " <> key <> " in config.yaml"))

-- A line that has a key: the keys seen so far, and the defaults.
abbrev pub Seen : Type 0
Seen = List String × HomeDefaults

abbrev pub take_entry : String → String → Seen → Result ResolveError Seen
take_entry key value (seen, defaults) =
    if contains seen key
    then err (invalid_config ("duplicate key " <> key <> " in config.yaml"))
    else and_then (set_key key (unquote value) defaults) (λ d. ok (key ∷ seen, d))

abbrev pub take_pair : ℕ → Option (String × String) → Seen → Result ResolveError Seen
take_pair idx none seen = err (malformed idx)
take_pair idx (some (key, value)) seen = take_entry (trim key) (trim value) seen

-- One round of the loop over the lines.
unfoldable pub take_line : ℕ → String → Seen → Result ResolveError Seen
take_line idx line seen =
    let trimmed = trim line in
    if is_skipped trimmed
    then ok seen
    else if is_malformed line trimmed
    then err (malformed idx)
    else take_pair idx (split_once b':' trimmed) seen

unfoldable pub take_lines : ℕ → List String → Seen → Result ResolveError Seen
take_lines idx [] seen = ok seen
take_lines idx (line ∷ rest) seen =
    and_then (take_line idx line seen) (λ next. take_lines (suc idx) rest next)

unfoldable pub parse_home_defaults : String → Result ResolveError HomeDefaults
parse_home_defaults raw = and_then (take_lines 0 (lines raw) ([], no_defaults)) (λ seen. ok seen.1)

-- `config` is the file at `<home>/config.yaml`, if there is one; `os` is the text of an error.
unfoldable pub load_home_defaults :
    (os : String) → Option (Body String) → Result ResolveError HomeDefaults
load_home_defaults os none = ok no_defaults
load_home_defaults os (some (good body)) = parse_home_defaults body
load_home_defaults os (some _) = err (invalid_config ("cannot read config.yaml: " <> os))

abbrev pub present_field : String → Option String
present_field raw = if is_empty raw then none else some raw

unfoldable pub normalize_present : String → Result ResolveError String
normalize_present raw =
    let trimmed = trim raw in
    if is_empty trimmed
    then err (invalid_config "blank model or effort")
    else if trimmed == grok_alias
    then ok builtin_model
    else ok trimmed

unfoldable pub resolve_layer :
    (explicit config : Option String) → (builtin : String) → Result ResolveError String
resolve_layer (some value) config builtin = normalize_present value
resolve_layer none (some value) builtin = normalize_present value
resolve_layer none none builtin = ok builtin

unfoldable pub resolve_first_turn :
    (model effort : String) → HomeDefaults → Result ResolveError (String × String)
resolve_first_turn model effort defaults =
    and_then (resolve_layer (present_field model) defaults.default_model builtin_model) (λ m.
      and_then (resolve_layer (present_field effort) defaults.default_effort builtin_effort)
        (λ e. ok (m, e)))

-- The model of a follow-up, with the frozen one given.
unfoldable pub follow_up_model : Option String → String → Result ResolveError String
follow_up_model none frozen = ok frozen
follow_up_model (some requested) frozen =
    and_then (normalize_present requested)
      (λ r. if r == frozen then ok r else err (model_mismatch r frozen))

unfoldable pub follow_up_effort : Option String → String → HomeDefaults → Result ResolveError String
follow_up_effort (some requested) previous defaults = normalize_present requested
follow_up_effort none previous defaults =
    if is_empty previous
    then resolve_layer none defaults.default_effort builtin_effort
    else ok previous

unfoldable pub resolve_follow_up :
    (requested_model requested_effort frozen_model previous_effort : String)
    → HomeDefaults
    → Result ResolveError (String × String)
resolve_follow_up requested_model requested_effort frozen_model previous_effort defaults =
    and_then (normalize_present frozen_model) (λ frozen.
      and_then (follow_up_model (present_field requested_model) frozen) (λ model.
        and_then (follow_up_effort (present_field requested_effort) previous_effort defaults)
          (λ effort. ok (model, effort))))

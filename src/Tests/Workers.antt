-- ===== src/Tests/Workers.antt =====
-- Flags of the worker at fixed arguments.
use gamchi.Prelude.{◌≡◌, refl, true, false, none, some, [], ◌∷◌, ok, err}
use gamchi.Wire.{untrusted, parse_approval_policy}
use gamchi.Worker.{no_flags, parse_u64, set_flag, parse_loop, parse_flags}

-- What follows two dashes is prompt, flags too.
start_flags :
    parse_flags
      ("--json" ∷ "fix" ∷ "--approval-policy" ∷ "untrusted" ∷ "--model" ∷ "grok-4" ∷ "the" ∷ "--"
        ∷ "--home" ∷ [])
      true
    ≡ ok (record no_flags {
      json = true;
      approval = untrusted;
      model = "grok-4";
      prompt = "fix the --home";
    })
unfolding parse_flags parse_loop set_flag parse_approval_policy
start_flags = refl

-- A word where no prompt is taken, a flag without its value, and one that is not known.
wrong_flags :
    (parse_flags ("--json" ∷ "fix" ∷ []) false ≡ err 1)
    × (parse_flags ("--json" ∷ "--home" ∷ []) true ≡ err 1)
    × (parse_flags ("--yes" ∷ "--json" ∷ []) true ≡ err 1)
    × (parse_flags ("--model" ∷ " " ∷ []) true ≡ err 1)
    × (parse_flags ("--timeout-ms" ∷ "5s" ∷ []) false ≡ err 1)
unfolding parse_flags parse_loop set_flag
wrong_flags = (refl, refl, refl, refl, refl)

-- A flag takes even another flag as its value.
flag_as_value :
    parse_flags ("--turn-id" ∷ "--json" ∷ []) false ≡ ok (record no_flags { turn_id = "--json" })
unfolding parse_flags parse_loop set_flag
flag_as_value = refl

timeouts :
    (parse_u64 "+50" ≡ some 50)
    × (parse_u64 "+" ≡ none)
    × (parse_u64 "18446744073709551615" ≡ some 18446744073709551615)
    × (parse_u64 "18446744073709551616" ≡ none)
timeouts = (refl, refl, refl, refl)

-- ===== src/Tests/Adapter.antt =====
-- The Grok adapter: a turn's items, tool call ids, the frozen model, and a spawn.
use gamchi.Prelude.{String, ◌≡◌, refl, ◌&&◌, true, none, some, [], ◌∷◌, ok, is_ok}
use gamchi.Prelude.Assoc.{lookup, insert}
use gamchi.Wire.{workspace_write, never, contains}
use gamchi.Ledger.Ids.{validate_id}
use gamchi.Grok.Tool.{SessionUpdate, ToolKind, ToolCallStatus, sanitize_id, map_kind}
use gamchi.Grok.Map.{
  Mapper, new, apply, finish_agent_message, apply_tool_call, store_tool, reject_fatal,
}
use gamchi.Grok.Map.Sound.{Runs}
use gamchi.Grok.Map.Runs.{Reach, Finishes, Reach-apply, Reach-finish}
use gamchi.Grok.Tool.Ids.{sanitize_id-IsValid}
use gamchi.Grok.Defaults.{
  no_defaults, resolve_first_turn, resolve_follow_up, follow_up_model, follow_up_effort,
  normalize_present, resolve_layer,
}
use gamchi.Grok.Defaults.Frozen.{first_turn-freezes}
use gamchi.Grok.Launch.{LaunchRequest, plan_launch, first_set, launch_args}
use gamchi.Grok.Launch.Enforced.{plan_launch-ok, plan_launch-always_approve}

abbrev first : Mapper
first = new "hi"

-- The id has a character that the ledger does not allow.
abbrev edit_call : SessionUpdate
edit_call = SessionUpdate.tool_call (record {
  tool_call_id = "call:1";
  title = "edit a file";
  kind = ToolKind.edit;
  status = ToolCallStatus.in_progress;
  raw_input = none;
})

abbrev edit_done : SessionUpdate
edit_done = SessionUpdate.tool_call_update (record {
  tool_call_id = "call:1";
  kind = none;
  status = some ToolCallStatus.completed;
  title = none;
})

abbrev second : Mapper
second = record {
  items =
      record { id = "user-message"; item_type = "userMessage"; text = "hi"; status = "completed" }
      ∷ record {
        id = "call_1";
        item_type = "fileChange";
        text = "edit a file";
        status = "inProgress";
      }
      ∷ [];
  tools = ("call_1", 1) ∷ [];
}

edits :
    apply edit_call first
    ≡ some (
      ok (
          record {
            id = "call_1";
            item_type = "fileChange";
            text = "edit a file";
            status = "inProgress";
          }
          ∷ []),
      second,
    )
unfolding apply apply_tool_call store_tool map_kind reject_fatal sanitize_id new lookup insert
edits = refl

reached : Reach second
reached = Reach.applied edit_call (Reach.start "hi") edits

Reach-apply_example : Runs (apply edit_done second)
Reach-apply_example = Reach-apply reached edit_done

Reach-finish_example : Finishes second (finish_agent_message second)
Reach-finish_example = Reach-finish reached

sanitize_id-IsValid_example : validate_id (sanitize_id "call:1/é") ≡ ok tt
sanitize_id-IsValid_example = sanitize_id-IsValid "call:1/é"

first_turn : resolve_first_turn " grok " "" no_defaults ≡ ok ("grok-4.6", "high")
unfolding resolve_first_turn resolve_layer normalize_present
first_turn = refl

follow_up :
    resolve_follow_up "grok-4.6" "low" "grok-4.6" "high" no_defaults ≡ ok ("grok-4.6", "low")
unfolding resolve_follow_up follow_up_model follow_up_effort resolve_layer normalize_present
follow_up = refl

first_turn-freezes_example : ◌≡◌ {A = String} "grok-4.6" "grok-4.6"
first_turn-freezes_example =
    first_turn-freezes " grok " "" no_defaults first_turn "grok-4.6" "low" "high" no_defaults
      follow_up

abbrev spawn : LaunchRequest
spawn = record {
  program = "grok";
  cwd = "/work";
  approval = never;
  sandbox = workspace_write;
  extra = record {
    writable_roots = none;
    network_access = none;
    exclude_slash_tmp = none;
    exclude_tmpdir_env_var = none;
  };
  model = "grok-4.6";
  effort = "high";
}

plan_launch-ok_example : is_ok (plan_launch spawn) ≡ (true && (true && true))
plan_launch-ok_example = plan_launch-ok spawn

planned : plan_launch spawn ≡ ok (record { program = "grok"; args = launch_args true spawn })
unfolding plan_launch first_set
planned = refl

plan_launch-always_approve_example : contains (launch_args true spawn) "--always-approve" ≡ true
plan_launch-always_approve_example = plan_launch-always_approve spawn planned refl refl refl

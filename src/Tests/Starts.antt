-- ===== src/Tests/Starts.antt =====
-- The start and the cancellation of turns at fixed ledgers.
use mathlib.Core.List.{Memᴰ}
use gamchi.Prelude.{String, ◌≡◌, refl, true, false, none, some, [], ◌∷◌, ok, is_ok}
use gamchi.Prelude.Assoc.{lookup, insert, keys}
use gamchi.Wire.{
  TurnStatus, Turn, Generation, workspace_write, on_request, in_progress, completed, interrupted,
}
use gamchi.Ledger.Ids.{validate_id, format_id}
use gamchi.Ledger.State.{Ledger, good}
use gamchi.Ledger.Exec.{◌>>=◌, call, or_else}
use gamchi.Ledger.Files.{
  read_thread, read_generation, next_seq, write_json_atomic, write_thread, write_turn,
  write_generation, new_id,
}
use gamchi.Ledger.Process.{
  process_alive, proc_stat_alive, parse_proc_stat, split_whitespace, words_from, trim_start,
  after_last, parse_u64, read_digits, linux_start_epoch_secs,
}
use gamchi.Ledger.Live.{
  recorded_child_is_alive, hold_live, set_insert, drop_hold, generation_live_path,
}
use gamchi.Ledger.Listing.{list_turns, collect_turns, converged, runs_in, sort_by_id, insert_by_id}
use gamchi.Ledger.Admit.{
  admit_turn, return_or_admit, admit_on_thread, start_if_idle, start_turn, record_client, read_path,
  existing_for_client, live_turn_on_thread_locked, recorded_on_thread, scan_thread, turn_json_paths,
}
use gamchi.Grok.Defaults.{
  load_home_defaults, resolve_follow_up, follow_up_model, follow_up_effort, normalize_present,
  resolve_layer,
}
use gamchi.Grok.Launch.{plan_launch, first_set, launch_args}
use gamchi.Grok.Begin.{
  grok, TurnRequest, is_later, next_best, best_turn, previous_turn_effort, continue_thread, reuse,
  choose, plan, admit, begin_turn,
}
use gamchi.Grok.Begin.Effort.{Precedes, previous_turn_effort-latest}
use gamchi.Grok.Begin.Guarded.{launch_of, begin_turn-keeps_model}
use gamchi.Ops.Request.{no_extra}
use gamchi.Ops.Cancel.{live_child}
use gamchi.Tests.{os, idle, busy, turn, thread, generation}

-- The listing reads the directory.
abbrev after : Ledger
after = record (busy completed false) { calls = 1 }

listed : list_turns none (busy completed false) ≡ (ok (turn completed ∷ []), after)
unfolding list_turns collect_turns converged runs_in sort_by_id insert_by_id turn_json_paths
    read_path ◌>>=◌ lookup keys call
listed = refl

found : read_generation "g1" after ≡ ok (generation false)
unfolding read_generation validate_id lookup
found = refl

effort : previous_turn_effort "th1" (busy completed false) ≡ (ok "high", after)
unfolding previous_turn_effort best_turn next_best is_later list_turns collect_turns converged
    runs_in sort_by_id insert_by_id turn_json_paths read_path read_generation validate_id ◌>>=◌
    lookup keys call
effort = refl

previous_turn_effort-latest_example :
    (v : Turn) × (h : Generation) × Memᴰ v (turn completed ∷ [])
    × (v.thread_id ≡ "th1")
    × (v.effort ≡ "high")
    × (read_generation v.generation_id after ≡ ok h)
    × Precedes 50 "tu1" h.started_epoch v.id
previous_turn_effort-latest_example =
    previous_turn_effort-latest "th1" (busy completed false) after after (turn completed ∷ [])
      "high" (turn completed) (generation false) listed effort (Memᴰ.head refl) refl found

abbrev req : TurnRequest
req = record {
  cwd = "/work";
  prompt = "hello";
  approval = on_request;
  sandbox = workspace_write;
  extra = no_extra;
  model = "grok";
  effort = "";
  command = grok "grok";
  client_request_id = none;
  follow_up_thread_id = none;
  reuse_thread_id = some "th1";
}

abbrev began : Turn
began = record (turn in_progress) {
  id = format_id "tu" 7 100 1;
  generation_id = format_id "g" 7 100 0;
  input = record { kind = "text"; text = "hello" } ∷ [];
}

begins : (begin_turn "" none req idle).0 ≡ ok began
unfolding begin_turn choose reuse continue_thread previous_turn_effort best_turn next_best is_later
    list_turns collect_turns converged runs_in sort_by_id insert_by_id read_path plan admit
    load_home_defaults resolve_follow_up follow_up_model follow_up_effort normalize_present
    resolve_layer plan_launch first_set launch_args admit_turn return_or_admit admit_on_thread
    start_if_idle start_turn record_client existing_for_client live_turn_on_thread_locked
    recorded_on_thread scan_thread turn_json_paths ◌>>=◌ call or_else read_thread validate_id lookup
    insert keys next_seq write_json_atomic write_thread write_turn write_generation new_id hold_live
    set_insert drop_hold generation_live_path format_id
begins = refl

stored : read_thread "th1" idle ≡ ok thread
unfolding read_thread validate_id lookup
stored = refl

normal : normalize_present "grok-4.6" ≡ ok "grok-4.6"
unfolding normalize_present
normal = refl

begin_turn-keeps_model_example :
    (began.model ≡ thread.model)
    × (is_ok (plan_launch (launch_of req "grok" began.model began.effort)) ≡ true)
begin_turn-keeps_model_example =
    begin_turn-keeps_model "" none req "th1" "grok" thread idle (begin_turn "" none req idle).1
      began refl refl refl stored normal (λ i. (begins i, (begin_turn "" none req idle).1))

abbrev stat_9 : String
stat_9 = "9 (grok) S 1 9 9 0 -1 0 0 0 0 0 0 0 0 0 20 0 1 0 100 0"

-- A child that the clock and /proc show to run.
abbrev running : Generation
running = record (generation false) { child_pid = some 9; child_started_epoch = none }

abbrev with_child : TurnStatus → Ledger
with_child status = record (busy status false) {
  generations = ("g1", good running) ∷ [];
  os = record os {
    proc = record { stat = λ pid. some stat_9; clock_ticks = some 100; btime = some 10 };
  };
}

-- The turn was interrupted before, and its child is torn down.
torn_again : live_child (turn interrupted) (with_child interrupted) ≡ some 9
unfolding live_child read_generation validate_id lookup recorded_child_is_alive process_alive
    proc_stat_alive parse_proc_stat split_whitespace words_from trim_start after_last parse_u64
    read_digits linux_start_epoch_secs
torn_again = refl

-- ===== src/Tests/Admission.antt =====
-- Admissions, and what is reached from a ledger with no turn.
use gamchi.Prelude.{String, ◌≡◌, refl, ok}
use gamchi.Prelude.Assoc.{lookup, insert, keys}
use gamchi.Wire.{Turn, in_progress}
use gamchi.Ledger.Ids.{validate_id, format_id}
use gamchi.Ledger.State.{Ledger}
use gamchi.Ledger.Exec.{◌>>=◌, call, or_else}
use gamchi.Ledger.Evolve.{Stored, IsKeyed}
use gamchi.Ledger.Files.{
  read_thread, next_seq, write_json_atomic, write_thread, write_turn, write_generation, new_id,
}
use gamchi.Ledger.Live.{hold_live, set_insert, drop_hold, generation_live_path}
use gamchi.Ledger.Admit.{
  admit_turn, return_or_admit, admit_on_thread, start_if_idle, start_turn, record_client,
  existing_for_client, live_turn_on_thread_locked, recorded_on_thread, scan_thread, turn_json_paths,
}
use gamchi.Ledger.Admit.Effect.{IsFresh}
use gamchi.Ledger.Admit.Single.{SingleLive, admit_turn-SingleLive}
use gamchi.Ledger.Reach.{Reach, Step, Reach-single}
use gamchi.Tests.{idle, request, turn}

abbrev after : Ledger
after = (admit_turn request idle).1

abbrev fresh_id : String
fresh_id = format_id "tu" 7 100 1

abbrev new : Turn
new = record (turn in_progress) { id = fresh_id; generation_id = format_id "g" 7 100 0 }

-- The admission on an idle thread adds a turn in flight.
admits : (admit_turn request idle).0 ≡ ok new
unfolding admit_turn return_or_admit admit_on_thread start_if_idle start_turn record_client
    existing_for_client live_turn_on_thread_locked recorded_on_thread scan_thread turn_json_paths
    ◌>>=◌ call or_else read_thread validate_id lookup insert keys next_seq write_json_atomic
    write_thread write_turn write_generation new_id hold_live set_insert drop_hold
    generation_live_path format_id
admits = refl

stored : Stored fresh_id new after
unfolding admit_turn return_or_admit admit_on_thread start_if_idle start_turn record_client
    existing_for_client live_turn_on_thread_locked recorded_on_thread scan_thread turn_json_paths
    ◌>>=◌ call or_else read_thread validate_id lookup insert keys next_seq write_json_atomic
    write_thread write_turn write_generation new_id hold_live set_insert drop_hold
    generation_live_path format_id
stored = refl

idle-IsKeyed : IsKeyed idle
unfolding lookup
idle-IsKeyed = record { keyed = λ id t h. cc }

idle-IsFresh : IsFresh idle
unfolding lookup
idle-IsFresh k t h = cc

idle-SingleLive : SingleLive idle
unfolding lookup
idle-SingleLive i j t u h k = cc

admit_turn-SingleLive_example : SingleLive after
admit_turn-SingleLive_example =
    admit_turn-SingleLive request idle idle-IsKeyed idle-IsFresh idle-SingleLive

reached : Reach idle after
reached = Reach.next Reach.here (Step.admit request idle-IsFresh)

Reach-single_example : fresh_id ≡ fresh_id
Reach-single_example =
    Reach-single fresh_id fresh_id new new reached refl stored stored refl refl refl

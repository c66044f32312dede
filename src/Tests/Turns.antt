-- ===== src/Tests/Turns.antt =====
-- Observation, cancellation, and a terminal record that stays.
use gamchi.Prelude.{
  String, ◌≡◌, ◌⊎◌, refl, sym, ◌∙◌, ap, Bool, true, false, inl, inr, Bool-cases, ◌==◌, eq_iff,
  Option, none, some, ok,
}
use gamchi.Prelude.Assoc.{lookup, keys}
use gamchi.Wire.{Turn, TurnStatus, in_progress, completed, is_terminal}
use gamchi.Ledger.Ids.{validate_id}
use gamchi.Ledger.State.{Body, good}
use gamchi.Ledger.Exec.{◌>>=◌, call, or_else}
use gamchi.Ledger.Evolve.{Stored, IsKeyed, unparked}
use gamchi.Ledger.Files.{read_generation}
use gamchi.Ledger.Admit.{
  live_turn_on_thread_locked, recorded_on_thread, scan_thread, turn_json_paths, read_path,
}
use gamchi.Ledger.Observe.{observe, cancel}
use gamchi.Ledger.Observe.Converge.{observe-eq, converged, locked}
use gamchi.Ledger.Observe.Cancel.{cancel-eq, cancel-stores, cancelled}
use gamchi.Ledger.Reach.{Reach, Step, IsSound, cancelling, first_terminal_wins, Reach-Stored}
use gamchi.Tests.{busy, turn, thread, generation}

pub valid : validate_id "tu1" ≡ ok tt
unfolding validate_id
valid = refl

stored : (status : TurnStatus) (eof : Bool) → Stored "tu1" (turn status) (busy status eof)
unfolding lookup
stored status eof = refl

found :
    (status : TurnStatus) (eof : Bool)
    → read_generation "g1" (busy status eof) ≡ ok (generation eof)
unfolding read_generation validate_id lookup
found status eof = refl

in_file :
    (status : TurnStatus) (eof : Bool) (id : String) (t : Turn)
    → Stored id t (busy status eof)
    → ("tu1" ≡ id) × (t ≡ turn status)
unfolding lookup
in_file status eof id t h = elim (Bool-cases ("tu1" == id)) [
  | inl same ↦ ((eq_iff "tu1" id).0 same, value (rw same at h))
  | inr other ↦ elim (missing (rw other at h)) [ ]
]
  where
    value : {a b : Turn} → ◌≡◌ {A = Option (Body Turn)} (some (good a)) (some (good b)) → b ≡ a
    value e = cc

    missing : {a : Turn} → ◌≡◌ {A = Option (Body Turn)} none (some (good a)) → ⊥
    missing e = cc

pub busy-IsKeyed : (status : TurnStatus) (eof : Bool) → IsKeyed (busy status eof)
busy-IsKeyed status eof = record {
  keyed = λ id t h. let (same, e) = in_file status eof id t h in ap (λ (x : Turn). x.id) e ∙ same;
}

busy-IsSound : (status : TurnStatus) (eof : Bool) → IsSound (busy status eof)
busy-IsSound status eof = record {
  keyed = busy-IsKeyed status eof;
  single = λ i j t v h k live live' same.
      sym ((in_file status eof i t h).0) ∙ (in_file status eof j v k).0;
}

-- A turn whose child has ended converges.
observe-eq_example :
    (observe "tu1" (busy in_progress true)).0
    ≡ converged (turn in_progress) (generation true) (locked (busy in_progress true))
observe-eq_example =
    observe-eq "tu1" (turn in_progress) (generation true) valid (busy in_progress true)
      (stored in_progress true) (found in_progress true) refl

-- A turn whose owner lives is cancelled.
cancel-eq_example :
    (cancel "tu1" (busy in_progress false)).0
    ≡ ok (cancelled (turn in_progress) (generation false) (busy in_progress false))
cancel-eq_example =
    cancel-eq "tu1" (turn in_progress) (generation false) (busy in_progress false) valid
      (busy-IsKeyed in_progress false) (stored in_progress false) (found in_progress false)
      (λ n. refl)

cancel-stores_example :
    (is_terminal (cancelled (turn in_progress) (generation false) (busy in_progress false)).status
      ≡ true)
    × Stored "tu1"
        (cancelled (turn in_progress) (generation false) (busy in_progress false))
        (cancel "tu1" (busy in_progress false)).1
cancel-stores_example =
    cancel-stores "tu1" (busy in_progress false)
      (cancelled (turn in_progress) (generation false) (busy in_progress false))
      (busy-IsKeyed in_progress false) cancel-eq_example

searched : (live_turn_on_thread_locked thread (busy completed true)).0 ≡ ok none
unfolding live_turn_on_thread_locked recorded_on_thread scan_thread turn_json_paths read_path ◌>>=◌
    call or_else lookup keys
searched = refl

kept : Stored "tu1" (turn completed) (live_turn_on_thread_locked thread (busy completed true)).1
unfolding live_turn_on_thread_locked recorded_on_thread scan_thread turn_json_paths read_path ◌>>=◌
    call or_else lookup keys
kept = refl

cancelled_later :
    (status : TurnStatus) → Reach (busy status true) (cancel "tu1" (busy status true)).1
cancelled_later status = Reach.next Reach.here (Step.act (cancelling "tu1"))

-- A cancellation leaves a completed turn as it was.
first_terminal_wins_example :
    (t : Turn) × Stored "tu1" t (cancel "tu1" (busy completed true)).1
    × ((t ≡ turn completed) ⊎ (t ≡ unparked (turn completed)))
first_terminal_wins_example =
    first_terminal_wins "tu1" (turn completed) (busy-IsSound completed true)
      (cancelled_later completed) (stored completed true) refl

Reach-Stored_example :
    (t : Turn) × Stored "tu1" t (cancel "tu1" (busy in_progress true)).1
    × (t.thread_id ≡ "th1")
    × (t.generation_id ≡ "g1")
    × (t.client_request_id ≡ "")
Reach-Stored_example =
    Reach-Stored "tu1" (turn in_progress) (busy-IsSound in_progress true)
      (cancelled_later in_progress) (stored in_progress true)

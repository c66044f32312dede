-- ===== src/Tests/Approvals.antt =====
-- Parked requests, decided and decided again.
use gamchi.Prelude.{
  ◌≡◌, refl, ◌==◌, false, Option, none, some, [], ◌∷◌, ok, err, Bool-cases, inl, inr, eq_iff, ap,
  ◌∙◌,
}
use gamchi.Prelude.Assoc.{lookup, insert, keys}
use gamchi.Wire.{Turn, in_progress, accept, decline}
use gamchi.Ledger.Error.{invalid_status}
use gamchi.Ledger.Ids.{validate_id}
use gamchi.Ledger.Process.{process_alive}
use gamchi.Ledger.State.{Ledger, Body, good}
use gamchi.Ledger.Exec.{◌>>=◌, call, or_else}
use gamchi.Ledger.Evolve.{IsKeyed}
use gamchi.Ledger.Files.{read_turn, read_generation, next_seq, write_json_atomic, write_turn}
use gamchi.Ledger.Live.{generation_is_dead, owner_instance_alive, generation_live_path}
use gamchi.Ledger.Admit.{turn_json_paths, read_path}
use gamchi.Ledger.Listing.{list_turns, collect_turns, converged, runs_in, sort_by_id, insert_by_id}
use gamchi.Ledger.Observe.{observe, observe_locked}
use gamchi.Ledger.Approval.{respond, respond_on, respond_named, turn_by_pending_request}
use gamchi.Ledger.Observe.Converge.{locked}
use gamchi.Ledger.Approval.Delivery.{Decided, respond-poll_decision, respond-first_wins}
use gamchi.Ledger.Wait.{poll_decision}
use gamchi.Tests.{busy, turn, generation}

abbrev parked : Turn
parked = record (turn in_progress) { pending_request_id = "ap1" }

abbrev decided : Turn
decided = record parked { pending_decision = "accept" }

-- A turn parked on a request, and decided or not.
abbrev waiting : Turn → Ledger
waiting t = record (busy in_progress false) { turns = ("tu1", good t) ∷ [] }

valid : validate_id "tu1" ≡ ok tt
unfolding validate_id
valid = refl

waiting-IsKeyed : IsKeyed (waiting parked)
unfolding lookup
waiting-IsKeyed = record {
  keyed = λ id t h. elim (Bool-cases ("tu1" == id)) [
    | inl same ↦ ap (λ (x : Turn). x.id) (value (rw same at h)) ∙ (eq_iff "tu1" id).0 same
    | inr other ↦ elim (missing (rw other at h)) [ ]
  ];
}
  where
    value : {a b : Turn} → ◌≡◌ {A = Option (Body Turn)} (some (good a)) (some (good b)) → b ≡ a
    value e = cc

    missing : {a : Turn} → ◌≡◌ {A = Option (Body Turn)} none (some (good a)) → ⊥
    missing e = cc

abbrev answered : Ledger
answered = (respond "ap1" accept (waiting parked)).1

-- The approval is recorded, and the turn's generation lives.
response :
    ((respond "ap1" accept (waiting parked)).0 ≡ ok decided)
    × (read_generation "g1" answered ≡ ok (generation false))
    × (generation_is_dead answered (generation false) ≡ false)
    × (answered.os.fails answered.calls ≡ false)
unfolding respond turn_by_pending_request respond_named respond_on list_turns collect_turns
    converged runs_in sort_by_id insert_by_id turn_json_paths read_path observe observe_locked
    read_turn read_generation validate_id lookup insert keys next_seq write_json_atomic write_turn
    generation_is_dead owner_instance_alive generation_live_path process_alive ◌>>=◌ call or_else
response = (refl, refl, refl, refl)

-- The approval of a parked request reaches its waiter.
respond-poll_decision_example :
    (poll_decision "tu1" "ap1" (respond "ap1" accept (waiting parked)).1).0
    ≡ ok (some (some accept))
respond-poll_decision_example =
    respond-poll_decision "ap1" accept (waiting parked) decided (generation false) waiting-IsKeyed
      response.0 valid response.1 response.2 response.3

-- A refusal of a request that was approved comes too late.
respond-first_wins_example :
    (respond_on "ap1" decline decided answered
      ≡ (err (invalid_status "duplicate request_id ap1"), locked answered))
    × Decided "ap1" accept decided (respond_on "ap1" decline decided answered).1
respond-first_wins_example =
    respond-first_wins "ap1" accept decline (waiting parked) decided waiting-IsKeyed response.0
      valid response.3

-- ===== src/Tests/Waiting.antt =====
-- The blocking call and the registry of waiters.
use mathlib.Core.List.{Memᴰ}
use gamchi.Prelude.{◌≡◌, ◌≢◌, refl, ◌||◌, true, false, none, some, List, [], ◌∷◌, ok}
use gamchi.Prelude.Assoc.{lookup, insert, remove}
use gamchi.Wire.{in_progress, completed, is_terminal}
use gamchi.Ledger.Ids.{validate_id}
use gamchi.Ledger.Exec.{◌>>=◌, call, or_else}
use gamchi.Ledger.Files.{read_turn, read_generation}
use gamchi.Ledger.Observe.{observe, observe_locked}
use gamchi.Ledger.Waiters
use gamchi.Ledger.Waiters.LastOut.{Reach, Step, Reach-release}
use gamchi.Ledger.Wait.{Round, wait, wait_loop, poll, settle, released}
use gamchi.Ledger.Wait.Deadline.{wait-returns, wait-reason}
use gamchi.Tests.{busy, turn}

valid : validate_id "tu1" ≡ ok tt
unfolding validate_id
valid = refl

-- Two polls, the second one past the deadline 60.
abbrev rounds : List Round
rounds = record { now = 55; others = λ s. s } ∷ record { now = 61; others = λ s. s } ∷ []

wait-returns_example : (wait "tu1" (some 60) rounds (busy in_progress false)).0 ≢ ok none
wait-returns_example = wait-returns "tu1" (some 60) rounds (busy in_progress false) valid refl

waited : (wait "tu1" none rounds (busy completed false)).0 ≡ ok (some (turn completed))
unfolding wait wait_loop poll settle released observe observe_locked read_turn read_generation
    validate_id lookup ◌>>=◌ call or_else Waiters.waiter Waiters.release_waiter Waiters.drop_waiter
waited = refl

wait-reason_example : (is_terminal completed || false || false) ≡ true
wait-reason_example =
    wait-reason "tu1" none rounds (busy completed false) (turn completed) valid waited

-- Two callers wait for one turn, a third for another; one leaves.
abbrev two : Waiters.Waiters
two = (Waiters.waiter "tu1" (Waiters.waiter "tu1" Waiters.no_waiters).1).1

two-Reach : Reach two
two-Reach = Reach.next (Reach.next Reach.start (Step.enter "tu1")) (Step.enter "tu1")

abbrev three : Waiters.Waiters
three = (Waiters.waiter "tu2" two).1

left : Memᴰ ("tu2", 1) three.holders
unfolding Waiters.waiter lookup insert
left = Memᴰ.head refl

alone : Waiters.count_of 1 three.holders ≡ 1
unfolding Waiters.waiter Waiters.count_of lookup insert
alone = refl

-- The caller of the other turn leaves, and nobody else holds its pair.
Reach-release_example : ¬ (lookup "tu2" (Waiters.release_waiter "tu2" 1 three).entries ≡ some 1)
Reach-release_example =
    Reach-release "tu2" "tu2" 1 (Reach.next two-Reach (Step.enter "tu2")) left alone

-- Both callers of one turn release their pair before either drops its reference: neither is the
-- last one, and the pair stays registered when nobody holds it.
abbrev both_released : Waiters.Waiters
both_released = Waiters.release_waiter "tu1" 0 (Waiters.release_waiter "tu1" 0 two)

abbrev both_gone : Waiters.Waiters
both_gone = Waiters.drop_waiter "tu1" 0 (Waiters.drop_waiter "tu1" 0 both_released)

leaked : (lookup "tu1" both_gone.entries ≡ some 0) × (both_gone.holders ≡ [])
unfolding Waiters.waiter Waiters.release_waiter Waiters.drop_waiter Waiters.count_of
    Waiters.drop_one lookup insert remove
leaked = (refl, refl)

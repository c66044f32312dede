-- ===== src/Ledger/Wait.antt =====
-- The two blocking calls. Between two polls the other threads and processes act: a `Round` is
-- one sleep, with what they did meanwhile and the time when the next poll reads the clock.
pub mod Deadline
use gamchi.Prelude.{
  ℕ, String, ◌==◌, Bool, false, not, ◌&&◌, ◌||◌, Option, none, some, List, [], ◌∷◌, leb, Result, ok,
  map_err, if◌then◌else◌,
}
use gamchi.Prelude.Text.{◌<>◌, is_empty, quoted}
use gamchi.Wire.{
  Turn, ApprovalDecision, UnsupportedValueError, parse_approval_decision, is_terminal,
  pending_approval,
}
use gamchi.Ledger.Error.{LedgerError, invalid_status}
use gamchi.Ledger.Ids.{validate_id}
use gamchi.Ledger.Waiters
use gamchi.Ledger.State.{Ledger}
use gamchi.Ledger.Exec.{Exec, pure, lift, modify, or_else, ◌>>=◌, ◌>>◌}
use gamchi.Ledger.Observe.{observe}

pub record Round : Type 0 where
  pub now : ℕ
  pub others : Ledger → Ledger

-- `waiter` on the ledger, and `release_waiter` with the drop of the reference at the return.
abbrev pub take_waiter : String → Exec ℕ
take_waiter turn_id s =
    let (pair, w) = Waiters.waiter turn_id s.waiters in (ok pair, record s { waiters = w })

abbrev pub release_waiter : String → ℕ → Ledger → Ledger
release_waiter turn_id pair s = record s {
  waiters = Waiters.drop_waiter turn_id pair (Waiters.release_waiter turn_id pair s.waiters);
}

-- Whether the deadline has passed; no deadline never does.
abbrev pub is_past : Option ℕ → ℕ → Bool
is_past none now = false
is_past (some deadline) now = leb deadline now

-- One poll: the turn, and whether the loop of `wait` returns it.
unfoldable pub poll : String → Option ℕ → ℕ → Exec (Option Turn)
poll turn_id deadline now = do
  turn ← observe turn_id
  pure (
      if is_terminal turn.status || pending_approval turn || is_past deadline now
      then some turn
      else none)

-- The loop of `wait`; `none` is a loop that has not returned within the given rounds.
unfoldable pub wait_loop : String → Option ℕ → List Round → Exec (Option Turn)
wait_loop turn_id deadline [] = pure none
wait_loop turn_id deadline (round ∷ rounds) = do
  modify round.others
  polled ← poll turn_id deadline round.now
  or_else polled (wait_loop turn_id deadline rounds)

-- The result of a loop that returned, with the waiter released on success and on error.
unfoldable pub settle {ℓ} :
    {A : Type ℓ}
    → String
    → ℕ
    → Result LedgerError (Option A)
    → Ledger
    → Result LedgerError (Option A) × Ledger
settle turn_id pair (ok none) s = (ok none, s)
settle turn_id pair r s = (r, release_waiter turn_id pair s)

unfoldable pub released {ℓ} : {A : Type ℓ} → String → ℕ → Exec (Option A) → Exec (Option A)
released turn_id pair loop s = let (r, t) = loop s in settle turn_id pair r t

unfoldable pub wait : String → Option ℕ → List Round → Exec (Option Turn)
wait turn_id deadline rounds = do
  lift (validate_id turn_id)
  pair ← take_waiter turn_id
  released turn_id pair (wait_loop turn_id deadline rounds)

-- `wait_pending_decision`: the inner option is the code's result, the outer one says that the
-- loop has returned.
abbrev decided_by : String → Turn → Bool
decided_by request_id turn =
    turn.pending_request_id == request_id && not (is_empty turn.pending_decision)

abbrev unreadable_decision : UnsupportedValueError → LedgerError
unreadable_decision e = invalid_status ("unsupported " <> e.kind <> " " <> quoted e.value)

abbrev read_decision : Turn → Result LedgerError ApprovalDecision
read_decision turn = map_err unreadable_decision (parse_approval_decision turn.pending_decision)

unfoldable pub poll_decision : String → String → Exec (Option (Option ApprovalDecision))
poll_decision turn_id request_id = do
  turn ← observe turn_id
  if is_terminal turn.status
      then pure (some none)
      else if decided_by request_id turn
      then (do decision ← lift (read_decision turn); pure (some (some decision)))
      else pure none

unfoldable pub decision_loop :
    String → String → List Round → Exec (Option (Option ApprovalDecision))
decision_loop turn_id request_id [] = pure none
decision_loop turn_id request_id (round ∷ rounds) = do
  modify round.others
  polled ← poll_decision turn_id request_id
  or_else polled (decision_loop turn_id request_id rounds)

unfoldable pub wait_pending_decision :
    String → String → List Round → Exec (Option (Option ApprovalDecision))
wait_pending_decision turn_id request_id rounds = do
  lift (validate_id turn_id)
  lift (validate_id request_id)
  pair ← take_waiter turn_id
  released turn_id pair (decision_loop turn_id request_id rounds)

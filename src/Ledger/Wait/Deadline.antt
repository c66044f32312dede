-- ===== src/Ledger/Wait/Deadline.antt =====
-- When `wait` of crates/core/src/ledger.rs returns, and with what.
use gamchi.Prelude.{
  ℕ, String, ◌≡◌, ◌≢◌, refl, sym, ◌∙◌, subst, ◌⊎◌, inl, inr, Bool, true, false, ◌||◌, any, arith,
  Option, none, some, List, [], ◌∷◌, Result, ok, err, if◌then◌else◌,
}
use gamchi.Wire.{Turn, is_terminal, pending_approval}
use gamchi.Ledger.Error.{LedgerError}
use gamchi.Ledger.Ids.{validate_id}
use gamchi.Ledger.State.{Ledger}
use gamchi.Ledger.Exec.{Exec, pure, or_else, continue, ◌>>=◌}
use gamchi.Ledger.Waiters
use gamchi.Ledger.Observe.{observe}
use gamchi.Ledger.Wait.{Round, is_past, poll, wait_loop, take_waiter, settle, released, wait}

-- Why the loop may return a turn.
abbrev pub is_reason : Option ℕ → ℕ → Turn → Bool
is_reason deadline now t = is_terminal t.status || pending_approval t || is_past deadline now

-- What a poll says: an error, a turn with a reason, or that there was no reason.
poll-cases :
    (id : String) (deadline : Option ℕ) (now : ℕ) (s : Ledger)
    → ((e : LedgerError) × ((poll id deadline now s).0 ≡ err e))
      ⊎ ((t : Turn) × ((poll id deadline now s).0
            ≡ (if is_reason deadline now t then ok (some t) else ok none)))
unfolding poll ◌>>=◌
poll-cases id deadline now s = by_observation (observe id s).0 (observe id s).1
  where
    by_observation :
        (r : Result LedgerError Turn) (u : Ledger)
        → ((e : LedgerError) × ((continue r
                (λ turn. pure (if is_reason deadline now turn then some turn else none))
                u).0
              ≡ err e))
          ⊎ ((t : Turn) × ((continue r
                  (λ turn. pure (if is_reason deadline now turn then some turn else none))
                  u).0
                ≡ (if is_reason deadline now t then ok (some t) else ok none)))
    by_observation (ok t) u = inr (t, ground arith)
    by_observation (err e) u = inl (e, refl)

-- Whether some poll reads the clock after the deadline.
abbrev pub any_past : Option ℕ → List Round → Bool
any_past deadline rounds = any (λ (r : Round). is_past deadline r.now) rounds

-- The rest of the loop, on the answer of a poll.
abbrev go_on :
    Exec (Option Turn)
    → Result LedgerError (Option Turn)
    → Ledger
    → Result LedgerError (Option Turn) × Ledger
go_on rest r u = continue r (λ polled. or_else polled rest) u

go_on-returns :
    (rest : Exec (Option Turn)) (r : Result LedgerError (Option Turn)) (u : Ledger)
    → (r ≡ ok none → (rest u).0 ≢ ok none)
    → (go_on rest r u).0 ≢ ok none
unfolding or_else
go_on-returns rest (ok none) u h = h refl
go_on-returns rest (ok (some t)) u h = λ e. cc
go_on-returns rest (err x) u h = λ e. cc

-- Once a poll reads the clock past the deadline, the loop has returned: with a turn, or an error.
wait_loop-returns :
    (id : String) (deadline : Option ℕ) (rounds : List Round) (s : Ledger)
    → any_past deadline rounds ≡ true
    → (wait_loop id deadline rounds s).0 ≢ ok none
unfolding wait_loop ◌>>=◌
wait_loop-returns id deadline [] s h = λ e. cc
wait_loop-returns id deadline (round ∷ rounds) s h =
    let u = round.others s in
    go_on-returns (wait_loop id deadline rounds) (poll id deadline round.now u).0
      (poll id deadline round.now u).1
      (λ none_yet.
        wait_loop-returns id deadline rounds (poll id deadline round.now u).1
          (elim (poll-cases id deadline round.now u) [
            | inl (e, failed) ↦ cc
            | inr (t, answer) ↦ ground arith
          ]))

answered :
    (b : Bool) (w t : Turn)
    → ◌≡◌ {A = Result LedgerError (Option Turn)} (if b then ok (some w) else ok none) (ok (some t))
    → (b ≡ true) × (w ≡ t)
answered true w t e = (refl, cc)
answered false w t e = cc

reason_at :
    (deadline : Option ℕ) (now : ℕ) (rest : Bool) (w t : Turn)
    → is_reason deadline now w ≡ true
    → w ≡ t
    → (is_terminal t.status || pending_approval t || (is_past deadline now || rest)) ≡ true
reason_at deadline now rest w t h e =
    subst
      (λ (x : Turn).
        (is_terminal x.status || pending_approval x || (is_past deadline now || rest)) ≡ true)
      e (weaken (is_terminal w.status) (pending_approval w) (is_past deadline now) rest h)
  where
    weaken : (a b c d : Bool) → (a || b || c) ≡ true → (a || b || (c || d)) ≡ true
    weaken a b c d h = ground arith

later_reason : (a b c d : Bool) → (a || b || d) ≡ true → (a || b || (c || d)) ≡ true
later_reason a b c d h = ground arith

-- The turn that the loop returns has a reason: it is terminal, it waits for an approval, or the
-- deadline has passed at some poll.
go_on-reason :
    (rest : Exec (Option Turn)) (r : Result LedgerError (Option Turn)) (u : Ledger) (t : Turn)
    → (go_on rest r u).0 ≡ ok (some t)
    → (r ≡ ok (some t)) ⊎ ((r ≡ ok none) × ((rest u).0 ≡ ok (some t)))
unfolding or_else
go_on-reason rest (ok none) u t e = inr (refl, e)
go_on-reason rest (ok (some v)) u t e = inl e
go_on-reason rest (err x) u t e = cc

wait_loop-reason :
    (id : String) (deadline : Option ℕ) (rounds : List Round) (s : Ledger) (t : Turn)
    → (wait_loop id deadline rounds s).0 ≡ ok (some t)
    → (is_terminal t.status || pending_approval t || any_past deadline rounds) ≡ true
unfolding wait_loop ◌>>=◌
wait_loop-reason id deadline [] s t e = cc
wait_loop-reason id deadline (round ∷ rounds) s t e =
    let u = round.others s in
    let v = (poll id deadline round.now u).1 in
    elim (go_on-reason (wait_loop id deadline rounds) (poll id deadline round.now u).0 v t e) [
      | inl now ↦ elim (poll-cases id deadline round.now u) [
        | inl (x, failed) ↦ cc
        | inr (w, answer) ↦
            let (why, same) = answered (is_reason deadline round.now w) w t (sym answer ∙ now) in
            reason_at deadline round.now (any_past deadline rounds) w t why same
      ]
      | inr (none_yet, later) ↦
          later_reason (is_terminal t.status) (pending_approval t) (is_past deadline round.now)
            (any_past deadline rounds) (wait_loop-reason id deadline rounds v t later)
    ]

settle-returns :
    (id : String) (pair : ℕ) (r : Result LedgerError (Option Turn)) (s : Ledger)
    → ((settle id pair r s).0 ≡ r)
unfolding settle
settle-returns id pair (ok none) s = refl
settle-returns id pair (ok (some t)) s = refl
settle-returns id pair (err e) s = refl

released-returns :
    (id : String) (pair : ℕ) (loop : Exec (Option Turn)) (s : Ledger)
    → (released id pair loop s).0 ≡ (loop s).0
unfolding released
released-returns id pair loop s = settle-returns id pair (loop s).0 (loop s).1

-- `wait` on a valid id has returned, with a turn or an error, once a poll reads the clock past the
-- deadline, whatever the others do between the polls.
pub wait-returns :
    (id : String) (deadline : Option ℕ) (rounds : List Round) (s : Ledger)
    → validate_id id ≡ ok tt
    → any_past deadline rounds ≡ true
    → (wait id deadline rounds s).0 ≢ ok none
unfolding wait ◌>>=◌
wait-returns id deadline rounds s valid past =
    let u = (take_waiter id s).1 in
    let e = released-returns id (Waiters.waiter id s.waiters).0 (wait_loop id deadline rounds) u in
    rw valid (λ r. wait_loop-returns id deadline rounds u past (sym e ∙ r))

-- A turn that `wait` on a valid id returns is terminal, waits for an approval, or was returned once
-- a poll had read the clock past the deadline.
pub wait-reason :
    (id : String) (deadline : Option ℕ) (rounds : List Round) (s : Ledger) (t : Turn)
    → validate_id id ≡ ok tt
    → (wait id deadline rounds s).0 ≡ ok (some t)
    → (is_terminal t.status || pending_approval t || any_past deadline rounds) ≡ true
unfolding wait ◌>>=◌
wait-reason id deadline rounds s t valid r =
    let u = (take_waiter id s).1 in
    let e = released-returns id (Waiters.waiter id s.waiters).0 (wait_loop id deadline rounds) u in
    wait_loop-reason id deadline rounds u t (sym e ∙ rw valid at r)

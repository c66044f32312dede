-- ===== src/Ledger/Observe/Converge.antt =====
-- What `observe` of crates/core/src/ledger.rs returns.
use gamchi.Prelude.{
  suc, String, ◌≡◌, refl, inl, inr, false, not, Bool-cases, Result, ok, err, arith, if◌then◌else◌,
}
use gamchi.Wire.{Thread, Turn, TurnStatus, Generation, failed, is_terminal, failure_worker_gone}
use gamchi.Ledger.Error.{LedgerError, io, other}
use gamchi.Ledger.Ids.{validate_id}
use gamchi.Ledger.State.{Ledger}
use gamchi.Ledger.Exec.{Exec, pure, reads, modify, attempt, ◌>>=◌, call}
use gamchi.Ledger.Files.{
  read_thread, read_turn, read_generation, write_turn, write_json_atomic, next_seq,
}
use gamchi.Ledger.Live.{generation_is_dead, release_live}
use gamchi.Ledger.Evolve.{Stored}
use gamchi.Ledger.Observe.{
  wake_and_drop, clear_in_progress, finish_turn, publish_terminal_locked, observe_locked, observe,
}

pub read_turn_of_Stored :
    (id : String) (t : Turn) (s : Ledger)
    → validate_id id ≡ ok tt
    → Stored id t s
    → read_turn id s ≡ ok t
unfolding read_turn
read_turn_of_Stored id t s valid stored = rw (valid, stored) refl

clear_in_progress-ok :
    (next : Turn) (r : Result LedgerError Thread) (s : Ledger)
    → (clear_in_progress next r s).0 ≡ ok tt
unfolding clear_in_progress
clear_in_progress-ok next (ok thread) s = ground arith
clear_in_progress-ok next (err e) s = refl

-- What follows the write of a terminal record cannot fail.
abbrev after_publish : Turn → Exec Turn
after_publish next = attempt (reads (read_thread next.thread_id)) >>= λ thread.
    clear_in_progress next thread >>= λ _. modify (release_live next.generation_id) >>= λ _.
    modify (wake_and_drop next.id) >>= λ _. pure next

after_publish-ok : (next : Turn) (s : Ledger) → (after_publish next s).0 ≡ ok next
unfolding ◌>>=◌
after_publish-ok next s = rw (clear_in_progress-ok next (read_thread next.thread_id s) s) refl

-- The publication of a turn in flight returns the terminal record, or fails with its write.
pub publish-eq :
    (t : Turn) (status : TurnStatus) (stop failure : String) (s : Ledger)
    → is_terminal t.status ≡ false
    → (publish_terminal_locked t status stop failure s).0
      ≡ (if s.os.fails s.calls then err (io other) else ok (finish_turn t status stop failure))
unfolding publish_terminal_locked write_turn write_json_atomic next_seq call ◌>>=◌
publish-eq t status stop failure s live = elim (Bool-cases (s.os.fails s.calls)) [
  | inl e ↦ rw (live, e) refl
  | inr e ↦ rw (live, e) (unfold ◌>>=◌ in after_publish-ok (finish_turn t status stop failure) _)
]

-- The answer on a turn whose lock is held: a terminal turn, or one with a live generation, as it
-- is; otherwise the turn converged, if its file can be written.
abbrev pub converged : Turn → Generation → Ledger → Result LedgerError Turn
converged t g s =
    if is_terminal t.status
    then ok t
    else if not (generation_is_dead s g)
    then ok t
    else if s.os.fails s.calls
    then err (io other)
    else ok (finish_turn t failed "" failure_worker_gone)

-- The state once the lock is held.
abbrev pub locked : Ledger → Ledger
locked s = record s { calls = suc s.calls }

module _ (id : String) (t : Turn) (g : Generation) (valid : validate_id id ≡ ok tt) where
  pub observe_locked-eq :
      (s : Ledger)
      → Stored id t s
      → read_generation t.generation_id s ≡ ok g
      → (observe_locked id s).0 ≡ converged t g s
  unfolding observe_locked ◌>>=◌
  observe_locked-eq s stored found =
      rw (read_turn_of_Stored id t s valid stored) (elim (Bool-cases (is_terminal t.status)) [
        | inl e ↦ rw e refl
        | inr e ↦
            rw (e, found)
              (elim (Bool-cases (generation_is_dead s g)) [
                | inl d ↦ rw d (publish-eq t failed "" failure_worker_gone s e)
                | inr d ↦ rw d refl
              ])
      ])

  -- `observe` on a stored turn of a valid id whose generation can be read, once the lock is taken:
  -- a terminal turn is returned as it is, and so is one with a live generation; one with a dead
  -- generation becomes failed with the reason worker_gone, or the failed write is reported.
  pub observe-eq :
      (s : Ledger)
      → Stored id t s
      → read_generation t.generation_id s ≡ ok g
      → s.os.fails s.calls ≡ false
      → (observe id s).0 ≡ converged t g (locked s)
  unfolding observe call read_generation ◌>>=◌
  observe-eq s stored found works =
      rw (valid, read_turn_of_Stored id t s valid stored, works)
        (observe_locked-eq (locked s) stored found)

-- ===== src/Ledger/Safety.antt =====
-- How observation, publication and cancellation change the turn files.
use gamchi.Prelude.{String, ◌≡◌, refl, false, Result, ok, err, arith, not}
use gamchi.Wire.{Thread, Turn, TurnStatus, is_terminal, failed, failure_worker_gone}
use gamchi.Ledger.State.{Ledger}
use gamchi.Ledger.Exec.{Exec, pure, modify, continue, ◌>>=◌}
use gamchi.Ledger.Evolve.{SameFiles, Safe, Safe-trans, Succ, Succ-of_live, IsKeyed, Stored}
use gamchi.Ledger.Post.{
  Post, Post-pure, Post-if, Post-bind, Post-reads, Post-write_turn, post_rules, Post-read_turn,
}
use gamchi.Ledger.Keeps.{
  Keeps, KeepsAt, Quiet, Quiet-modify, quiet_rules, keeps_rules, Keeps-bind, Keeps-lift,
  Keeps-read_turn, KeepsAt-of_Keeps, Keeps-of_Quiet, Quiet-call,
}
use gamchi.Ledger.Error.{LedgerError}
use gamchi.Ledger.Live.{drop_hold, release_live}
use gamchi.Ledger.Observe.{
  wake, wake_and_drop, clear_in_progress, publish_terminal_locked, publish_terminal, observe_locked,
  observe, cancel, finish_turn,
}

release_live-quiet : (id : String) (s : Ledger) → SameFiles s (release_live id s)
unfolding release_live drop_hold
release_live-quiet id s = ground arith

pub Quiet-release_live : (id : String) → Quiet (modify (release_live id))
Quiet-release_live id = Quiet-modify (release_live id) (release_live-quiet id)

pub Quiet-wake : (id : String) → Quiet (modify (wake id))
Quiet-wake id = Quiet-modify (wake id) (λ s. (refl, refl))

pub Quiet-wake_and_drop : (id : String) → Quiet (modify (wake_and_drop id))
Quiet-wake_and_drop id = Quiet-modify (wake_and_drop id) (λ s. (refl, refl))

pub Quiet-clear_in_progress :
    (t : Turn) (r : Result LedgerError Thread) → Quiet (clear_in_progress t r)
unfolding clear_in_progress
Quiet-clear_in_progress t (ok thread) = search quiet_rules
Quiet-clear_in_progress t (err e) = search quiet_rules

pub ruleset ledger_rules =
    (keeps_rules, Quiet-release_live, Quiet-wake, Quiet-wake_and_drop, Quiet-clear_in_progress)

finish_turn-Succ :
    (t : Turn) (status : TurnStatus) (stop failure : String)
    → is_terminal t.status ≡ false
    → Succ t (finish_turn t status stop failure)
finish_turn-Succ t status stop failure live = Succ-of_live t _ refl refl refl refl live

KeepsAt-publish :
    (id : String) (t : Turn) (status : TurnStatus) (stop failure : String)
    → KeepsAt id t (publish_terminal_locked t status stop failure)
unfolding publish_terminal_locked
KeepsAt-publish id t status stop failure = search (ledger_rules, finish_turn-Succ) depth 12

pub Keeps-observe_locked : (id : String) → Keeps (observe_locked id)
unfolding observe_locked
Keeps-observe_locked id = search (ledger_rules, KeepsAt-publish) depth 12

pub Keeps-observe : (id : String) → Keeps (observe id)
unfolding observe
Keeps-observe id = search (ledger_rules, Keeps-observe_locked) depth 12

publish_tail : (id : String) (u : Turn) → Post (Stored id u) (pure u) (λ v. Stored id v)
publish_tail id u = Post-pure u (λ s h. h)

-- A published turn is the one in its file.
pub publish-Stored :
    (id : String) (t : Turn) (status : TurnStatus) (stop failure : String)
    → Post
        (λ s. IsKeyed s × Stored id t s)
        (publish_terminal_locked t status stop failure)
        (λ u s. Stored id u s)
unfolding publish_terminal_locked
publish-Stored id t status stop failure =
    Post-if (is_terminal t.status) (λ e. Post-pure t (λ s h. h.1))
      λ e.
        Post-bind {R = λ a. Stored id (finish_turn t status stop failure)}
          (Post-write_turn id _ (λ s h. h.0.keyed id t h.1))
          λ a. search (post_rules, ledger_rules, publish_tail) depth 12

pub observe_locked-Stored : (id : String) → Post IsKeyed (observe_locked id) (λ u s. Stored id u s)
unfolding observe_locked
observe_locked-Stored id = Post-bind {R = λ t s. IsKeyed s × Stored id t s} (Post-read_turn id) λ t.
    Post-if (is_terminal t.status) (λ e. Post-pure t (λ s h. h.1))
      λ e. Post-bind {R = λ g s. IsKeyed s × Stored id t s} (Post-reads _ (λ s h g e. h)) λ g.
        Post-bind {R = λ g s. IsKeyed s × Stored id t s} (Post-reads _ (λ s h g e. h)) λ dead.
          Post-if (not dead) (λ e. Post-pure t (λ s h. h.1))
            λ e. publish-Stored id t failed "" failure_worker_gone

-- The turn that `m` returns is the one in the file `id`.
abbrev Fetches : String → Exec Turn → Type 0
Fetches id m = Post IsKeyed m (λ u s. Stored id u s)

module _ (id : String) where
  continue_fetched :
      {f : Turn → Exec Turn} {s t : Ledger} (r : Result LedgerError Turn)
      → Safe s t
      → ((u : Turn) → r ≡ ok u → Stored id u t)
      → ((u : Turn) → KeepsAt id u (f u))
      → Safe s (continue r f t).1
  continue_fetched {f} {s} {t} (ok u) h stored k = Safe-trans h ((k u).at t (stored u refl))
  continue_fetched (err e) h stored k = h

  pub Keeps-fetched :
      {m : Exec Turn} {f : Turn → Exec Turn}
      → Keeps m
      → Fetches id m
      → ((t : Turn) → KeepsAt id t (f t))
      → Keeps (m >>= f)
  unfolding ◌>>=◌
  Keeps-fetched {m} {f} k p kf = record {
    at = λ s. record {
      safe = λ keyed. (continue_fetched (m s).0 (k.at s) (λ u e. p.at s keyed u e) kf).safe keyed;
    };
  }

pub Keeps-cancel : (id : String) → Keeps (cancel id)
unfolding cancel
Keeps-cancel id = Keeps-bind (Keeps-lift _) λ _. Keeps-read_turn id λ named. KeepsAt-of_Keeps (
    Keeps-bind (Keeps-of_Quiet Quiet-call) λ _.
      Keeps-fetched id (Keeps-observe_locked id) (observe_locked-Stored id)
        λ t. search (ledger_rules, KeepsAt-publish))

pub Keeps-publish_terminal :
    (id : String) (status : TurnStatus) (stop failure : String)
    → Keeps (publish_terminal id status stop failure)
unfolding publish_terminal
Keeps-publish_terminal id status stop failure = search (ledger_rules, KeepsAt-publish) depth 14

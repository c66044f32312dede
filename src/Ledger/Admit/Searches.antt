-- ===== src/Ledger/Admit/Searches.antt =====
-- The searches of an admission only converge turns (crates/core/src/ledger.rs, `admit_turn`).
use gamchi.Prelude.{
  String, ◌==◌, ◌≡◌, refl, inr, Bool, not, Option, none, some, List, [], ◌∷◌, Result, ok, err,
}
use gamchi.Wire.{Thread, Turn, failed, is_terminal, failure_worker_gone}
use gamchi.Ledger.Error.{LedgerError, not_found}
use gamchi.Ledger.State.{Ledger}
use gamchi.Ledger.Exec.{Exec, reads, or_else, continue, ◌>>=◌}
use gamchi.Ledger.Files.{read_turn}
use gamchi.Ledger.Evolve.{IsKeyed, Succ-of_live}
use gamchi.Ledger.Keeps.{Quiet-call, Quiet-reads, Quiet-gets, Quiet-attempt, Stored-of_read}
use gamchi.Ledger.Safety.{
  Quiet-clear_in_progress, Quiet-release_live, Quiet-wake_and_drop, Keeps-observe_locked,
}
use gamchi.Ledger.Observe.{publish_terminal_locked, observe_locked, observe}
use gamchi.Ledger.Admit.{
  turn_json_paths, in_flight, recorded_in_flight, scan_client, in_flight_by_client,
  existing_for_client, scan_thread, recorded_on_thread, live_turn_on_thread_locked,
}
use gamchi.Ledger.Admit.Converged.{
  worker_gone, Converged, Converged-of_same, Converging, Converging-of_Quiet, Converging-pure,
  Converging-raise, Converging-reads, Converging-lift, Converging-attempt, Converging-if,
  Converging-bind, ConvergingAt, ConvergingAt-if, ConvergingAt-of, ConvergingAt-bind,
  ConvergingAt-write,
}

ConvergingAt-publish :
    (id : String) (t : Turn)
    → ConvergingAt id t (publish_terminal_locked t failed "" failure_worker_gone)
unfolding publish_terminal_locked
ConvergingAt-publish id t =
    ConvergingAt-if (is_terminal t.status) (λ e. ConvergingAt-of (Converging-pure t))
      λ live.
        ConvergingAt-write id t (worker_gone t) (Succ-of_live t _ refl refl refl refl live)
          (inr (live, refl))
          λ u. Converging-bind (Converging-of_Quiet (Quiet-attempt (Quiet-reads _))) λ thread.
            Converging-bind (Converging-of_Quiet (Quiet-clear_in_progress (worker_gone t) thread))
              λ v. Converging-bind (Converging-of_Quiet (Quiet-release_live _)) λ w.
                Converging-bind (Converging-of_Quiet (Quiet-wake_and_drop _)) λ x. Converging-pure _

module _ {κ} {B : Type κ} where
  Converged-found :
      (id : String) (s : Ledger) (f : Turn → Exec B) (r : Result LedgerError Turn)
      → read_turn id s ≡ r
      → IsKeyed s
      → ((t : Turn) → ConvergingAt id t (f t))
      → Converged s (continue r f s).1
  Converged-found id s f (ok t) e keyed k = (k t).at s keyed (Stored-of_read id s e)
  Converged-found id s f (err x) e keyed k = Converged-of_same refl

  Converged-read_turn :
      (id : String) (f : Turn → Exec B)
      → ((t : Turn) → ConvergingAt id t (f t))
      → (s : Ledger) → IsKeyed s
      → Converged s ((reads (read_turn id) >>= f) s).1
  unfolding ◌>>=◌
  Converged-read_turn id f k s keyed = Converged-found id s f (read_turn id s) refl keyed k

pub Converging-observe_locked : (id : String) → Converging (observe_locked id)
unfolding observe_locked
Converging-observe_locked id = record {
  keeps = Keeps-observe_locked id;
  at = Converged-read_turn id _ λ t.
      ConvergingAt-if (is_terminal t.status) (λ e. ConvergingAt-of (Converging-pure t))
        λ e. ConvergingAt-bind (Quiet-reads _) λ g. ConvergingAt-bind (Quiet-gets _) λ dead.
          ConvergingAt-if (not dead) (λ e. ConvergingAt-of (Converging-pure t))
            λ e. ConvergingAt-publish id t;
}

pub Converging-observe : (id : String) → Converging (observe id)
unfolding observe
Converging-observe id = Converging-bind (Converging-lift _) λ u.
    Converging-bind (Converging-reads _)
      λ named. Converging-bind (Converging-of_Quiet Quiet-call) λ v. Converging-observe_locked id

Converging-in_flight :
    (test : Turn → Bool) (r : Result LedgerError Turn) → Converging (in_flight test r)
unfolding in_flight
Converging-in_flight test (ok t) = Converging-pure _
Converging-in_flight test (err (not_found kind id)) = Converging-pure _
Converging-in_flight test (err e) = Converging-raise _

Converging-turn_json_paths : Converging turn_json_paths
unfolding turn_json_paths
Converging-turn_json_paths =
    Converging-bind (Converging-of_Quiet Quiet-call) λ u. Converging-of_Quiet (Quiet-gets _)

Converging-or_else {ℓ} :
    {A : Type ℓ} (o : Option A) {m : Exec (Option A)} → Converging m → Converging (or_else o m)
unfolding or_else
Converging-or_else (some a) c = Converging-pure (some a)
Converging-or_else none c = c

Converging-recorded_in_flight :
    (key : String) (id : Option String) → Converging (recorded_in_flight key id)
unfolding recorded_in_flight
Converging-recorded_in_flight key none = Converging-pure _
Converging-recorded_in_flight key (some id) =
    Converging-bind (Converging-attempt (Converging-observe id)) λ r. Converging-in_flight _ r

pub Converging-scan_client :
    (key : String) (stems : List String) → Converging (scan_client key stems)
unfolding scan_client
Converging-scan_client key [] = Converging-pure _
Converging-scan_client key (stem ∷ stems) =
    let ih = Converging-scan_client key stems in
    Converging-bind (Converging-reads _) λ found.
      Converging-if (not (found.client_request_id == key)) ih (
        Converging-bind (Converging-observe found.id)
          λ turn. Converging-if (is_terminal turn.status) ih (Converging-pure (some turn)))

pub Converging-existing_for_client : (key : Option String) → Converging (existing_for_client key)
unfolding existing_for_client in_flight_by_client
Converging-existing_for_client none = Converging-pure _
Converging-existing_for_client (some key) = Converging-bind (Converging-reads _) λ id.
    Converging-bind (Converging-recorded_in_flight key id) λ recorded.
      Converging-or_else recorded
        (Converging-bind Converging-turn_json_paths λ stems. Converging-scan_client key stems)

Converging-scan_thread :
    (thread_id : String) (stems : List String) → Converging (scan_thread thread_id stems)
unfolding scan_thread
Converging-scan_thread thread_id [] = Converging-pure _
Converging-scan_thread thread_id (stem ∷ stems) =
    let ih = Converging-scan_thread thread_id stems in
    Converging-bind (Converging-reads _) λ found.
      Converging-if (not (found.thread_id == thread_id)) ih (
        Converging-bind
          (Converging-if (is_terminal found.status) (Converging-pure found)
            (Converging-observe_locked found.id))
          λ turn. Converging-if (is_terminal turn.status) ih (Converging-pure (some turn)))

Converging-recorded_on_thread : (t : Thread) → Converging (recorded_on_thread t)
unfolding recorded_on_thread
Converging-recorded_on_thread t = Converging-if _ (Converging-pure _) (
    Converging-bind (Converging-attempt (Converging-observe_locked _))
      λ r. Converging-in_flight _ r)

pub Converging-live_turn : (t : Thread) → Converging (live_turn_on_thread_locked t)
unfolding live_turn_on_thread_locked
Converging-live_turn t = Converging-bind (Converging-recorded_on_thread t) λ recorded.
    Converging-or_else recorded
      (Converging-bind Converging-turn_json_paths λ stems. Converging-scan_thread t.id stems)

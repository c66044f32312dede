-- ===== src/Ledger/Admit/Effect.antt =====
-- The effect of an admission (crates/core/src/ledger.rs, `admit_turn`) on the turn files.
use gamchi.Prelude.{
  ℕ, String, ◌≡◌, refl, sym, subst, ◌⊎◌, inl, inr, false, Option, none, some, Result, ok, err,
}
use gamchi.Prelude.Assoc.{insert}
use gamchi.Wire.{Thread, Turn, is_terminal}
use gamchi.Ledger.Error.{LedgerError}
use gamchi.Ledger.Ids.{format_id, validate_id}
use gamchi.Ledger.State.{Ledger, good}
use gamchi.Ledger.Exec.{Exec, raise, continue, ◌>>=◌}
use gamchi.Ledger.Evolve.{Stored, IsKeyed, Evolves, Safe-refl, Safe-of_same, Evolves-trans}
use gamchi.Ledger.Keeps.{Quiet-call}
use gamchi.Ledger.Post.{Post, Post-pure}
use gamchi.Ledger.Admit.{
  NewTurn, in_flight_by_client, existing_for_client, client_key, start_turn, start_if_idle,
  admit_on_thread, return_or_admit, admit_turn,
}
use gamchi.Ledger.Admit.Start.{bump, started_turn, start_turn_lem}
use gamchi.Ledger.Admit.Idle.{ThreadIsIdle, live_turn-FindsLive}
use gamchi.Ledger.Admit.Converged.{
  Converged, Converged-of_same, Converged-trans, Converging, Converging-of_Quiet, Converging-lift,
  Converging-reads,
}
use gamchi.Ledger.Admit.Searches.{Converging-existing_for_client, Converging-live_turn}
use gamchi.Ledger.Admit.Existing.{FoundFor, in_flight_by_client-Finds}

-- No turn file has an id that the process can make at this instant.
abbrev pub IsFresh : Ledger → Type 0
IsFresh s = (k : ℕ) (t : Turn) → ¬ Stored (format_id "tu" s.os.pid s.os.nanos k) t s

-- `u` has one turn file more than a state that evolved from `s`: the turn `n`, in flight on a
-- thread of which all other turns were terminal.
pub record Admits (n : Turn) (s u : Ledger) : Type 0 where
  pub before : Ledger
  pub evolved : Evolves s before
  pub converged : Converged s before
  pub keyed : IsKeyed before
  pub absent : (t : Turn) → ¬ Stored n.id t before
  pub idle : ThreadIsIdle n.thread_id before
  pub live : is_terminal n.status ≡ false
  pub added : u.turns ≡ insert n.id (good n) before.turns

-- The turn has what the admission asks for.
abbrev pub Asked : NewTurn → Turn → Type 0
Asked spec n = (n.input ≡ spec.input) × (n.model ≡ spec.model) × (n.effort ≡ spec.effort)

-- The result of an admission that adds no turn: an error, or a turn that is stored and in flight
-- with the client's request id.
abbrev pub Answered : NewTurn → Result LedgerError Turn → Ledger → Type 0
Answered spec r u =
    ((e : LedgerError) × (r ≡ err e))
    ⊎ ((t : Turn) × (r ≡ ok t)
        × Stored t.id t u
        × (is_terminal t.status ≡ false)
        × (client_key spec.client_request_id ≡ some t.client_request_id))

-- The effect of an admission with its result. Either way the turns that were there before are still
-- there, each one as it was or converged.
abbrev pub Admission : NewTurn → Result LedgerError Turn → Ledger → Ledger → Type 0
Admission spec r s u =
    ((n : Turn) × (r ≡ ok n) × Asked spec n × Admits n s u)
    ⊎ (IsKeyed u × Evolves s u × Converged s u × Answered spec r u)

IsFresh-Evolves : {s u : Ledger} → Evolves s u → IsFresh s → IsFresh u
IsFresh-Evolves {s} {u} e fresh k t stored =
    let id = format_id "tu" u.os.pid u.os.nanos k in
    let (t0, stored0, c) = e.origin id t stored in
    fresh k t0 (subst (λ o. Stored (format_id "tu" o.pid o.nanos k) t0 s) e.same_os stored0)

start_turn-Admission :
    (spec : NewTurn) (thread : Thread) (s : Ledger)
    → IsKeyed s
    → IsFresh s
    → ThreadIsIdle thread.id s
    → Admission spec (start_turn spec thread s).0 s (start_turn spec thread s).1
start_turn-Admission spec thread s keyed fresh idle = elim (start_turn_lem spec thread s) [
  | inl (r, files) ↦ inl (
    started_turn spec thread s,
    r,
    (refl, refl, refl),
    record {
      before = s;
      evolved = ((Safe-refl s).safe keyed).1;
      converged = Converged-of_same refl;
      keyed = keyed;
      absent = λ t. fresh (bump s.seq) t;
      idle = idle;
      live = refl;
      added = files;
    },
  )
  | inr (e, r, same) ↦
      let (k, v) = (Safe-of_same same).safe keyed in
      inr (k, v, Converged-of_same same.0, inl (e, r))
]

module _ (spec : NewTurn) where
  Admission-after :
      {s t u : Ledger} (r : Result LedgerError Turn)
      → Evolves s t
      → Converged s t
      → Admission spec r t u
      → Admission spec r s u
  Admission-after r e c (inl (n, same, asked, a)) = inl (
    n,
    same,
    asked,
    record {
      before = a.before;
      evolved = Evolves-trans e a.evolved;
      converged = Converged-trans c a.converged;
      keyed = a.keyed;
      absent = a.absent;
      idle = a.idle;
      live = a.live;
      added = a.added;
    },
  )
  Admission-after r e c (inr (k, h, d, answered)) =
      inr (k, Evolves-trans e h, Converged-trans c d, answered)

  -- A method that has such an effect from the states in `P`.
  record Admitting (P : Ledger → Type 0) (m : Exec Turn) : Type 0 where
    at : (s : Ledger) → P s → IsKeyed s → IsFresh s → Admission spec (m s).0 s (m s).1

  Admitting-raise : {P : Ledger → Type 0} (e : LedgerError) → Admitting P (raise e)
  Admitting-raise e = record {
    at = λ s p keyed fresh.
        let (k, v) = (Safe-refl s).safe keyed in inr (k, v, Converged-of_same refl, inl (e, refl));
  }

  module _ {A : Type 0} (R : A → Ledger → Type 0) where
    continue-Admission :
        (f : A → Exec Turn) (s t : Ledger) (r : Result LedgerError A)
        → IsKeyed t
        → Evolves s t
        → Converged s t
        → IsFresh t
        → ((a : A) → r ≡ ok a → R a t)
        → ((a : A) → Admitting (R a) (f a))
        → Admission spec (continue r f t).0 s (continue r f t).1
    continue-Admission f s t (ok a) keyed e c fresh h k =
        Admission-after (f a t).0 e c ((k a).at t (h a refl) keyed fresh)
    continue-Admission f s t (err x) keyed e c fresh h k = inr (keyed, e, c, inl (x, refl))

    Admitting-bind :
        {P : Ledger → Type 0} {m : Exec A} {f : A → Exec Turn}
        → Converging m
        → ((s : Ledger) → P s → IsKeyed s → (a : A) → (m s).0 ≡ ok a → R a (m s).1)
        → ((a : A) → Admitting (R a) (f a))
        → Admitting P (m >>= f)
    unfolding ◌>>=◌
    Admitting-bind {m} {f} k post kf = record {
      at = λ s p keyed fresh.
          let (keyed', e) = (k.keeps.at s).safe keyed in
          continue-Admission f s (m s).1 (m s).0 keyed' e (k.at s keyed) (IsFresh-Evolves e fresh)
            (post s p keyed) kf;
    }

abbrev Anything : {A : Type 0} → A → Ledger → Type 0
Anything a s = Unit

start_if_idle-Admitting :
    (spec : NewTurn) (thread : Thread) (current : Option Turn)
    → Admitting spec
        (λ s. current ≡ none → ThreadIsIdle thread.id s)
        (start_if_idle spec thread current)
unfolding start_if_idle
start_if_idle-Admitting spec thread (some t) = Admitting-raise spec _
start_if_idle-Admitting spec thread none = record {
  at = λ s idle keyed fresh. start_turn-Admission spec thread s keyed fresh (idle refl);
}

admit_on_thread-Admitting : (spec : NewTurn) → Admitting spec (λ s. Unit) (admit_on_thread spec)
unfolding admit_on_thread
admit_on_thread-Admitting spec =
    Admitting-bind spec Anything (Converging-of_Quiet Quiet-call) (λ s p k a e. tt)
      λ u.
        Admitting-bind spec Anything (Converging-reads _) (λ s p k a e. tt)
          λ thread.
            Admitting-bind spec (λ o s. o ≡ none → ThreadIsIdle thread.id s)
              (Converging-live_turn thread) (λ s p k a e. (live_turn-FindsLive thread).at s k a e)
              λ current. start_if_idle-Admitting spec thread current

-- The turn, if there is one, that the client's request id has named.
abbrev Existing : Option String → Option Turn → Ledger → Type 0
Existing key none s = Unit
Existing key (some t) s =
    Stored t.id t s × (is_terminal t.status ≡ false) × (key ≡ some t.client_request_id)

Existing-of_FoundFor :
    (key : String) (o : Option Turn) (s : Ledger) → FoundFor key o s → Existing (some key) o s
Existing-of_FoundFor key none s h = tt
Existing-of_FoundFor key (some t) s (stored, live, same) = (stored, live, λ i. some (sym same i))

existing_for_client-Existing :
    (key : Option String) → Post IsKeyed (existing_for_client key) (Existing key)
unfolding existing_for_client
existing_for_client-Existing none = Post-pure none (λ s k. tt)
existing_for_client-Existing (some key) = record {
  at = λ s k o e.
      Existing-of_FoundFor key o (in_flight_by_client key s).1
        ((in_flight_by_client-Finds key).at s k o e);
}

return_or_admit-Admitting :
    (spec : NewTurn) (o : Option Turn)
    → Admitting spec (Existing (client_key spec.client_request_id) o) (return_or_admit spec o)
unfolding return_or_admit
return_or_admit-Admitting spec (some t) = record {
  at = λ s (stored, live, named) keyed fresh.
      let (k, v) = (Safe-refl s).safe keyed in
      inr (k, v, Converged-of_same refl, inr (t, refl, stored, live, named));
}
return_or_admit-Admitting spec none = record {
  at = λ s p keyed fresh. (admit_on_thread-Admitting spec).at s tt keyed fresh;
}

admit_turn-Admitting : (spec : NewTurn) → Admitting spec (λ s. Unit) (admit_turn spec)
unfolding admit_turn
admit_turn-Admitting spec =
    let key = client_key spec.client_request_id in
    Admitting-bind spec Anything (Converging-lift (validate_id spec.thread_id)) (λ s p k a e. tt)
      λ u.
        Admitting-bind spec Anything (Converging-of_Quiet Quiet-call) (λ s p k a e. tt)
          λ u.
            Admitting-bind spec (Existing key) (Converging-existing_for_client key)
              (λ s p k a e. (existing_for_client-Existing key).at s k a e)
              λ existing. return_or_admit-Admitting spec existing

pub admit_turn-Admission :
    (spec : NewTurn) (s : Ledger)
    → IsKeyed s
    → IsFresh s
    → Admission spec (admit_turn spec s).0 s (admit_turn spec s).1
admit_turn-Admission spec s keyed fresh = (admit_turn-Admitting spec).at s tt keyed fresh

-- ===== src/Ledger/Admit/Idle.antt =====
-- The scan of the turn files for a turn in flight on a thread (crates/core/src/ledger.rs,
-- `live_turn_on_thread_locked`), and the turns of the thread after it.
use gamchi.Prelude.{
  String, inl, inr, ◌==◌, eq_iff, ◌≡◌, sym, ◌∙◌, ap, subst, Bool, true, not, Option, none, some,
  List, [], ◌∷◌, All, All-mem, Result, ok, err, arith, if◌then◌else◌,
}
use gamchi.Prelude.Assoc.{keys, mem-keys}
use gamchi.Wire.{Thread, Turn, is_terminal}
use gamchi.Ledger.Error.{LedgerError, not_found}
use gamchi.Ledger.State.{Ledger}
use gamchi.Ledger.Exec.{Exec, pure, or_else, ◌>>=◌}
use gamchi.Ledger.Evolve.{Succ, Stored, Stored-inj, IsKeyed, Evolves}
use gamchi.Ledger.Keeps.{
  Keeps, Keeps-bind, Keeps-reads, Keeps-if, Keeps-pure, Keeps-raise, Keeps-of_Quiet, Quiet-call,
  keeps_rules,
}
use gamchi.Ledger.Post.{Post, Post-pure, Post-reads, Post-if, Post-bind, Post-IsKeyed, ok-inj}
use gamchi.Ledger.Safety.{Keeps-observe_locked, observe_locked-Stored}
use gamchi.Ledger.Observe.{observe_locked}
use gamchi.Ledger.Admit.{
  turn_json_paths, read_path, in_flight, scan_thread, recorded_on_thread,
  live_turn_on_thread_locked,
}

-- A turn that was terminal is terminal in its later records.
pub Succ-terminal :
    {t u : Turn} → Succ t u → is_terminal t.status ≡ true → is_terminal u.status ≡ true
Succ-terminal {t} {u} c h = elim (c.final h) [
  | inl e ↦ subst (λ (x : Turn). is_terminal x.status ≡ true) (sym e) h
  | inr e ↦ subst (λ (x : Turn). is_terminal x.status ≡ true) (sym e) h
]

-- The file `stem` holds a turn, which is terminal if it belongs to the thread.
abbrev pub IsIdle : String → Ledger → String → Type 0
IsIdle thread_id s stem =
    (t : Turn) × Stored stem t s × (t.thread_id ≡ thread_id → is_terminal t.status ≡ true)

IsIdle-Evolves :
    (thread_id : String) {s u : Ledger} (stem : String)
    → Evolves s u
    → IsIdle thread_id s stem
    → IsIdle thread_id u stem
IsIdle-Evolves thread_id stem e (t, stored, idle) =
    let (t', stored', c) = e.kept stem t stored in
    (t', stored', λ h. Succ-terminal c (idle (sym c.thread_id ∙ h)))

-- All turns of the thread are terminal.
abbrev pub ThreadIsIdle : String → Ledger → Type 0
ThreadIsIdle thread_id s =
    (id : String) (t : Turn) → Stored id t s → t.thread_id ≡ thread_id → is_terminal t.status ≡ true

pub Keeps-in_flight : (test : Turn → Bool) (r : Result LedgerError Turn) → Keeps (in_flight test r)
unfolding in_flight
Keeps-in_flight test (ok t) = Keeps-pure _
Keeps-in_flight test (err (not_found kind id)) = Keeps-pure _
Keeps-in_flight test (err e) = Keeps-raise _

Keeps-recorded_on_thread : (t : Thread) → Keeps (recorded_on_thread t)
unfolding recorded_on_thread
Keeps-recorded_on_thread t = search (keeps_rules, Keeps-observe_locked, Keeps-in_flight)

pub Keeps-turn_json_paths : Keeps turn_json_paths
unfolding turn_json_paths
Keeps-turn_json_paths = search keeps_rules

pub Stored-of_path :
    (stem : String) (s : Ledger) {t : Turn} → read_path stem s ≡ ok t → Stored stem t s
unfolding read_path
Stored-of_path stem s e = ground arith

-- One turn of the scan, converged.
abbrev converge : Turn → Exec Turn
converge found = if is_terminal found.status then pure found else observe_locked found.id

Keeps-converge : (t : Turn) → Keeps (converge t)
Keeps-converge t = search (keeps_rules, Keeps-observe_locked)

Keeps-scan_thread : (thread_id : String) (stems : List String) → Keeps (scan_thread thread_id stems)
unfolding scan_thread
Keeps-scan_thread thread_id [] = Keeps-pure _
Keeps-scan_thread thread_id (stem ∷ stems) =
    let ih = Keeps-scan_thread thread_id stems in
    Keeps-bind (Keeps-reads _) λ found.
      Keeps-if (not (found.thread_id == thread_id)) (λ e. ih)
        λ e.
          Keeps-bind (Keeps-converge found)
            λ turn. Keeps-if (is_terminal turn.status) (λ e. ih) (λ e. Keeps-pure (some turn))

pub Keeps-live_turn : (t : Thread) → Keeps (live_turn_on_thread_locked t)
unfolding live_turn_on_thread_locked
Keeps-live_turn t =
    search (keeps_rules, Keeps-recorded_on_thread, Keeps-turn_json_paths, Keeps-scan_thread)

-- What a scan that finds nothing leaves.
abbrev ScanIdle : String → List String → Option Turn → Ledger → Type 0
ScanIdle thread_id stems r s = r ≡ none → All (IsIdle thread_id s) stems

-- The rest of a scan, after a file that is idle.
rest-ScanIdle :
    {P : Ledger → Type 0} (thread_id stem : String) (stems : List String) {m : Exec (Option Turn)}
    → ((s : Ledger) → P s → IsKeyed s × IsIdle thread_id s stem)
    → Keeps m
    → Post IsKeyed m (ScanIdle thread_id stems)
    → Post P m (ScanIdle thread_id (stem ∷ stems))
rest-ScanIdle thread_id stem stems {m} h k p = record {
  at = λ s q a e.
      let (keyed, idle) = h s q in
      let (keyed', evolved) = (k.at s).safe keyed in
      λ found. (IsIdle-Evolves thread_id stem evolved idle, p.at s keyed a e found);
}

-- The file `stem` holds the turn.
abbrev Holds : String → Turn → Ledger → Type 0
Holds stem t s = IsKeyed s × Stored stem t s

converge-Holds :
    (stem : String) (found : Turn) → Post (Holds stem found) (converge found) (Holds stem)
converge-Holds stem found =
    Post-if (is_terminal found.status) (λ e. Post-pure found (λ s h. h))
      λ e. record {
        at = λ s h t same.
            let named : found.id ≡ stem = h.0.keyed stem found h.1 in
            (
              (((Keeps-observe_locked found.id).at s).safe h.0).0,
              subst (λ x. Stored x t (observe_locked found.id s).1) named
                  ((observe_locked-Stored found.id).at s h.0 t same),
            );
      }

IsIdle-of_other :
    (thread_id stem : String) (found : Turn) (s : Ledger)
    → not (found.thread_id == thread_id) ≡ true
    → Stored stem found s
    → IsIdle thread_id s stem
IsIdle-of_other thread_id stem found s e stored =
    (found, stored, λ same. ground (arith, eq_iff found.thread_id thread_id))

scan_thread-ScanIdle :
    (thread_id : String) (stems : List String)
    → Post IsKeyed (scan_thread thread_id stems) (ScanIdle thread_id stems)
unfolding scan_thread
scan_thread-ScanIdle thread_id [] = Post-pure none (λ s k e. tt)
scan_thread-ScanIdle thread_id (stem ∷ stems) =
    let ih = scan_thread-ScanIdle thread_id stems in
    let keeps = Keeps-scan_thread thread_id stems in
    Post-bind {R = Holds stem}
      (Post-reads (read_path stem) (λ s k t e. (k, Stored-of_path stem s e)))
      λ found.
        Post-if (not (found.thread_id == thread_id))
          (λ e.
            rest-ScanIdle thread_id stem stems
              (λ s h. (h.0, IsIdle-of_other thread_id stem found s e h.1)) keeps ih)
          λ e. Post-bind {R = Holds stem} (converge-Holds stem found) λ turn.
            Post-if (is_terminal turn.status)
              (λ e.
                rest-ScanIdle thread_id stem stems (λ s h. (h.0, (turn, h.1, λ same. e))) keeps ih)
              λ e. Post-pure (some turn) (λ s h found. cc)

-- All files that the listing named are idle, and no other file has come.
listed-ThreadIsIdle :
    (thread_id : String) (s u : Ledger)
    → Evolves s u
    → All (IsIdle thread_id u) (keys s.turns)
    → ThreadIsIdle thread_id u
listed-ThreadIsIdle thread_id s u e idle id t stored same =
    let (t0, stored0, c) = e.origin id t stored in
    let (t1, stored1, h) =
      All-mem (IsIdle thread_id u) (keys s.turns) id idle (mem-keys id s.turns stored0) in
    let t1t : t1 ≡ t = Stored-inj id u stored1 stored in
    subst (λ (x : Turn). is_terminal x.status ≡ true) t1t
      (h (ap (λ (x : Turn). x.thread_id) t1t ∙ same))

-- The listing names every turn file.
abbrev Listed : List String → Ledger → Type 0
Listed stems s = IsKeyed s × (keys s.turns ≡ stems)

turn_json_paths-Listed : Post IsKeyed turn_json_paths Listed
unfolding turn_json_paths
turn_json_paths-Listed =
    Post-bind {R = λ u. IsKeyed} (Post-IsKeyed (Keeps-of_Quiet Quiet-call))
      λ u. Post-reads (λ s. ok (keys s.turns)) (λ s k a e. (k, ok-inj e))

-- What a search for a turn in flight on the thread promises.
abbrev FindsLive : String → Exec (Option Turn) → Type 0
FindsLive thread_id m = Post IsKeyed m (λ r s. r ≡ none → ThreadIsIdle thread_id s)

scan_all-FindsLive :
    (thread_id : String) → FindsLive thread_id (turn_json_paths >>= scan_thread thread_id)
scan_all-FindsLive thread_id = Post-bind {R = Listed} turn_json_paths-Listed λ stems. record {
  at = λ s h r e found.
      let (keyed, evolved) = ((Keeps-scan_thread thread_id stems).at s).safe h.0 in
      let idle = (scan_thread-ScanIdle thread_id stems).at s h.0 r e found in
      listed-ThreadIsIdle thread_id s (scan_thread thread_id stems s).1 evolved
        (subst (All (IsIdle thread_id (scan_thread thread_id stems s).1)) (sym h.1) idle);
}

or_else-FindsLive :
    (thread_id : String) (o : Option Turn) (m : Exec (Option Turn))
    → FindsLive thread_id m
    → FindsLive thread_id (or_else o m)
unfolding or_else
or_else-FindsLive thread_id (some t) m h = Post-pure (some t) (λ s k found. cc)
or_else-FindsLive thread_id none m h = h

pub live_turn-FindsLive : (t : Thread) → FindsLive t.id (live_turn_on_thread_locked t)
unfolding live_turn_on_thread_locked
live_turn-FindsLive t =
    Post-bind {R = λ o. IsKeyed} (Post-IsKeyed (Keeps-recorded_on_thread t))
      λ o. or_else-FindsLive t.id o _ (scan_all-FindsLive t.id)

-- Where the search for a turn in flight on a thread finds none, every stored turn of the thread is
-- terminal, if the turn files are named by the ids in them.
live_turn-idle :
    (thread : Thread) (s : Ledger) (id : String) (t : Turn)
    → IsKeyed s
    → (live_turn_on_thread_locked thread s).0 ≡ ok none
    → Stored id t (live_turn_on_thread_locked thread s).1
    → t.thread_id ≡ thread.id
    → is_terminal t.status ≡ true
live_turn-idle thread s id t keyed none_found =
    (live_turn-FindsLive thread).at s keyed none none_found (λ i. none) id t

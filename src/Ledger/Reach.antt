-- ===== src/Ledger/Reach.antt =====
-- The ledger as a transition system: any methods of any processes, one after the other, with the
-- state of the operating system and of the processes changing in between. What other processes
-- run is a step here too, since every method takes its locks for its whole critical section.
use gamchi.Prelude.{
  ℕ, String, ◌≡◌, sym, ◌∙◌, ap, subst, ◌⊎◌, inl, inr, true, false, Bool-cases, Option, none, some,
  [], arith, if◌then◌else◌, eq_iff, ◌==◌,
}
use gamchi.Prelude.Assoc.{lookup, lookup-insert}
use gamchi.Wire.{Turn, TurnStatus, Item, ApprovalDecision, is_terminal}
use gamchi.Ledger.State.{Ledger, Body, good}
use gamchi.Ledger.Evolve.{Succ, Succ-refl, Succ-trans, Stored, IsKeyed, Safe, unparked}
use gamchi.Ledger.Observe.{observe, cancel, publish_terminal}
use gamchi.Ledger.Safety.{Keeps-observe, Keeps-cancel, Keeps-publish_terminal}
use gamchi.Ledger.Admit.{NewThread, NewTurn, create_thread, admit_turn}
use gamchi.Ledger.Admit.Effect.{IsFresh, Admits, admit_turn-Admission}
use gamchi.Ledger.Admit.Single.{SingleLive, SingleLive-Evolves, admit_turn-SingleLive}
use gamchi.Ledger.Listing.{list_turns}
use gamchi.Ledger.Approval.{park_approval, respond, clear_pending}
use gamchi.Ledger.Items.{upsert_item, set_acp_session_id, set_child_pid, mark_child_eof}
use gamchi.Ledger.Methods.{
  Keeps-create_thread, Keeps-list_turns, Keeps-park_approval, Keeps-respond, Keeps-clear_pending,
  Keeps-upsert_item, Keeps-set_acp_session_id, Keeps-set_child_pid, Keeps-mark_child_eof,
}

-- The methods that may write, but for the admission. The polls of the blocking calls are `observe`.
pub data Method : Type 0 where
  create : NewThread → Method
  observing : String → Method
  cancelling : String → Method
  publishing : String → TurnStatus → String → String → Method
  listing : Option String → Method
  parking : String → Method
  responding : String → ApprovalDecision → Method
  clearing : String → String → Method
  upserting : String → Item → Method
  naming_session : String → String → Method
  naming_child : String → ℕ → Method
  ending_child : String → Method

abbrev pub run : Method → Ledger → Ledger
run (create spec) s = (create_thread spec s).1
run (observing id) s = (observe id s).1
run (cancelling id) s = (cancel id s).1
run (publishing id status stop failure) s = (publish_terminal id status stop failure s).1
run (listing cwd) s = (list_turns cwd s).1
run (parking id) s = (park_approval id s).1
run (responding request d) s = (respond request d s).1
run (clearing id request) s = (clear_pending id request s).1
run (upserting id item) s = (upsert_item id item s).1
run (naming_session id session) s = (set_acp_session_id id session s).1
run (naming_child id pid) s = (set_child_pid id pid s).1
run (ending_child id) s = (mark_child_eof id s).1

-- `elsewhere` is another process taking its turn, with what it holds and what the operating system
-- tells it: everything but the turn files may differ.
pub data Step (s : Ledger) : Ledger → Type 0 where
  act : (m : Method) → Step s (run m s)
  admit : (spec : NewTurn) → IsFresh s → Step s (admit_turn spec s).1
  elsewhere : (u : Ledger) → u.turns ≡ s.turns → Step s u

pub data Reach (s : Ledger) : Ledger → Type 0 where
  here : Reach s s
  next : {t u : Ledger} → Reach s t → Step t u → Reach s u

run-Safe : (m : Method) (s : Ledger) → Safe s (run m s)
run-Safe (create spec) s = (Keeps-create_thread spec).at s
run-Safe (observing id) s = (Keeps-observe id).at s
run-Safe (cancelling id) s = (Keeps-cancel id).at s
run-Safe (publishing id status stop failure) s =
    (Keeps-publish_terminal id status stop failure).at s
run-Safe (listing cwd) s = (Keeps-list_turns cwd).at s
run-Safe (parking id) s = (Keeps-park_approval id).at s
run-Safe (responding request d) s = (Keeps-respond request d).at s
run-Safe (clearing id request) s = (Keeps-clear_pending id request).at s
run-Safe (upserting id item) s = (Keeps-upsert_item id item).at s
run-Safe (naming_session id session) s = (Keeps-set_acp_session_id id session).at s
run-Safe (naming_child id pid) s = (Keeps-set_child_pid id pid).at s
run-Safe (ending_child id) s = (Keeps-mark_child_eof id).at s

-- Every stored turn stays stored, as a later record of itself.
abbrev pub Persists : Ledger → Ledger → Type 0
Persists s u = (id : String) (t : Turn) → Stored id t s → (t' : Turn) × Stored id t' u × Succ t t'

module _ (n : Turn) (s u : Ledger) (a : Admits n s u) where
  Admits-Persists : Persists s u
  Admits-Persists id t stored =
      let (t', h, c) = a.evolved.kept id t stored in
      (t', ap (lookup id) a.added ∙ (lookup-insert n.id id (good n) a.before.turns ∙ other t' h), c)
    where
      other :
          (t' : Turn)
          → Stored id t' a.before
          → ◌≡◌ {A = Option (Body Turn)}
              (if n.id == id then some (good n) else lookup id a.before.turns)
              (some (good t'))
      other t' h = elim (Bool-cases (n.id == id)) [
        | inl same ↦
            absurd
              (a.absent t' (subst (λ x. Stored x t' a.before) (sym ((eq_iff n.id id).0 same)) h))
        | inr differ ↦ rw differ h
      ]

  Admits-IsKeyed : IsKeyed u
  Admits-IsKeyed = record {
    keyed = λ j v h. ground (
      arith,
      ap (lookup j) a.added,
      lookup-insert n.id j (good n) a.before.turns,
      eq_iff n.id j,
      a.keyed.keyed j v,
    );
  }

-- The two invariants of the turn files.
pub record IsSound (s : Ledger) : Type 0 where
  pub keyed : IsKeyed s
  pub single : SingleLive s

abbrev Moves : Ledger → Ledger → Type 0
Moves s u = IsSound s → IsSound u × Persists s u

Moves-of_Safe : {s u : Ledger} → Safe s u → Moves s u
Moves-of_Safe h sound =
    let (keyed, e) = h.safe sound.keyed in
    (record { keyed = keyed; single = SingleLive-Evolves e sound.single }, e.kept)

Moves-admit : (spec : NewTurn) (s : Ledger) → IsFresh s → Moves s (admit_turn spec s).1
Moves-admit spec s fresh sound =
    let single = admit_turn-SingleLive spec s sound.keyed fresh sound.single in
    elim (admit_turn-Admission spec s sound.keyed fresh) [
      | inl (n, r, asked, a) ↦ (
        record { keyed = Admits-IsKeyed n s (admit_turn spec s).1 a; single = single },
        Admits-Persists n s (admit_turn spec s).1 a,
      )
      | inr (keyed, e, _, _) ↦ (record { keyed = keyed; single = single }, e.kept)
    ]

same_turns-Moves : {s u : Ledger} → u.turns ≡ s.turns → Moves s u
same_turns-Moves {s} {u} e sound =
    let back = λ (id : String) (t : Turn) (h : Stored id t u). ap (lookup id) (sym e) ∙ h in
    (
      record {
        keyed = record { keyed = λ id t h. sound.keyed.keyed id t (back id t h) };
        single = λ i j t v h k. sound.single i j t v (back i t h) (back j v k);
      },
      λ id t h. (t, ap (lookup id) e ∙ h, Succ-refl t),
    )

Step-Moves : {s u : Ledger} → Step s u → Moves s u
Step-Moves {s} (act m) = Moves-of_Safe (run-Safe m s)
Step-Moves {s} (admit spec fresh) = Moves-admit spec s fresh
Step-Moves (elsewhere u e) = same_turns-Moves e

Reach-Moves : {s u : Ledger} → Reach s u → Moves s u
Reach-Moves {s} here sound = (sound, λ id t h. (t, h, Succ-refl t))
Reach-Moves (next r st) sound =
    let (sound', p) = Reach-Moves r sound in
    let (sound'', q) = Step-Moves st sound' in
    (
      sound'',
      λ id t h.
          let (t1, h1, c1) = p id t h in
          let (t2, h2, c2) = q id t1 h1 in (t2, h2, Succ-trans c1 c2),
    )

pub Reach-IsSound : {s u : Ledger} → Reach s u → s.turns ≡ [] → IsSound u
unfolding lookup
Reach-IsSound {s} r e =
    let none_stored =
      λ (id : String) (t : Turn) (h : Stored id t s). not_in_empty (sym (ap (lookup id) e) ∙ h) in
    (Reach-Moves r (record {
      keyed = record { keyed = λ id t h. absurd (none_stored id t h) };
      single = λ i j t v h k. absurd (none_stored i t h);
    })).0
  where
    not_in_empty : {t : Turn} → ¬ (◌≡◌ {A = Option (Body Turn)} none (some (good t)))
    not_in_empty e = cc

-- The first terminal record of a turn wins: from a ledger with both invariants, in every state that
-- methods reach by making fresh ids, the turn is stored, and its record is the same, or the same
-- with its parked request and the decision on it cleared.
pub first_terminal_wins :
    {s u : Ledger} (id : String) (t : Turn)
    → IsSound s
    → Reach s u
    → Stored id t s
    → is_terminal t.status ≡ true
    → (t' : Turn) × Stored id t' u × ((t' ≡ t) ⊎ (t' ≡ unparked t))
first_terminal_wins id t sound r stored final =
    let (t', h, c) = (Reach-Moves r sound).1 id t stored in (t', h, c.final final)

-- Whatever methods any processes run, one after the other, from a ledger with no turn, each
-- admission with fresh ids: two stored turns that are in flight on one thread are the same turn.
pub Reach-single :
    {s u : Ledger} (i j : String) (t v : Turn)
    → Reach s u
    → s.turns ≡ []
    → Stored i t u
    → Stored j v u
    → is_terminal t.status ≡ false
    → is_terminal v.status ≡ false
    → t.thread_id ≡ v.thread_id
    → i ≡ j
Reach-single i j t v r e = (Reach-IsSound r e).single i j t v

-- A stored turn never disappears: from a ledger with both invariants, in every later state (each
-- admission with fresh ids) its
-- file holds a record with the same thread, generation and client's request id.
pub Reach-Stored :
    {s u : Ledger} (id : String) (t : Turn)
    → IsSound s
    → Reach s u
    → Stored id t s
    → (t' : Turn) × Stored id t' u
      × (t'.thread_id ≡ t.thread_id)
      × (t'.generation_id ≡ t.generation_id)
      × (t'.client_request_id ≡ t.client_request_id)
Reach-Stored id t sound r stored =
    let (t', h, c) = (Reach-Moves r sound).1 id t stored in
    (t', h, c.thread_id, c.generation_id, c.client_request_id)

-- ===== src/Ledger/Admit/Existing.antt =====
-- The turn that an admission finds for a client's request id (crates/core/src/ledger.rs,
-- `in_flight_by_client`).
use gamchi.Prelude.{
  String, ◌==◌, eq_iff, ◌≡◌, refl, sym, ◌∙◌, ap, subst, inl, inr, Bool, true, false, not, ◌&&◌,
  arith, Bool-cases, Option, none, some, List, [], ◌∷◌, Result, ok, err,
}
use gamchi.Wire.{Turn, is_terminal}
use gamchi.Ledger.Error.{LedgerError, not_found}
use gamchi.Ledger.State.{Ledger}
use gamchi.Ledger.Exec.{Exec, attempt, or_else}
use gamchi.Ledger.Evolve.{Stored, Stored-inj, IsKeyed}
use gamchi.Ledger.Keeps.{Keeps-of_Quiet, Quiet-call}
use gamchi.Ledger.Post.{
  Post, Post-pure, Post-raise, Post-reads, Post-if, Post-bind, Post-weaken, Post-IsKeyed, ok-inj,
}
use gamchi.Ledger.Safety.{Keeps-observe, observe_locked-Stored}
use gamchi.Ledger.Observe.{observe}
use gamchi.Ledger.Admit.{read_path, in_flight, recorded_in_flight, scan_client, in_flight_by_client}
use gamchi.Ledger.Admit.Idle.{Keeps-turn_json_paths, Stored-of_path}

-- The turn is stored with the client's request id.
abbrev Named : String → Turn → Ledger → Type 0
Named key t s = Stored t.id t s × (t.client_request_id ≡ key)

-- What a search for a turn in flight with that id gives.
abbrev pub FoundFor : String → Option Turn → Ledger → Type 0
FoundFor key none s = Unit
FoundFor key (some t) s =
    Stored t.id t s × (is_terminal t.status ≡ false) × (t.client_request_id ≡ key)

-- With the files named by the ids in them.
abbrev Finds : String → Option Turn → Ledger → Type 0
Finds key o s = IsKeyed s × FoundFor key o s

observe-file : (id : String) → Post IsKeyed (observe id) (λ u s. Stored id u s)
unfolding observe
observe-file id = Post-bind {R = λ u. IsKeyed} (Post-reads _ (λ s k a e. k)) λ u.
    Post-bind {R = λ t. IsKeyed} (Post-reads _ (λ s k a e. k)) λ t.
      Post-bind {R = λ u. IsKeyed} (Post-IsKeyed (Keeps-of_Quiet Quiet-call))
        λ u. observe_locked-Stored id

observe-Stored : (id : String) → Post IsKeyed (observe id) (λ u s. IsKeyed s × Stored u.id u s)
observe-Stored id = record {
  at = λ s k u e.
      let keyed = (((Keeps-observe id).at s).safe k).0 in
      let stored = (observe-file id).at s k u e in
      (keyed, subst (λ x. Stored x u (observe id s).1) (sym (keyed.keyed id u stored)) stored);
}

-- A result that was caught.
abbrev Caught : Result LedgerError Turn → Ledger → Type 0
Caught (ok u) s = IsKeyed s × Stored u.id u s
Caught (err e) s = IsKeyed s

attempt-Caught : (id : String) → Post IsKeyed (attempt (observe id)) Caught
attempt-Caught id = record {
  at = λ s k r e.
      subst (λ x. Caught x (observe id s).1) (ok-inj e) (caught s k (observe id s).0 refl);
}
  where
    caught :
        (s : Ledger)
        → IsKeyed s
        → (r : Result LedgerError Turn) → (observe id s).0 ≡ r
        → Caught r (observe id s).1
    caught s k (ok u) e = (observe-Stored id).at s k u e
    caught s k (err x) e = (((Keeps-observe id).at s).safe k).0

both_true : (a b : Bool) → (a && b) ≡ true → (a ≡ true) × (b ≡ true)
both_true a b h = ground arith

in_flight-Finds :
    (key : String) (r : Result LedgerError Turn)
    → Post (Caught r) (in_flight (λ t. t.client_request_id == key) r) (Finds key)
unfolding in_flight
in_flight-Finds key (ok t) = Post-pure _ λ s h.
    elim (Bool-cases (not (is_terminal t.status) && t.client_request_id == key)) [
      | inl e ↦ rw e (
          let (live, same) =
            both_true (not (is_terminal t.status)) (t.client_request_id == key) e in
          (h.0, (h.1, of_not (is_terminal t.status) live, (eq_iff t.client_request_id key).0 same)))
      | inr e ↦ rw e (h.0, tt)
    ]
  where
    of_not : (b : Bool) → not b ≡ true → b ≡ false
    of_not true e = cc
    of_not false e = refl
in_flight-Finds key (err (not_found kind id)) = Post-pure none (λ s h. (h, tt))
in_flight-Finds key (err e) = Post-raise e

recorded-Finds :
    (key : String) (id : Option String) → Post IsKeyed (recorded_in_flight key id) (Finds key)
unfolding recorded_in_flight
recorded-Finds key none = Post-pure none (λ s k. (k, tt))
recorded-Finds key (some id) = Post-bind {R = Caught} (attempt-Caught id) λ r. in_flight-Finds key r

-- A turn that names the client's request id still does once it has been observed.
observe-Named :
    (key : String) (found : Turn)
    → (found.client_request_id == key) ≡ true
    → Post
        (λ s. IsKeyed s × Stored found.id found s)
        (observe found.id)
        (λ t s. IsKeyed s × Named key t s)
observe-Named key found same = record {
  at = λ s h t e.
      let (keyed, evolved) = ((Keeps-observe found.id).at s).safe h.0 in
      let (keyed', stored) = (observe-Stored found.id).at s h.0 t e in
      let (later, stored', c) = evolved.kept found.id found h.1 in
      let u = (observe found.id s).1 in
      let one : later ≡ t = Stored-inj found.id u stored' ((observe-file found.id).at s h.0 t e) in
      (
        keyed,
        (
          stored,
          ap (λ (x : Turn). x.client_request_id) (sym one)
              ∙ (c.client_request_id ∙ (eq_iff found.client_request_id key).0 same),
        ),
      );
}

scan_client-Finds :
    (key : String) (stems : List String) → Post IsKeyed (scan_client key stems) (Finds key)
unfolding scan_client
scan_client-Finds key [] = Post-pure none (λ s k. (k, tt))
scan_client-Finds key (stem ∷ stems) =
    let ih = scan_client-Finds key stems in
    Post-bind {R = λ t s. IsKeyed s × Stored t.id t s}
      (Post-reads (read_path stem) (λ s k t e.
        let stored = Stored-of_path stem s e in
        (k, subst (λ x. Stored x t s) (sym (k.keyed stem t stored)) stored)))
      λ found.
        Post-if (not (found.client_request_id == key)) (λ e. Post-weaken (λ s h. h.0) ih)
          λ e.
            Post-bind {R = λ t s. IsKeyed s × Named key t s}
              (observe-Named key found (of_not (found.client_request_id == key) e))
              λ turn.
                Post-if (is_terminal turn.status) (λ f. Post-weaken (λ s h. h.0) ih)
                  λ live. Post-pure (some turn) (λ s h. (h.0, (h.1.0, live, h.1.1)))
  where
    of_not : (b : Bool) → not b ≡ false → b ≡ true
    of_not true e = refl
    of_not false e = cc

or_else-Finds :
    (key : String) (o : Option Turn) {m : Exec (Option Turn)}
    → Post IsKeyed m (Finds key)
    → Post (Finds key o) (or_else o m) (Finds key)
unfolding or_else
or_else-Finds key (some t) p = Post-pure (some t) (λ s h. h)
or_else-Finds key none p = Post-weaken (λ s h. h.0) p

pub in_flight_by_client-Finds :
    (key : String) → Post IsKeyed (in_flight_by_client key) (λ o s. FoundFor key o s)
unfolding in_flight_by_client
in_flight_by_client-Finds key = record { at = λ s k o e. ((finds).at s k o e).1 }
  where
    finds : Post IsKeyed (in_flight_by_client key) (Finds key)
    finds = Post-bind {R = λ u. IsKeyed} (Post-reads _ (λ s k a e. k)) λ id.
        Post-bind {R = Finds key} (recorded-Finds key id) λ recorded. or_else-Finds key recorded (
          Post-bind {R = λ u. IsKeyed} (Post-IsKeyed Keeps-turn_json_paths)
            λ stems. scan_client-Finds key stems)

-- ===== src/Ledger/Admit/Converged.antt =====
-- What an admission does to turns that are there already (crates/core/src/ledger.rs, the searches of
-- `admit_turn`): it converges them, and changes nothing else of them.
use gamchi.Prelude.{
  String, ◌==◌, eq_iff, ◌≡◌, refl, sym, ◌∙◌, ap, subst, ◌⊎◌, inl, inr, Bool, true, false,
  Bool-cases, Option, some, Result, ok, err, if◌then◌else◌,
}
use gamchi.Prelude.Assoc.{lookup, insert, lookup-insert}
use gamchi.Wire.{Turn, failed, is_terminal}
use gamchi.Ledger.Error.{LedgerError}
use gamchi.Ledger.State.{Ledger, Body, good}
use gamchi.Ledger.Exec.{Exec, pure, raise, lift, reads, attempt, continue, ◌>>=◌}
use gamchi.Ledger.Files.{write_turn}
use gamchi.Ledger.Evolve.{Stored, IsKeyed, Succ, write_turn-Safe}
use gamchi.Ledger.Keeps.{
  Keeps, Keeps-of_Quiet, Keeps-pure, Keeps-raise, Keeps-lift, Keeps-reads, Keeps-attempt,
  Keeps-bind, Quiet,
}
use gamchi.Ledger.Admit.Start.{write_turn-cases}

-- A turn of a worker that is gone.
abbrev pub worker_gone : Turn → Turn
worker_gone t = record t { status = failed; stop_reason = ""; failure_reason = "worker_gone" }

-- The turn stayed as it was, or it was in flight and its worker has gone.
abbrev pub StayedOrGone : Turn → Turn → Type 0
StayedOrGone t u = (u ≡ t) ⊎ ((is_terminal t.status ≡ false) × (u ≡ worker_gone t))

-- Every turn that is stored afterwards was stored before, as itself or in flight.
pub record Converged (s u : Ledger) : Type 0 where
  pub before :
      (id : String) (t' : Turn) → Stored id t' u → (t : Turn) × Stored id t s × StayedOrGone t t'

pub Converged-of_same : {s u : Ledger} → u.turns ≡ s.turns → Converged s u
Converged-of_same e = record { before = λ id t h. (t, ap (lookup id) (sym e) ∙ h, inl refl) }

StayedOrGone-trans : {t u v : Turn} → StayedOrGone t u → StayedOrGone u v → StayedOrGone t v
StayedOrGone-trans (inl e) (inl f) = inl (f ∙ e)
StayedOrGone-trans (inl e) (inr (live, f)) =
    inr (subst (λ w. is_terminal w.status ≡ false) e live, f ∙ ap worker_gone e)
StayedOrGone-trans (inr (live, e)) (inl f) = inr (live, f ∙ e)
StayedOrGone-trans (inr (live, e)) (inr (_, f)) = inr (live, f ∙ ap worker_gone e)

pub Converged-trans : {s u v : Ledger} → Converged s u → Converged u v → Converged s v
Converged-trans p q = record {
  before = λ id t h.
      let (t1, h1, c1) = q.before id t h in
      let (t0, h0, c0) = p.before id t1 h1 in (t0, h0, StayedOrGone-trans c0 c1);
}

-- A method that only converges turns.
pub record Converging {ℓ} {A : Type ℓ} (m : Exec A) : Type 0 where
  pub keeps : Keeps m
  pub at : (s : Ledger) → IsKeyed s → Converged s (m s).1

-- The same, from a state in which the file `id` holds `t`.
pub record ConvergingAt {ℓ} {A : Type ℓ} (id : String) (t : Turn) (m : Exec A) : Type 0 where
  pub at : (s : Ledger) → IsKeyed s → Stored id t s → Converged s (m s).1

module _ {ℓ} {A : Type ℓ} where
  pub Converging-of_Quiet : {m : Exec A} → Quiet m → Converging m
  Converging-of_Quiet q = record {
    keeps = Keeps-of_Quiet q;
    at = λ s k. Converged-of_same (q.at s).0;
  }

  pub Converging-pure : (a : A) → Converging (pure a)
  Converging-pure a = record { keeps = Keeps-pure a; at = λ s k. Converged-of_same refl }

  pub Converging-raise : (e : LedgerError) → Converging {A = A} (raise e)
  Converging-raise e = record { keeps = Keeps-raise e; at = λ s k. Converged-of_same refl }

  pub Converging-reads : (f : Ledger → Result LedgerError A) → Converging (reads f)
  Converging-reads f = record { keeps = Keeps-reads f; at = λ s k. Converged-of_same refl }

  pub Converging-lift : (r : Result LedgerError A) → Converging (lift r)
  Converging-lift r = record { keeps = Keeps-lift r; at = λ s k. Converged-of_same refl }

  pub Converging-attempt : {m : Exec A} → Converging m → Converging (attempt m)
  Converging-attempt c = record { keeps = Keeps-attempt c.keeps; at = λ s k. c.at s k }

  pub Converging-if :
      (b : Bool) {m n : Exec A} → Converging m → Converging n → Converging (if b then m else n)
  Converging-if true p q = p
  Converging-if false p q = q

  pub ConvergingAt-if :
      {id : String} {t : Turn} (b : Bool) {m n : Exec A}
      → (b ≡ true → ConvergingAt id t m)
      → (b ≡ false → ConvergingAt id t n)
      → ConvergingAt id t (if b then m else n)
  ConvergingAt-if true p q = p refl
  ConvergingAt-if false p q = q refl

  pub ConvergingAt-of : {id : String} {t : Turn} {m : Exec A} → Converging m → ConvergingAt id t m
  ConvergingAt-of c = record { at = λ s k h. c.at s k }

module _ {ℓ κ} {A : Type ℓ} {B : Type κ} where
  Converged-continue :
      {s t : Ledger} (r : Result LedgerError A) (f : A → Exec B)
      → Converged s t
      → ((a : A) → Converged t (f a t).1)
      → Converged s (continue r f t).1
  Converged-continue (ok a) f h k = Converged-trans h (k a)
  Converged-continue (err e) f h k = h

  pub Converging-bind :
      {m : Exec A} {f : A → Exec B}
      → Converging m
      → ((a : A) → Converging (f a))
      → Converging (m >>= f)
  unfolding ◌>>=◌
  Converging-bind {m} {f} c cf = record {
    keeps = Keeps-bind c.keeps (λ a. (cf a).keeps);
    at = λ s k.
        Converged-continue (m s).0 f (c.at s k) (λ a. (cf a).at (m s).1 ((c.keeps.at s).safe k).0);
  }

  -- A quiet step leaves what is stored.
  pub ConvergingAt-bind :
      {id : String} {t : Turn} {m : Exec A} {f : A → Exec B}
      → Quiet m
      → ((a : A) → ConvergingAt id t (f a))
      → ConvergingAt id t (m >>= f)
  unfolding ◌>>=◌
  ConvergingAt-bind {id} {t} {m} {f} q cf = record {
    at = λ s k h. Converged-continue (m s).0 f (Converged-of_same (q.at s).0) (λ a.
        (cf a).at (m s).1 (((Keeps-of_Quiet q).at s).safe k).0 (ap (lookup id) (q.at s).0 ∙ h));
  }

Converged-insert :
    (id : String) (t u : Turn) (s v : Ledger)
    → Stored id t s
    → u.id ≡ id
    → StayedOrGone t u
    → v.turns ≡ insert u.id (good u) s.turns
    → Converged s v
Converged-insert id t u s v stored named c files = record {
  before = λ j w h.
      let found = sym (lookup-insert u.id j (good u) s.turns) ∙ (ap (lookup j) (sym files) ∙ h) in
      elim (Bool-cases (u.id == j)) [
        | inl same ↦
            let here : id ≡ j = sym named ∙ (eq_iff u.id j).0 same in
            let new : u ≡ w = value (rw same at found) in
            (t, subst (λ x. Stored x t s) here stored, subst (StayedOrGone t) new c)
        | inr other ↦ (w, rw other at found, inl refl)
      ];
}
  where
    value : {a b : Turn} → ◌≡◌ {A = Option (Body Turn)} (some (good a)) (some (good b)) → a ≡ b
    value e = cc

-- The write of a converged turn, whether it succeeds or fails, and what follows.
pub ConvergingAt-write {κ} :
    {B : Type κ} (id : String) (t u : Turn) {f : Unit {0} → Exec B}
    → Succ t u
    → StayedOrGone t u
    → ((a : Unit {0}) → Converging (f a))
    → ConvergingAt id t (write_turn u >>= f)
unfolding ◌>>=◌
ConvergingAt-write id t u {f} succ c cf = record {
  at = λ s k h.
      Converged-continue (write_turn u s).0 f (written s k h)
        (λ a. (cf a).at (write_turn u s).1 ((write_turn-Safe id t u s h succ).safe k).0);
}
  where
    written : (s : Ledger) → IsKeyed s → Stored id t s → Converged s (write_turn u s).1
    written s k h = elim (write_turn-cases u s) [
      | inl e ↦ rw e (Converged-insert id t u s _ h (succ.id ∙ k.keyed id t h) c refl)
      | inr e ↦ rw e (Converged-of_same refl)
    ]

-- ===== src/Ledger/Keeps.antt =====
-- Methods that change the turn files safely from every state, one rule for each way to build one.
use gamchi.Prelude.{
  suc, ◌+◌, ◌%◌, ◌^◌, String, ◌≡◌, refl, ◌∙◌, ap, inl, inr, Bool, Bool-cases, true, false, Option,
  none, some, Result, ok, err, arith, if◌then◌else◌,
}
use gamchi.Prelude.Assoc.{lookup}
use gamchi.Wire.{Thread, Turn, Generation}
use gamchi.Ledger.Error.{LedgerError}
use gamchi.Ledger.State.{Ledger}
use gamchi.Ledger.Exec.{
  Exec, pure, raise, lift, gets, reads, modify, attempt, ignore, or_else, continue, ◌>>=◌, call,
}
use gamchi.Ledger.Files.{
  read_turn, write_json_atomic, write_thread, write_turn, write_generation, next_seq, new_id,
}
use gamchi.Ledger.Evolve.{
  SameFiles, Stored, Safe, Safe-refl, Safe-trans, Safe-of_same, Succ, write_turn-Safe,
}

pub record Keeps {ℓ} {A : Type ℓ} (m : Exec A) : Type 0 where
  pub at : (s : Ledger) → Safe s (m s).1

-- The same, from a state in which the file `id` holds `t`.
pub record KeepsAt {ℓ} {A : Type ℓ} (id : String) (t : Turn) (m : Exec A) : Type 0 where
  pub at : (s : Ledger) → Stored id t s → Safe s (m s).1

-- A method that leaves the turn files alone.
pub record Quiet {ℓ} {A : Type ℓ} (m : Exec A) : Type 0 where
  pub at : (s : Ledger) → SameFiles s (m s).1

module _ {ℓ} {A : Type ℓ} where
  pub Keeps-of_Quiet : {m : Exec A} → Quiet m → Keeps m
  Keeps-of_Quiet q = record { at = λ s. Safe-of_same (q.at s) }

  pub Keeps-pure : (a : A) → Keeps (pure a)
  Keeps-pure a = record { at = λ s. Safe-refl s }

  pub Keeps-raise : (e : LedgerError) → Keeps {A = A} (raise e)
  Keeps-raise e = record { at = λ s. Safe-refl s }

  pub Keeps-lift : (r : Result LedgerError A) → Keeps (lift r)
  Keeps-lift r = record { at = λ s. Safe-refl s }

  pub Keeps-gets : (f : Ledger → A) → Keeps (gets f)
  Keeps-gets f = record { at = λ s. Safe-refl s }

  pub Keeps-reads : (f : Ledger → Result LedgerError A) → Keeps (reads f)
  Keeps-reads f = record { at = λ s. Safe-refl s }

  pub Keeps-attempt : {m : Exec A} → Keeps m → Keeps (attempt m)
  Keeps-attempt k = record { at = λ s. k.at s }

  pub Keeps-ignore : {m : Exec A} → Keeps m → Keeps (ignore m)
  Keeps-ignore k = record { at = λ s. k.at s }

  pub Keeps-if :
      (b : Bool) {m n : Exec A}
      → (b ≡ true → Keeps m)
      → (b ≡ false → Keeps n)
      → Keeps (if b then m else n)
  Keeps-if true km kn = km refl
  Keeps-if false km kn = kn refl

  pub KeepsAt-of_Keeps : {id : String} {t : Turn} {m : Exec A} → Keeps m → KeepsAt id t m
  KeepsAt-of_Keeps k = record { at = λ s h. k.at s }

  pub KeepsAt-if :
      {id : String} {t : Turn} (b : Bool) {m n : Exec A}
      → (b ≡ true → KeepsAt id t m)
      → (b ≡ false → KeepsAt id t n)
      → KeepsAt id t (if b then m else n)
  KeepsAt-if true km kn = km refl
  KeepsAt-if false km kn = kn refl

module _ {ℓ κ} {A : Type ℓ} {B : Type κ} where
  Safe-continue :
      {s t : Ledger} (r : Result LedgerError A) (f : A → Exec B)
      → Safe s t
      → ((a : A) → Safe t (f a t).1)
      → Safe s (continue r f t).1
  Safe-continue (ok a) f h k = Safe-trans h (k a)
  Safe-continue (err e) f h k = h

  pub Keeps-bind :
      {m : Exec A} {f : A → Exec B} → Keeps m → ((a : A) → Keeps (f a)) → Keeps (m >>= f)
  unfolding ◌>>=◌
  Keeps-bind {m} {f} km kf = record {
    at = λ s. Safe-continue (m s).0 f (km.at s) (λ a. (kf a).at (m s).1);
  }

  pub KeepsAt-bind :
      {id : String} {t : Turn} {m : Exec A} {f : A → Exec B}
      → Quiet m
      → ((a : A) → KeepsAt id t (f a))
      → KeepsAt id t (m >>= f)
  unfolding ◌>>=◌
  KeepsAt-bind {id} {t} {m} {f} q kf = record {
    at = λ s h.
        Safe-continue (m s).0 f (Safe-of_same (q.at s))
          (λ a. (kf a).at (m s).1 (ap (lookup id) (q.at s).0 ∙ h));
  }

pub Stored-of_read : (id : String) (s : Ledger) {t : Turn} → read_turn id s ≡ ok t → Stored id t s
unfolding read_turn
Stored-of_read id s e = ground arith

module _ {κ} {B : Type κ} where
  -- A turn that was read is the one in the file.
  Keeps-found :
      (id : String) (s : Ledger) (f : Turn → Exec B) (r : Result LedgerError Turn)
      → read_turn id s ≡ r
      → ((t : Turn) → KeepsAt id t (f t))
      → Safe s (continue r f s).1
  Keeps-found id s f (ok t) e k = (k t).at s (Stored-of_read id s e)
  Keeps-found id s f (err x) e k = Safe-refl s

  pub Keeps-read_turn :
      (id : String) {f : Turn → Exec B}
      → ((t : Turn) → KeepsAt id t (f t))
      → Keeps (reads (read_turn id) >>= f)
  unfolding ◌>>=◌
  Keeps-read_turn id {f} k = record { at = λ s. Keeps-found id s f (read_turn id s) refl k }

  pub KeepsAt-write_turn :
      {id : String} {t : Turn} (u : Turn) {f : Unit {0} → Exec B}
      → Succ t u
      → ((a : Unit {0}) → Keeps (f a))
      → KeepsAt id t (write_turn u >>= f)
  unfolding ◌>>=◌
  KeepsAt-write_turn {id} {t} u {f} succ k = record {
    at = λ s h.
        Safe-continue (write_turn u s).0 f (write_turn-Safe id t u s h succ)
          (λ a. (k a).at (write_turn u s).1);
  }

pub Keeps-or_else {ℓ} :
    {A : Type ℓ} (o : Option A) {m : Exec (Option A)} → Keeps m → Keeps (or_else o m)
unfolding or_else
Keeps-or_else (some a) k = Keeps-pure (some a)
Keeps-or_else none k = k

pub Quiet-call : Quiet call
unfolding call
Quiet-call = record { at = λ s. ground arith }

pub Quiet-write_json_atomic :
    (f : Ledger → Ledger) → ((s : Ledger) → SameFiles s (f s)) → Quiet (write_json_atomic f)
unfolding write_json_atomic next_seq call ◌>>=◌
Quiet-write_json_atomic f q = record {
  at = λ s. elim (Bool-cases (s.os.fails s.calls)) [
    | inl e ↦ rw e (refl, refl)
    | inr e ↦ rw e (q (record s { seq = (s.seq + 1) % 2 ^ 64; calls = suc s.calls }))
  ];
}

pub Quiet-write_thread : (t : Thread) → Quiet (write_thread t)
unfolding write_thread
Quiet-write_thread t = Quiet-write_json_atomic _ (λ s. (refl, refl))

pub Quiet-write_generation : (id : String) (g : Generation) → Quiet (write_generation id g)
unfolding write_generation
Quiet-write_generation id g = Quiet-write_json_atomic _ (λ s. (refl, refl))

pub Quiet-new_id : (prefix : String) → Quiet (new_id prefix)
unfolding new_id next_seq
Quiet-new_id prefix = record { at = λ s. (refl, refl) }

pub Quiet-reads {ℓ} : {A : Type ℓ} (f : Ledger → Result LedgerError A) → Quiet (reads f)
Quiet-reads f = record { at = λ s. (refl, refl) }

pub Quiet-gets {ℓ} : {A : Type ℓ} (f : Ledger → A) → Quiet (gets f)
Quiet-gets f = record { at = λ s. (refl, refl) }

pub Quiet-attempt {ℓ} : {A : Type ℓ} {m : Exec A} → Quiet m → Quiet (attempt m)
Quiet-attempt q = record { at = λ s. q.at s }

pub Quiet-ignore {ℓ} : {A : Type ℓ} {m : Exec A} → Quiet m → Quiet (ignore m)
Quiet-ignore q = record { at = λ s. q.at s }

pub Quiet-pure {ℓ} : {A : Type ℓ} (a : A) → Quiet (pure a)
Quiet-pure a = record { at = λ s. (refl, refl) }

pub Quiet-modify : (f : Ledger → Ledger) → ((s : Ledger) → SameFiles s (f s)) → Quiet (modify f)
Quiet-modify f q = record { at = λ s. q s }

pub Quiet-if {ℓ} :
    {A : Type ℓ} (b : Bool) {m n : Exec A} → Quiet m → Quiet n → Quiet (if b then m else n)
Quiet-if true km kn = km
Quiet-if false km kn = kn

pub ruleset quiet_rules = (
  Quiet-call, Quiet-write_thread, Quiet-write_generation, Quiet-new_id, Quiet-reads, Quiet-gets,
  Quiet-attempt, Quiet-ignore, Quiet-pure, Quiet-if,
)

-- The common beginning: the turn names its lock, and is read again under it.
pub Keeps-locked {κ} :
    {B : Type κ} (id : String) (v : Result LedgerError (Unit {0})) {body : Turn → Exec B}
    → ((t : Turn) → KeepsAt id t (body t))
    → Keeps (
        lift v >>= λ _.
        reads (read_turn id) >>= λ named. call >>= λ _. reads (read_turn id) >>= body)
Keeps-locked id v k = Keeps-bind (Keeps-lift _) λ _.
    Keeps-bind (Keeps-reads _)
      λ named. Keeps-bind (Keeps-of_Quiet Quiet-call) λ _. Keeps-read_turn id k

pub ruleset keeps_rules = (
  Keeps-pure, Keeps-raise, Keeps-lift, Keeps-gets, Keeps-reads, Keeps-attempt, Keeps-ignore,
  Keeps-if, Keeps-bind, Keeps-read_turn, KeepsAt-if, KeepsAt-bind, KeepsAt-write_turn, quiet_rules,
  Keeps-of_Quiet, KeepsAt-of_Keeps, Keeps-or_else,
)
